-- ===== src/Merkle/Digests.antt =====
-- Digests and their concatenation (blockchain/merkle.py, `_hash_pair`): a hash of two digests
-- determines them where the hash tells the texts apart. And which texts a tree and a proof hash.
use Prim.Native.String.{count, ◌++◌ as concat}
use text.Mathlib.TextLemmas.{
  nil-append, cons-append, length-cons, length-nil, length-append as length-concat,
  head-eq_of_cons-eq, tail-eq_of_cons-eq,
}
use hs_fob.Base.{
  ℕ, suc, ◌≤◌, ◌<◌, ◌≡◌, refl, ◌||◌, inl, inr, Bool, true, not, ◌==◌, all, &&-true, leb,
  if◌then◌else◌, zero, List, [], ◌∷◌, ◌++◌, String, arith, length, get_or, last_or, nat_eq,
  string_eq, ap, ◌∙◌, sym, Bool-cases, eq_iff,
}
use hs_fob.Base.Sets.{elem, elem-append_left, elem-append_right}
use hs_fob.Merkle.{Side, left, right, other, pad, parents, hash_pair}
use hs_fob.Merkle.Levels.{up, top, top-suc}

-- a SHA-256 digest in hex
abbrev pub IsDigest : String → Type 0
IsDigest h = count h ≡ 64

abbrev pub AllDigests : List String → Type 0
AllDigests [] = Unit
AllDigests (x ∷ xs) = IsDigest x × AllDigests xs

-- Hashing tells each text of the first list from each other text of the second.
abbrev pub NoCollision : (String → String) → List String → List String → Type 0
NoCollision sha256 ts us =
    (a b : String) → elem a ts ≡ true → elem b us ≡ true → sha256 a ≡ sha256 b → a ≡ b

-- the same as a test
abbrev pub no_collision : (String → String) → List String → List String → Bool
no_collision sha256 ts us = all (λ a. all (λ b. not (sha256 a == sha256 b) || a == b) us) ts

all-elem :
    (test : String → Bool) (a : String) (ts : List String)
    → all test ts ≡ true
    → elem a ts ≡ true
    → test a ≡ true
all-elem test a [] h e = absurd (ground (arith, e))
all-elem test a (x ∷ ts) h e = elim (Bool-cases (a == x)) [
  | inl same ↦ ap test ((eq_iff a x).0 same) ∙ (&&-true _ _ h).0
  | inr differ ↦ all-elem test a ts ((&&-true _ _ h).1) (ground (arith, e))
]

pub no_collision-NoCollision :
    (sha256 : String → String) (ts us : List String)
    → no_collision sha256 ts us ≡ true
    → NoCollision sha256 ts us
no_collision-NoCollision sha256 ts us h a b ha hb e =
    let one = all-elem _ b us (all-elem _ a ts h ha) hb in
    (eq_iff a b).0 (ground (arith, one, (eq_iff (sha256 a) (sha256 b)).1 e))

-- the texts that `_hash_pair` hashes for one level
abbrev pub pair_texts : List String → List String
pair_texts [] = []
pair_texts (x ∷ []) = []
pair_texts (x ∷ y ∷ rest) = concat x y ∷ pair_texts rest

pub split_concat :
    (l r l' r' : String) → count l ≡ count l' → concat l r ≡ concat l' r' → (l ≡ l') × (r ≡ r')
split_concat String.[] r String.[] r' n e = (refl, sym (nil-append r) ∙ e ∙ nil-append r')
split_concat String.[] r (String.◌∷◌ d t) r' n e =
    absurd (omega (arith, n, length-nil, length-cons d t))
split_concat (String.◌∷◌ c s) r String.[] r' n e =
    absurd (omega (arith, n, length-nil, length-cons c s))
split_concat (String.◌∷◌ c s) r (String.◌∷◌ d t) r' n e =
    let e' : String.◌∷◌ c (concat s r) ≡ String.◌∷◌ d (concat t r') =
      sym (cons-append c s r) ∙ e ∙ cons-append d t r' in
    let rest =
      split_concat s r t r' (omega (arith, length-cons c s, length-cons d t))
        (tail-eq_of_cons-eq e') in
    (cc (head-eq_of_cons-eq e', rest.0), rest.1)

pub split_concat_right :
    (l r l' r' : String) → count r ≡ 64 → count r' ≡ 64 → concat l r ≡ concat l' r' → r ≡ r'
split_concat_right l r l' r' dr dr' q =
    (split_concat l r l' r'
      (omega (arith, ap count q, length-concat l r, length-concat l' r', dr, dr')) q).1

append-left_inj : (xs ys s t : List String) → length xs ≡ length ys → xs ++ s ≡ ys ++ t → xs ≡ ys
append-left_inj [] [] s t n e = refl
append-left_inj [] (y ∷ ys) s t n e = absurd (omega arith)
append-left_inj (x ∷ xs) [] s t n e = absurd (omega arith)
append-left_inj (x ∷ xs) (y ∷ ys) s t n e = cc (append-left_inj xs ys s t (omega arith) (cc))

pub pad_inj : (xs ys : List String) → length xs ≡ length ys → pad xs ≡ pad ys → xs ≡ ys
unfolding pad
pad_inj xs ys n e =
    ground (arith, append-left_inj xs ys (last_or "" xs ∷ []) (last_or "" ys ∷ []) n)

append-AllDigests : (xs ys : List String) → AllDigests xs → AllDigests ys → AllDigests (xs ++ ys)
append-AllDigests [] ys h k = k
append-AllDigests (x ∷ xs) ys h k = (h.0, append-AllDigests xs ys h.1 k)

last_or-IsDigest :
    (d : String) (xs : List String) → IsDigest d → AllDigests xs → IsDigest (last_or d xs)
last_or-IsDigest d [] h k = h
last_or-IsDigest d (x ∷ xs) h k = last_or-IsDigest x xs k.0 k.1

pub pad-AllDigests : (xs : List String) → 0 < length xs → AllDigests xs → AllDigests (pad xs)
unfolding pad
pad-AllDigests [] p h = tt
pad-AllDigests (x ∷ xs) p h =
    ground
      (arith, append-AllDigests (x ∷ xs) (last_or x xs ∷ []) h (last_or-IsDigest x xs h.0 h.1, tt))

module _ (sha256 : String → String) where
  -- the texts that are hashed on the way up from a level
  abbrev pub texts_from : ℕ → List String → List String
  texts_from zero xs = []
  texts_from (suc fuel) xs =
      let rest = texts_from fuel (up sha256 xs) in
      if leb (length xs) 1 then [] else pair_texts (pad xs) ++ rest

  -- the texts that are hashed to build a tree over these leaves
  abbrev pub tree_texts : List String → List String
  tree_texts leaves = texts_from (length leaves) leaves

  -- the texts that `verify` hashes along a path
  abbrev pub path_texts : String → List (String × Side) → List String
  path_texts running [] = []
  path_texts running ((s, right) ∷ path) =
      concat running s ∷ path_texts (hash_pair sha256 running s) path
  path_texts running ((s, left) ∷ path) =
      concat s running ∷ path_texts (hash_pair sha256 s running) path
  path_texts running ((s, other) ∷ path) = []

  pub texts_from-more :
      (fuel : ℕ) (xs : List String)
      → 1 < length xs
      → texts_from (suc fuel) xs ≡ pair_texts (pad xs) ++ texts_from fuel (up sha256 xs)
  texts_from-more fuel xs h = ground arith

  pub level_text :
      (fuel : ℕ) (xs : List String) (t : String)
      → 1 < length xs
      → elem t (pair_texts (pad xs)) ≡ true
      → elem t (texts_from (suc fuel) xs) ≡ true
  level_text fuel xs t more h =
      ap (elem t) (texts_from-more fuel xs more) ∙ elem-append_left t (pair_texts (pad xs)) _ h

  pub upper_text :
      (fuel : ℕ) (xs : List String) (t : String)
      → 1 < length xs
      → elem t (texts_from fuel (up sha256 xs)) ≡ true
      → elem t (texts_from (suc fuel) xs) ≡ true
  upper_text fuel xs t more h =
      ap (elem t) (texts_from-more fuel xs more) ∙ elem-append_right t (pair_texts (pad xs)) _ h

  pub top-single :
      (fuel : ℕ) (xs : List String)
      → length xs ≤ 1
      → get_or (top sha256 (suc fuel) xs) 0 "" ≡ get_or xs 0 ""
  top-single fuel xs h = rw (top-suc sha256 fuel xs) (ground arith)

  pub top-more :
      (fuel : ℕ) (xs : List String)
      → 1 < length xs
      → get_or (top sha256 (suc fuel) xs) 0 "" ≡ get_or (top sha256 fuel (up sha256 xs)) 0 ""
  top-more fuel xs h = rw (top-suc sha256 fuel xs) (ground arith)

module _ (sha256 : String → String) (fixed : (s : String) → IsDigest (sha256 s)) where
  pub parents-AllDigests : (xs : List String) → AllDigests (parents sha256 xs)
  unfolding parents
  parents-AllDigests [] = tt
  parents-AllDigests (x ∷ []) = tt
  parents-AllDigests (x ∷ y ∷ xs) = (fixed (concat x y), parents-AllDigests xs)
