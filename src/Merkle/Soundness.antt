-- ===== src/Merkle/Soundness.antt =====
-- Verified proofs (blockchain/merkle.py, `verify`): a proof of the tree's height is about a leaf; a
-- shorter one can be about an inner node.
use Prim.Native.String.{◌++◌ as concat}
use hs_fob.Base.{
  ℕ, zero, suc, ◌≤◌, ◌<◌, ◌≡◌, inl, inr, true, false, List, [], ◌∷◌, String, arith, length, get_or,
  last_or, ◌==◌, nat_eq, string_eq, ap, ◌∙◌, sym, Option, none, some, Bool-cases, eq_iff,
}
use hs_fob.Base.Sets.{elem, elem-append}
use hs_fob.Merkle.Digests.{
  IsDigest, AllDigests, NoCollision, split_concat, split_concat_right, pair_texts, texts_from,
  level_text, upper_text, tree_texts, path_texts, pad-AllDigests, top-single, top-more,
  parents-AllDigests,
}
use hs_fob.Merkle.{
  Side, left, right, other, MerkleProof, pad, parents, hash_pair, build_from, build_levels, root,
  fold_path, verify,
}
use hs_fob.Merkle.Inclusion.{build_levels-cons, verify-proof}
use hs_fob.Merkle.Levels.{up, length-up, top, root-top}

elem-single :
    (h : String) (xs : List String)
    → 0 < length xs
    → length xs ≤ 1
    → h ≡ get_or xs 0 ""
    → elem h xs ≡ true
elem-single h [] p le e = absurd (omega arith)
elem-single h (x ∷ xs) p le e = ground (arith, eq_iff h x)

elem-last_or : (d : String) (xs : List String) → elem (last_or d xs) (d ∷ xs) ≡ true
elem-last_or d [] = ground (arith, eq_iff d d)
elem-last_or d (x ∷ xs) = ground (arith, elem-last_or x xs)

elem-pad :
    (h : String) (xs : List String) → 0 < length xs → elem h (pad xs) ≡ true → elem h xs ≡ true
unfolding pad
elem-pad h [] p e = absurd (omega arith)
elem-pad h (x ∷ xs) p e =
    ground (
      arith,
      elem-append h (x ∷ xs) (last_or x xs ∷ []),
      elem-last_or x xs,
      eq_iff h (last_or x xs),
    )

elem-IsDigest : (x : String) (xs : List String) → AllDigests xs → elem x xs ≡ true → IsDigest x
elem-IsDigest x [] d h = absurd (ground (arith, h))
elem-IsDigest x (y ∷ ys) d h = elim (Bool-cases (x == y)) [
  | inl same ↦ rw ((eq_iff x y).0 same) d.0
  | inr differ ↦ elem-IsDigest x ys d.1 (ground (arith, h))
]

module _ (sha256 : String → String) where
  length-build_from : (fuel : ℕ) (xs : List String) → 1 ≤ length (build_from sha256 fuel xs)
  unfolding build_from
  length-build_from zero xs = omega arith
  length-build_from (suc fuel) xs = ground arith

  -- A node of the next level is the hash of a text that is hashed for this one.
  elem-parents :
      (r : String) (xs : List String)
      → elem r (parents sha256 xs) ≡ true
      → (x : String) × (y : String) × (elem x xs ≡ true)
        × (elem y xs ≡ true)
        × (elem (concat x y) (pair_texts xs) ≡ true)
        × (r ≡ hash_pair sha256 x y)
  unfolding parents
  elem-parents r [] h = absurd (ground (arith, h))
  elem-parents r (x ∷ []) h = absurd (ground (arith, h))
  elem-parents r (x ∷ y ∷ xs) h = elim (Bool-cases (r == hash_pair sha256 x y)) [
    | inl same ↦ (
      x,
      y,
      ground (arith, eq_iff x x),
      ground (arith, eq_iff y y),
      ground (arith, eq_iff (concat x y) (concat x y)),
      (eq_iff r (hash_pair sha256 x y)).0 same,
    )
    | inr differ ↦
        let (a, b, ina, inb, text, e) = elem-parents r xs (ground (arith, h)) in
        (a, b, ground (arith, ina), ground (arith, inb), ground (arith, text), e)
  ]

module _ (sha256 : String → String) (fixed : (s : String) → IsDigest (sha256 s)) where
  -- A text whose hash stands on the next level is one of the texts hashed for it.
  step_down :
      (xs path : List String) (t : String)
      → NoCollision sha256 path (pair_texts (pad xs))
      → elem t path ≡ true
      → elem (sha256 t) (up sha256 xs) ≡ true
      → (x : String) × (y : String) × (elem x (pad xs) ≡ true)
        × (elem y (pad xs) ≡ true)
        × (t ≡ concat x y)
  step_down xs path t apart int stands =
      let (x, y, inx, iny, text, e) = elem-parents sha256 (sha256 t) (pad xs) stands in
      (x, y, inx, iny, apart t (concat x y) int text e)

  -- so its halves stand on this level
  left_stands :
      (xs path : List String) (h s : String)
      → 0 < length xs
      → AllDigests xs
      → IsDigest h
      → NoCollision sha256 path (pair_texts (pad xs))
      → elem (concat h s) path ≡ true
      → elem (hash_pair sha256 h s) (up sha256 xs) ≡ true
      → elem h xs ≡ true
  left_stands xs path h s p dx dh apart int stands =
      let (x, y, inx, iny, e) = step_down xs path (concat h s) apart int stands in
      let dx' = elem-IsDigest x (pad xs) (pad-AllDigests xs p dx) inx in
      let same = (split_concat h s x y (dh ∙ sym dx') e).0 in
      elem-pad h xs p (ap (λ z. elem z (pad xs)) same ∙ inx)

  right_stands :
      (xs path : List String) (h s : String)
      → 0 < length xs
      → AllDigests xs
      → IsDigest h
      → NoCollision sha256 path (pair_texts (pad xs))
      → elem (concat s h) path ≡ true
      → elem (hash_pair sha256 s h) (up sha256 xs) ≡ true
      → elem h xs ≡ true
  right_stands xs path h s p dx dh apart int stands =
      let (x, y, inx, iny, e) = step_down xs path (concat s h) apart int stands in
      let dy' = elem-IsDigest y (pad xs) (pad-AllDigests xs p dx) iny in
      let same = split_concat_right s h x y dh dy' e in
      elem-pad h xs p (ap (λ z. elem z (pad xs)) same ∙ iny)

  -- A node that a path of the level's height leads to the top stands on the level.
  fold_path-top :
      (fuel : ℕ) (xs : List String) (h : String) (path : List (String × Side))
      → 0 < length xs
      → length xs ≤ suc fuel
      → AllDigests xs
      → IsDigest h
      → suc (length path) ≡ length (build_from sha256 fuel xs)
      → NoCollision sha256 (path_texts sha256 h path) (texts_from sha256 fuel xs)
      → fold_path sha256 h path ≡ some (get_or (top sha256 fuel xs) 0 "")
      → elem h xs ≡ true
  unfolding build_from fold_path
  fold_path-top zero xs h [] p le dx dh n apart e = elem-single h xs p le (cc)
  fold_path-top zero xs h (s ∷ path) p le dx dh n apart e = absurd (omega arith)
  fold_path-top (suc fuel) xs h [] p le dx dh n apart e =
      let single : length xs ≤ 1 = ground (arith, length-build_from sha256 fuel (up sha256 xs)) in
      elem-single h xs p single (cc (top-single sha256 fuel xs single))
  fold_path-top (suc fuel) xs h ((s, other) ∷ path) p le dx dh n apart e = absurd (cc)
  fold_path-top (suc fuel) xs h ((s, right) ∷ path) p le dx dh n apart e =
      let more : 1 < length xs = ground arith in
      left_stands xs (path_texts sha256 h ((s, right) ∷ path)) h s p dx dh
        (λ a b ha hb. apart a b ha (level_text sha256 fuel xs b more hb))
        (ground (arith, eq_iff (concat h s) (concat h s)))
        (fold_path-top fuel (up sha256 xs) (hash_pair sha256 h s) path
          (omega (arith, length-up sha256 xs)) (omega (arith, length-up sha256 xs))
          (parents-AllDigests sha256 fixed (pad xs)) (fixed (concat h s)) (ground arith)
          (λ a b ha hb. apart a b (ground (arith, ha)) (upper_text sha256 fuel xs b more hb))
          (e ∙ ap some (top-more sha256 fuel xs more)))
  fold_path-top (suc fuel) xs h ((s, left) ∷ path) p le dx dh n apart e =
      let more : 1 < length xs = ground arith in
      right_stands xs (path_texts sha256 h ((s, left) ∷ path)) h s p dx dh
        (λ a b ha hb. apart a b ha (level_text sha256 fuel xs b more hb))
        (ground (arith, eq_iff (concat s h) (concat s h)))
        (fold_path-top fuel (up sha256 xs) (hash_pair sha256 s h) path
          (omega (arith, length-up sha256 xs)) (omega (arith, length-up sha256 xs))
          (parents-AllDigests sha256 fixed (pad xs)) (fixed (concat s h)) (ground arith)
          (λ a b ha hb. apart a b (ground (arith, ha)) (upper_text sha256 fuel xs b more hb))
          (e ∙ ap some (top-more sha256 fuel xs more)))

  -- No inclusion proof can be made up. If every digest has 64 characters, a proof of the tree's height
  -- that is about a digest and verifies against the root of a non-empty tree is about one of the
  -- leaves, as long as the hash tells the texts that `verify` hashes from those the tree hashes.
  pub verify_sound :
      (leaves : List String) (p : MerkleProof)
      → 0 < length leaves
      → AllDigests leaves
      → IsDigest p.leaf_hash
      → suc (length p.path) ≡ length (build_levels sha256 leaves)
      → NoCollision sha256 (path_texts sha256 p.leaf_hash p.path) (tree_texts sha256 leaves)
      → verify sha256 p (root sha256 leaves) ≡ true
      → elem p.leaf_hash leaves ≡ true
  unfolding verify
  verify_sound leaves p pos dx dh n apart e =
      fold_path-top (length leaves) leaves p.leaf_hash p.path pos (omega arith) dx dh
        (n ∙ ap (length {A = List String}) (build_levels-cons sha256 leaves pos)) apart
        (verified (fold_path sha256 p.leaf_hash p.path) (root sha256 leaves) e
          ∙ ap some (root-top sha256 (length leaves) leaves pos (omega arith)))
    where
      verified :
          (o : Option String) (r : String)
          → elim o [ none ↦ false | some running ↦ running == r ] ≡ true
          → o ≡ some r
      verified none r h = cc
      verified (some x) r h = ap some ((eq_iff x r).0 h)

module _ (sha256 : String → String) where
  root-up : (xs : List String) → 1 < length xs → root sha256 (up sha256 xs) ≡ root sha256 xs
  root-up xs h =
      rw
        (
          root-top sha256 (length xs) (up sha256 xs) (omega (arith, length-up sha256 xs))
              (omega (arith, length-up sha256 xs)),
          root-top sha256 (suc (length xs)) xs (omega arith) (omega arith),
        )
        (sym (top-more sha256 (length xs) xs h))

  -- `verify` does not look at the length of a path: in a tree of two leaves or more each node one
  -- level above the leaves has a proof that verifies against the root.
  pub verify-inner :
      (leaves : List String) (node : String)
      → 1 < length leaves
      → elem node (up sha256 leaves) ≡ true
      → (p : MerkleProof) × (p.leaf_hash ≡ node) × (verify sha256 p (root sha256 leaves) ≡ true)
  verify-inner leaves node more h =
      let (p, _, about, ok) = verify-proof sha256 (up sha256 leaves) node h in
      (p, about, rw (root-up leaves more) at ok)
