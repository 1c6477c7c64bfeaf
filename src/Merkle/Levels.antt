-- ===== src/Merkle/Levels.antt =====
-- The levels of a Merkle tree (blockchain/merkle.py, `_build_levels`): their widths, that the loop
-- reaches a single node, and that it does not matter how much fuel is left then.
use hs_fob.Base.{
  ℕ, zero, suc, ◌+◌, ◌/◌, ◌%◌, ◌≤◌, ◌<◌, ◌≡◌, refl, List, [], ◌∷◌, ◌++◌, String, arith, length,
  get_or, last_or, if◌then◌else◌, nat_eq, leb, length-append, ap, sym, ◌∙◌,
}
use hs_fob.Merkle.{pad, parents, build_from, build_levels, root}

pub length-pad : (xs : List String) → length (pad xs) ≡ length xs + length xs % 2
unfolding pad
length-pad xs = ground (arith, length-append xs (last_or "" xs ∷ []))

pub get_or-append :
    (xs ys : List String) (i : ℕ) (d : String)
    → i < length xs
    → get_or (xs ++ ys) i d ≡ get_or xs i d
get_or-append [] ys i d h = elim h [ ]
get_or-append (x ∷ xs) ys zero d h = refl
get_or-append (x ∷ xs) ys (suc i) d h = get_or-append xs ys i d (omega arith)

pub get_or-pad :
    (xs : List String) (i : ℕ) (d : String) → i < length xs → get_or (pad xs) i d ≡ get_or xs i d
unfolding pad
get_or-pad xs i d h = ground (arith, get_or-append xs (last_or "" xs ∷ []) i d h)

pub pad-pad : (xs : List String) → pad (pad xs) ≡ pad xs
unfolding pad
pad-pad xs = ground (arith, length-append xs (last_or "" xs ∷ []))

last_or-append : (last : String) (xs : List String) → last_or "" (xs ++ last ∷ []) ≡ last
last_or-append last [] = refl
last_or-append last (x ∷ []) = refl
last_or-append last (x ∷ y ∷ xs) = last_or-append last (y ∷ xs)

append-append :
    (last : String) (xs : List String) → (xs ++ last ∷ []) ++ last ∷ [] ≡ xs ++ last ∷ last ∷ []
append-append last [] = refl
append-append last (x ∷ xs) = ap (λ (l : List String). x ∷ l) (append-append last xs)

module _ (sha256 : String → String) where
  pub length-parents : (xs : List String) → length (parents sha256 xs) ≡ length xs / 2
  unfolding parents
  length-parents [] = refl
  length-parents (x ∷ []) = refl
  length-parents (x ∷ y ∷ rest) = omega (arith, length-parents rest)

  abbrev pub up : List String → List String
  up xs = parents sha256 (pad xs)

  pub length-up : (xs : List String) → length (up xs) ≡ (length xs + 1) / 2
  length-up xs = omega (arith, length-parents (pad xs), length-pad xs)

  pub last_or-build_from :
      (d d' : List String) (fuel : ℕ) (xs : List String)
      → last_or d (build_from sha256 fuel xs) ≡ last_or d' (build_from sha256 fuel xs)
  unfolding build_from
  last_or-build_from d d' zero xs = refl
  last_or-build_from d d' (suc fuel) xs = ground arith

  -- the level at which the loop ends
  abbrev pub top : ℕ → List String → List String
  top fuel xs = last_or [] (build_from sha256 fuel xs)

  pub top-suc :
      (fuel : ℕ) (xs : List String)
      → top (suc fuel) xs ≡ (if leb (length xs) 1 then xs else top fuel (up xs))
  unfolding build_from
  top-suc fuel xs = ground (arith, last_or-build_from xs [] fuel (up xs))

  -- Enough rounds reach a level of one node.
  pub length-top :
      (fuel : ℕ) (xs : List String)
      → 0 < length xs
      → length xs ≤ suc fuel
      → length (top fuel xs) ≡ 1
  unfolding build_from
  length-top zero xs p h = omega arith
  length-top (suc fuel) xs p h = rw top-suc (ground (arith, length-up xs, length-top fuel (up xs)))

  -- Two amounts of fuel that are both enough lead to the same top.
  pub top_enough :
      (f g : ℕ) (xs : List String) → length xs ≤ suc f → length xs ≤ suc g → top f xs ≡ top g xs
  unfolding build_from
  top_enough zero zero xs hf hg = refl
  top_enough zero (suc g) xs hf hg = rw top-suc (ground arith)
  top_enough (suc f) zero xs hf hg = rw top-suc (ground arith)
  top_enough (suc f) (suc g) xs hf hg =
      rw (top-suc f xs, top-suc g xs) (ground (arith, length-up xs, top_enough f g (up xs)))

  -- The root of a tree that has a leaf is the one node of the top level.
  pub root-top :
      (fuel : ℕ) (xs : List String)
      → 0 < length xs
      → length xs ≤ suc fuel
      → root sha256 xs ≡ get_or (top fuel xs) 0 ""
  unfolding root build_levels
  root-top fuel [] p h = absurd (omega arith)
  root-top fuel (x ∷ xs) p h =
      ap (λ (l : List String). get_or l 0 "")
        (top_enough (length (x ∷ xs)) fuel (x ∷ xs) (omega arith) h)

  -- However many leaves there are, the loop of `_build_levels` ends with a top level of exactly one
  -- node, and the root is that node.
  pub build_levels-single :
      (xs : List String) → last_or [] (build_levels sha256 xs) ≡ root sha256 xs ∷ []
  unfolding build_levels root
  build_levels-single [] = refl
  build_levels-single (x ∷ xs) =
      single (top (length (x ∷ xs)) (x ∷ xs))
        (length-top (length (x ∷ xs)) (x ∷ xs) (omega arith) (omega arith))
    where
      single : (l : List String) → length l ≡ 1 → l ≡ get_or l 0 "" ∷ []
      single [] h = absurd (omega arith)
      single (a ∷ []) h = refl
      single (a ∷ b ∷ l) h = absurd (omega arith)

  root-pad : (xs : List String) → 1 < length xs → root sha256 (pad xs) ≡ root sha256 xs
  root-pad xs h =
      rw
        (
          root-top (suc (length xs)) (pad xs) (omega (arith, length-pad xs))
              (omega (arith, length-pad xs)),
          root-top (suc (length xs)) xs (omega arith) (omega arith),
          top-suc (length xs) (pad xs),
          top-suc (length xs) xs,
          pad-pad xs,
        )
        (ground (arith, length-pad xs))

  -- Two different lists of hashes have one root: a list of odd length above 1, and the list that has
  -- its last hash once more at the end.
  pub root-repeated_last :
      (xs : List String) (last : String)
      → length xs % 2 ≡ 0
      → 0 < length xs
      → root sha256 (xs ++ last ∷ last ∷ []) ≡ root sha256 (xs ++ last ∷ [])
  unfolding pad
  root-repeated_last xs last even some_leaf =
      let odd = xs ++ last ∷ [] in
      let padded : pad odd ≡ xs ++ last ∷ last ∷ [] =
        ground
          (arith, length-append xs (last ∷ []), last_or-append last xs, append-append last xs) in
      ap (root sha256) (sym padded) ∙ root-pad odd (omega (arith, length-append xs (last ∷ [])))
