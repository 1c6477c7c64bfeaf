-- ===== src/Merkle/Inclusion.antt =====
-- Inclusion proofs (blockchain/merkle.py, `MerkleTree.proof` and `verify`): every leaf of a tree has
-- a proof, and the proof verifies against the root.
use hs_fob.Base.{
  ℕ, zero, suc, ◌+◌, ◌*◌, ◌/◌, ◌%◌, ◌-◌, ◌≤◌, ◌<◌, ◌≡◌, refl, inl, inr, true, false, List, [], ◌∷◌,
  String, arith, length, get_or, ◌==◌, nat_eq, string_eq, leb, none, some, Bool-cases, eq_iff,
  ==-refl,
}
use hs_fob.Base.Sets.{elem}
use hs_fob.Merkle.{
  Side, left, right, MerkleProof, index_of, pad, parents, hash_pair, build_from, build_levels, root,
  proof_step, path_from, proof, fold_path, verify,
}
use hs_fob.Merkle.Levels.{length-pad, get_or-pad, up, length-up, top, last_or-build_from, root-top}

index_of-elem :
    (x : String) (xs : List String)
    → elem x xs ≡ true
    → (i : ℕ) × (index_of x xs ≡ some i) × (i < length xs) × (get_or xs i "" ≡ x)
unfolding index_of
index_of-elem x [] h = absurd (ground (arith, h))
index_of-elem x (y ∷ ys) h = elim (Bool-cases (y == x)) [
  | inl same ↦ (0, rw same, omega arith, (eq_iff y x).0 same)
  | inr other ↦
      let (i, found, inside, here) =
        index_of-elem x ys (ground (arith, h, eq_iff x y, eq_iff y x)) in
      (suc i, rw (other, found), omega arith, here)
]

index_of-not-elem : (x : String) (xs : List String) → elem x xs ≡ false → index_of x xs ≡ none
unfolding index_of
index_of-not-elem x [] h = refl
index_of-not-elem x (y ∷ ys) h = ground (arith, eq_iff x y, eq_iff y x, index_of-not-elem x ys)

module _ (sha256 : String → String) where
  get_or-parents :
      (xs : List String) (j : ℕ)
      → 2 * j + 1 < length xs
      → get_or (parents sha256 xs) j ""
        ≡ hash_pair sha256 (get_or xs (2 * j) "") (get_or xs (2 * j + 1) "")
  unfolding parents
  get_or-parents [] j h = absurd (omega arith)
  get_or-parents (x ∷ []) j h = absurd (omega arith)
  get_or-parents (x ∷ y ∷ rest) zero h = refl
  get_or-parents (x ∷ y ∷ rest) (suc j) h =
      let odd : 2 * suc j + 1 ≡ suc (suc (2 * j + 1)) = omega arith in
      let even : 2 * suc j ≡ suc (suc (2 * j)) = omega arith in
      rw (odd, even) (get_or-parents rest j (omega arith))

  proof_step-even :
      (xs : List String) (i : ℕ)
      → (i % 2 == 0) ≡ true
      → proof_step sha256 xs i ≡ (get_or (pad xs) (i + 1) "", right)
  unfolding proof_step
  proof_step-even xs i h = rw h

  proof_step-odd :
      (xs : List String) (i : ℕ)
      → (i % 2 == 0) ≡ false
      → proof_step sha256 xs i ≡ (get_or (pad xs) (i - 1) "", left)
  unfolding proof_step
  proof_step-odd xs i h = rw h

  -- One step of a proof lifts a node of a level to its parent.
  step_up :
      (xs : List String) (i : ℕ) (path : List (String × Side))
      → i < length xs
      → fold_path sha256 (get_or xs i "") (proof_step sha256 xs i ∷ path)
        ≡ fold_path sha256 (get_or (up sha256 xs) (i / 2) "") path
  unfolding fold_path
  step_up xs i path h = elim (Bool-cases (i % 2 == 0)) [
    | inl even ↦
        let e : 2 * (i / 2) ≡ i = ground arith in
        rw (
          proof_step-even xs i even,
          get_or-parents (pad xs) (i / 2) (omega (arith, length-pad xs, e)),
          e,
          get_or-pad xs i "" h,
        )
    | inr odd ↦
        let e : 2 * (i / 2) ≡ i - 1 = ground arith in
        let e' : i - 1 + 1 ≡ i = ground arith in
        rw (
          proof_step-odd xs i odd,
          get_or-parents (pad xs) (i / 2) (ground (arith, length-pad xs, e)),
          e,
          e',
          get_or-pad xs i "" h,
        )
  ]

  path_from-cons :
      (fuel : ℕ) (xs ys : List String) (i : ℕ)
      → path_from sha256 (xs ∷ build_from sha256 fuel ys) i
        ≡ proof_step sha256 xs i ∷ path_from sha256 (build_from sha256 fuel ys) (i / 2)
  unfolding build_from path_from
  path_from-cons zero xs ys i = refl
  path_from-cons (suc fuel) xs ys i = ground arith

  -- Following the path of a node leads to the top.
  path_from-top :
      (fuel : ℕ) (xs : List String) (i : ℕ)
      → i < length xs
      → length xs ≤ suc fuel
      → fold_path sha256 (get_or xs i "") (path_from sha256 (build_from sha256 fuel xs) i)
        ≡ some (get_or (top sha256 fuel xs) 0 "")
  unfolding build_from path_from fold_path
  path_from-top zero xs i p h = let e : i ≡ 0 = omega arith in rw e
  path_from-top (suc fuel) xs i p h = elim (Bool-cases (leb (length xs) 1)) [
    | inl single ↦ let e : i ≡ 0 = ground arith in rw (single, e)
    | inr more ↦
        rw
          (
            more,
            path_from-cons fuel xs (up sha256 xs) i,
            step_up xs i (path_from sha256 (build_from sha256 fuel (up sha256 xs)) (i / 2)) p,
            last_or-build_from sha256 xs [] fuel (up sha256 xs),
          )
          (path_from-top fuel (up sha256 xs) (i / 2) (omega (arith, length-up sha256 xs))
            (ground (arith, length-up sha256 xs)))
  ]

  pub build_levels-cons :
      (xs : List String) → 0 < length xs → build_levels sha256 xs ≡ build_from sha256 (length xs) xs
  unfolding build_levels
  build_levels-cons [] h = absurd (omega arith)
  build_levels-cons (x ∷ xs) h = refl

  path_from-root :
      (leaves : List String) (leaf : String) (i : ℕ)
      → i < length leaves
      → get_or leaves i "" ≡ leaf
      → fold_path sha256 leaf (path_from sha256 (build_levels sha256 leaves) i)
        ≡ some (root sha256 leaves)
  path_from-root leaves leaf i inside here =
      rw
        (
          build_levels-cons leaves (omega arith),
          root-top sha256 (length leaves) leaves (omega arith) (omega arith),
          ← here,
        )
        (path_from-top (length leaves) leaves i inside (omega arith))

  -- Every leaf of a tree has an inclusion proof. It is about that leaf, and it verifies against the
  -- root of the tree.
  pub verify-proof :
      (leaves : List String) (leaf : String)
      → elem leaf leaves ≡ true
      → (p : MerkleProof) × (proof sha256 leaves leaf ≡ some p)
        × (p.leaf_hash ≡ leaf)
        × (verify sha256 p (root sha256 leaves) ≡ true)
  unfolding proof verify
  verify-proof leaves leaf h =
      let (i, found, inside, here) = index_of-elem leaf leaves h in
      (
        record { leaf_hash = leaf; path = path_from sha256 (build_levels sha256 leaves) i },
        rw (found, proof),
        refl,
        rw (path_from-root leaves leaf i inside here, verify) (==-refl (root sha256 leaves)),
      )

  -- A hash that is no leaf has no proof: that is the ValueError.
  pub proof-absent :
      (leaves : List String) (leaf : String)
      → elem leaf leaves ≡ false
      → proof sha256 leaves leaf ≡ none
  unfolding proof
  proof-absent leaves leaf h = rw (index_of-not-elem leaf leaves h, proof)
