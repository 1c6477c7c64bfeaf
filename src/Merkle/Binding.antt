-- ===== src/Merkle/Binding.antt =====
-- What a Merkle root commits to (blockchain/merkle.py): equal roots of equally many leaves come from
-- equal leaves, as far as SHA-256 tells the texts of the two trees apart.
use mathlib.Core.Path.{subst}
use Prim.Native.String.{◌++◌ as concat}
use hs_fob.Base.{
  ℕ, zero, suc, ◌+◌, ◌/◌, ◌%◌, ◌≤◌, ◌<◌, ◌≡◌, refl, inl, inr, List, [], ◌∷◌, String, arith, length,
  get_or, nat_eq, string_eq, leb, ap, ◌∙◌, sym, Bool-cases, eq_iff,
}
use hs_fob.Merkle.Digests.{
  IsDigest, AllDigests, NoCollision, level_text, upper_text, split_concat, texts_from, tree_texts,
  pair_texts, pad_inj, pad-AllDigests, top-single, top-more, parents-AllDigests,
}
use hs_fob.Merkle.{pad, parents, build_from, root}
use hs_fob.Merkle.Levels.{length-pad, up, length-up, top, root-top}

single_eq :
    (xs ys : List String)
    → 0 < length xs
    → length xs ≤ 1
    → length xs ≡ length ys
    → get_or xs 0 "" ≡ get_or ys 0 ""
    → xs ≡ ys
single_eq [] ys p h n e = absurd (omega arith)
single_eq (x ∷ x' ∷ xs) ys p h n e = absurd (omega arith)
single_eq (x ∷ []) [] p h n e = absurd (omega arith)
single_eq (x ∷ []) (y ∷ []) p h n e = cc
single_eq (x ∷ []) (y ∷ y' ∷ ys) p h n e = absurd (omega arith)

module _ (sha256 : String → String) where
  parents_inj :
      (xs ys : List String)
      → length xs ≡ length ys
      → length xs % 2 ≡ 0
      → AllDigests xs
      → AllDigests ys
      → NoCollision sha256 (pair_texts xs) (pair_texts ys)
      → parents sha256 xs ≡ parents sha256 ys
      → xs ≡ ys
  unfolding parents
  parents_inj [] [] n ev dx dy apart e = refl
  parents_inj [] (y ∷ ys) n ev dx dy apart e = absurd (omega arith)
  parents_inj (x ∷ []) ys n ev dx dy apart e = absurd (omega arith)
  parents_inj (x ∷ x' ∷ xs) [] n ev dx dy apart e = absurd (omega arith)
  parents_inj (x ∷ x' ∷ xs) (y ∷ []) n ev dx dy apart e = absurd (omega arith)
  parents_inj (x ∷ x' ∷ xs) (y ∷ y' ∷ ys) n ev dx dy apart e =
      let same =
        apart (concat x x') (concat y y') (ground (arith, eq_iff (concat x x') (concat x x')))
          (ground (arith, eq_iff (concat y y') (concat y y'))) (cc) in
      let heads = split_concat x x' y y' (dx.0 ∙ sym dy.0) same in
      let tails =
        parents_inj xs ys (omega arith) (omega arith) dx.1.1 dy.1.1
          (λ a b ha hb. apart a b (ground (arith, ha)) (ground (arith, hb))) (cc) in
      cc (heads.0, heads.1, tails)

module _ (sha256 : String → String) (fixed : (s : String) → IsDigest (sha256 s)) where
  -- Two levels of one width with equal tops are equal.
  top_inj :
      (fuel : ℕ) (xs ys : List String)
      → 0 < length xs
      → length xs ≤ suc fuel
      → length xs ≡ length ys
      → AllDigests xs
      → AllDigests ys
      → NoCollision sha256 (texts_from sha256 fuel xs) (texts_from sha256 fuel ys)
      → get_or (top sha256 fuel xs) 0 "" ≡ get_or (top sha256 fuel ys) 0 ""
      → xs ≡ ys
  unfolding build_from
  top_inj zero xs ys p h n dx dy apart e = single_eq xs ys p h n e
  top_inj (suc fuel) xs ys p h n dx dy apart e = elim (Bool-cases (leb (length xs) 1)) [
    | inl single ↦ single_eq xs ys p (ground arith) n (
        sym (top-single sha256 fuel xs (ground arith))
        ∙ e
        ∙ top-single sha256 fuel ys (ground arith))
    | inr more ↦
        let mx : 1 < length xs = ground arith in
        let my : 1 < length ys = omega arith in
        let level =
          top_inj fuel (up sha256 xs) (up sha256 ys) (ground (arith, length-up sha256 xs))
            (omega (arith, length-up sha256 xs))
            (length-up sha256 xs ∙ ap (λ (k : ℕ). (k + 1) / 2) n ∙ sym (length-up sha256 ys))
            (parents-AllDigests sha256 fixed (pad xs)) (parents-AllDigests sha256 fixed (pad ys))
            (λ a b ha hb.
              apart a b (upper_text sha256 fuel xs a mx ha) (upper_text sha256 fuel ys b my hb))
            (sym (top-more sha256 fuel xs (ground arith))
              ∙ e
              ∙ top-more sha256 fuel ys (ground arith)) in
        pad_inj xs ys n (
          parents_inj sha256 (pad xs) (pad ys)
            (omega (arith, length-pad xs, length-pad ys, n, ap (λ (k : ℕ). k % 2) n))
            (omega (arith, length-pad xs)) (pad-AllDigests xs p dx)
            (pad-AllDigests ys (omega arith) dy)
            (λ a b ha hb.
              apart a b (level_text sha256 fuel xs a mx ha) (level_text sha256 fuel ys b my hb))
            level)
  ]

  -- The Merkle root commits to the transactions. If every digest has 64 characters, two lists of
  -- equally many digests with one root are the same digests in the same order, as long as the hash
  -- tells the texts apart that are hashed to build the one tree and the other.
  pub root_binds :
      (xs ys : List String)
      → length xs ≡ length ys
      → AllDigests xs
      → AllDigests ys
      → NoCollision sha256 (tree_texts sha256 xs) (tree_texts sha256 ys)
      → root sha256 xs ≡ root sha256 ys
      → xs ≡ ys
  root_binds [] [] n dx dy apart e = refl
  root_binds [] (y ∷ ys) n dx dy apart e = absurd (omega arith)
  root_binds (x ∷ xs) ys n dx dy apart e =
      top_inj (length (x ∷ xs)) (x ∷ xs) ys (omega arith) (omega arith) n dx dy
        (subst (λ k. NoCollision sha256 (tree_texts sha256 (x ∷ xs)) (texts_from sha256 k ys))
          (sym n) apart)
        (sym (root-top sha256 (length (x ∷ xs)) (x ∷ xs) (omega arith) (omega arith))
          ∙ e
          ∙ root-top sha256 (length (x ∷ xs)) ys (omega arith) (omega arith))
