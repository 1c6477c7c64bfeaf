-- ===== src/Tests/Trees.antt =====
-- Examples for Merkle trees.
use Prim.Native.String.{◌++◌ as concat}
use hs_fob.Base.{
  ◌≡◌, refl, inl, inr, true, some, List, [], ◌∷◌, String, ◌==◌, string_eq, arith, last_or,
  if◌then◌else◌, Bool-cases,
}
use hs_fob.Base.Sets.{elem}
use hs_fob.Merkle.{
  MerkleProof, left, right, parents, pad, build_from, build_levels, root, proof, verify, fold_path,
}
use hs_fob.Merkle.Levels.{build_levels-single, root-repeated_last}
use hs_fob.Merkle.Inclusion.{verify-proof}
use hs_fob.Merkle.Digests.{
  IsDigest, AllDigests, NoCollision, no_collision-NoCollision, tree_texts, path_texts,
}
use hs_fob.Merkle.Binding.{root_binds}
use hs_fob.Merkle.Soundness.{verify_sound, verify-inner}

abbrev zeros : String
zeros = "0000000000000000000000000000000000000000000000000000000000000000"

abbrev ones : String
ones = "1111111111111111111111111111111111111111111111111111111111111111"

abbrev twos : String
twos = "2222222222222222222222222222222222222222222222222222222222222222"

-- a hash with three values
abbrev toy_hash : String → String
toy_hash s =
    if s == concat zeros ones then ones else if s == concat zeros zeros then twos else zeros

toy_hash-IsDigest : (s : String) → IsDigest (toy_hash s)
toy_hash-IsDigest s = elim (Bool-cases (s == concat zeros ones)) [
  | inl e ↦ rw e refl
  | inr e ↦ elim (Bool-cases (s == concat zeros zeros)) [
    | inl e' ↦ rw (e, e') refl
    | inr e' ↦ rw (e, e') refl
  ]
]

abbrev three : List String
three = zeros ∷ ones ∷ zeros ∷ []

three-AllDigests : AllDigests three
three-AllDigests = (refl, (refl, (refl, tt)))

three_apart : NoCollision toy_hash (tree_texts toy_hash three) (tree_texts toy_hash three)
unfolding pad parents
three_apart =
    no_collision-NoCollision toy_hash (tree_texts toy_hash three) (tree_texts toy_hash three) refl

root_binds_example : three ≡ three
root_binds_example =
    root_binds toy_hash toy_hash-IsDigest three three refl three-AllDigests three-AllDigests
      three_apart refl

verify-proof_example :
    (p : MerkleProof) × (proof (λ s. s) ("a" ∷ "b" ∷ "c" ∷ []) "c" ≡ some p)
    × (p.leaf_hash ≡ "c")
    × (verify (λ s. s) p (root (λ s. s) ("a" ∷ "b" ∷ "c" ∷ [])) ≡ true)
verify-proof_example = verify-proof (λ s. s) ("a" ∷ "b" ∷ "c" ∷ []) "c" refl

abbrev proof_of_last : MerkleProof
proof_of_last = record { leaf_hash = zeros; path = (zeros, right) ∷ (ones, left) ∷ [] }

last_apart :
    NoCollision toy_hash (path_texts toy_hash zeros proof_of_last.path) (tree_texts toy_hash three)
unfolding pad parents
last_apart =
    no_collision-NoCollision toy_hash (path_texts toy_hash zeros proof_of_last.path)
      (tree_texts toy_hash three) refl

verify_sound_example : elem zeros three ≡ true
unfolding verify fold_path root build_levels build_from parents pad
verify_sound_example =
    verify_sound toy_hash toy_hash-IsDigest three proof_of_last (omega arith) three-AllDigests refl
      refl last_apart refl

verify-inner_example :
    (p : MerkleProof) × (p.leaf_hash ≡ "ab")
    × (verify (λ s. s) p (root (λ s. s) ("a" ∷ "b" ∷ "c" ∷ [])) ≡ true)
unfolding parents pad
verify-inner_example = verify-inner (λ s. s) ("a" ∷ "b" ∷ "c" ∷ []) "ab" (omega arith) refl

build_levels-single_example :
    last_or [] (build_levels (λ s. s) ("a" ∷ "b" ∷ "c" ∷ []))
    ≡ root (λ s. s) ("a" ∷ "b" ∷ "c" ∷ []) ∷ []
build_levels-single_example = build_levels-single (λ s. s) ("a" ∷ "b" ∷ "c" ∷ [])

root-repeated_last_example :
    root (λ s. s) ("a" ∷ "b" ∷ "c" ∷ "c" ∷ []) ≡ root (λ s. s) ("a" ∷ "b" ∷ "c" ∷ [])
root-repeated_last_example = root-repeated_last (λ s. s) ("a" ∷ "b" ∷ []) "c" refl (omega arith)

root_three : root (λ s. s) ("a" ∷ "b" ∷ "c" ∷ []) ≡ "abcc"
unfolding root build_levels build_from parents pad
root_three = refl
