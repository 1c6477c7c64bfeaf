-- ===== src/Rubric.antt =====
-- attestation/rubric.py: an ordered list of claims under one Merkle root. Items are numbered by integers,
-- and below 0 there is none.
pub mod Items
use hs_fob.Base.{
  ℕ, zero, suc, Bool, true, false, Option, none, some, List, [], ◌∷◌, ◌++◌, map, String, string_eq,
  ◌==◌, if◌then◌else◌, length, get_elem?, all,
}
use hs_fob.Base.Int.{ℤ, pos, negsuc, int_eq}
use hs_fob.Base.Sets.{to_set}
use hs_fob.Base.Order.{sorted, int_ord}
use hs_fob.Merkle
use hs_fob.Merkle.{MerkleProof}

-- `Rubric`; the leaves and the tree are computed from the claims
pub record Rubric : Type 0 where
  pub claims : List String
  pub required_items : List ℤ

-- `list(range(n))`
abbrev pub range : ℕ → List ℤ
range zero = []
range (suc n) = range n ++ pos n ∷ []

-- the claim at an index that is in range
abbrev pub claim_at : List String → ℤ → Option String
claim_at claims (pos n) = get_elem? claims n
claim_at claims (negsuc n) = none

-- `0 <= idx < len(claims)`
abbrev pub in_range : List String → ℤ → Bool
in_range claims idx = elim (claim_at claims idx) [ none ↦ false | some _ ↦ true ]

-- `__init__`; `none` is the IndexError
unfoldable pub new_rubric : List String → Option (List ℤ) → Option Rubric
new_rubric claims none = some (record { claims = claims; required_items = range (length claims) })
new_rubric claims (some items) =
    let required = sorted (to_set items) in
    if all (in_range claims) required
    then some (record { claims = claims; required_items = required })
    else none

module _ (sha256 : String → String) where
  -- `_leaves`, by their hashes
  abbrev pub leaves : Rubric → List String
  leaves r = map sha256 r.claims

  -- `root`
  unfoldable pub root : Rubric → String
  root r = Merkle.root sha256 (leaves r)

  -- `proof`; `none` is the IndexError
  unfoldable pub proof : Rubric → ℤ → Option MerkleProof
  proof r item_index = elim (claim_at r.claims item_index) [
    | none ↦ none
    | some c ↦ Merkle.proof sha256 (leaves r) (sha256 c)
  ]

  -- `verify_item`; the leaf at an index that is in range always has a proof
  unfoldable pub verify_item : Rubric → ℤ → String → String → Bool
  unfolding proof
  verify_item r item_index claim r_root = elim (proof r item_index) [
    | none ↦ false
    | some found ↦
        if sha256 claim == found.leaf_hash then Merkle.verify sha256 found r_root else false
  ]
