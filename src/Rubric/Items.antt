-- ===== src/Rubric/Items.antt =====
-- What `Rubric.verify_item` decides, and which rubrics there are (attestation/rubric.py).
use mathlib.Core.Option.{some-injective}
use hs_fob.Base.{
  ◌≡◌, refl, sym, ap, ℕ, zero, suc, Bool, true, false, Option, none, some, List, [], ◌∷◌, map,
  String, string_eq, ◌==◌, if◌then◌else◌, get_elem?, eq_iff, arith,
}
use hs_fob.Base.Int.{ℤ, pos, negsuc}
use hs_fob.Base.Sets.{elem}
use hs_fob.Merkle
use hs_fob.Merkle.{MerkleProof}
use hs_fob.Merkle.Inclusion.{verify-proof}
use hs_fob.Rubric.{Rubric, claim_at, leaves, root, proof, verify_item}

module _ (sha256 : String → String) where
  elem-leaf :
      (claims : List String) (n : ℕ) (c : String)
      → get_elem? claims n ≡ some c
      → elem (sha256 c) (map sha256 claims) ≡ true
  elem-leaf [] n c e = absurd (cc)
  elem-leaf (x ∷ claims) zero c e =
      let same : sha256 c ≡ sha256 x = ap sha256 (sym (some-injective _ _ e)) in
      rw ((eq_iff (sha256 c) (sha256 x)).1 same) refl
  elem-leaf (x ∷ claims) (suc n) c e = ground (arith, elem-leaf claims n c e)

  elem-claim_at :
      (claims : List String) (item_index : ℤ) (c : String)
      → claim_at claims item_index ≡ some c
      → elem (sha256 c) (map sha256 claims) ≡ true
  elem-claim_at claims (pos n) c e = elem-leaf claims n c e
  elem-claim_at claims (negsuc n) c e = absurd (cc)

  -- Against the rubric's own root, `verify_item` accepts a text for an index exactly when the index is in range
  -- and the text has the digest of the claim there.
  pub verify_item-root :
      (r : Rubric) (item_index : ℤ) (claim : String)
      → verify_item sha256 r item_index claim (root sha256 r)
        ≡ elim (claim_at r.claims item_index) [ none ↦ false | some c ↦ sha256 claim == sha256 c ]
  unfolding verify_item proof root
  verify_item-root r item_index claim = of (claim_at r.claims item_index) refl
    where
      found :
          (c : String) (o : Option MerkleProof) (pr : MerkleProof)
          → o ≡ some pr
          → pr.leaf_hash ≡ sha256 c
          → Merkle.verify sha256 pr (Merkle.root sha256 (leaves sha256 r)) ≡ true
          → elim o [
            | none ↦ false
            | some pr ↦
                if sha256 claim == pr.leaf_hash
                then Merkle.verify sha256 pr (Merkle.root sha256 (leaves sha256 r))
                else false
          ]
            ≡ (sha256 claim == sha256 c)
      found c none pr e leaf good = absurd (cc)
      found c (some x) pr e leaf good =
          let same : x ≡ pr = some-injective _ _ e in
          rw (same, good, leaf) (decided (sha256 claim == sha256 c))
        where
          decided : (z : Bool) → (if z then true else false) ≡ z
          decided true = refl
          decided false = refl

      of :
          (o : Option String)
          → claim_at r.claims item_index ≡ o
          → elim (elim o as (λ x. Option MerkleProof) [
            | none ↦ none
            | some c ↦ Merkle.proof sha256 (leaves sha256 r) (sha256 c)
          ]) [
            | none ↦ false
            | some pr ↦
                if sha256 claim == pr.leaf_hash
                then Merkle.verify sha256 pr (Merkle.root sha256 (leaves sha256 r))
                else false
          ]
            ≡ elim o [ none ↦ false | some c ↦ sha256 claim == sha256 c ]
      of none e = refl
      of (some c) e =
          let (pr, is, leaf, good) =
            verify-proof sha256 (leaves sha256 r) (sha256 c)
              (elem-claim_at r.claims item_index c e) in
          found c (Merkle.proof sha256 (leaves sha256 r) (sha256 c)) pr is leaf good
