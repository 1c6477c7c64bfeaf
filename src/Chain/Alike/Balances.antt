-- ===== src/Chain/Alike/Balances.antt =====
-- The balances of chains that differ in their votes alone (reputation/derive.py, `derive_balances`).
use hs_fob.Base.{
  ℕ, ◌≡◌, refl, ap, ◌∙◌, Bool, true, false, false, Option, none, some, List, [], ◌∷◌, String,
  string_eq, if◌then◌else◌, arith, leb, take,
}
use hs_fob.Values.{Value, null, bool, int, float, str, list, dict, Fields}
use hs_fob.Crypto.{Platform}
use hs_fob.Transaction.{Transaction}
use hs_fob.Block.{Block}
use hs_fob.Registry.{Weights, ReputationRegistry}
use hs_fob.Derive.{derive_registry, consensus_validators}
use hs_fob.Base.Int.{ℤ}
use hs_fob.Base.Dict.{Dict}
use hs_fob.Attestation.{is_attestation}
use hs_fob.Balances.{new_ledger}
use hs_fob.Economy.{
  Economy, settle_fields, settle, settle_all, settle_blocks, post_bond, derive_balances,
  default_endowment,
}
use hs_fob.Chain.Alike.{
  AreAlike, take-AreAlike, bind_same, validate_slash-alike, derive_registry-alike,
}

module _ (p : Platform) (xs ys : List Block) (alike : AreAlike xs ys) where
  settle_fields-alike :
      (o : Option ReputationRegistry) (us vs : List Block) (s : Economy) (fs : Fields)
      → AreAlike us vs
      → settle_fields p o us s fs ≡ settle_fields p o vs s fs
  unfolding settle_fields
  settle_fields-alike none us vs s fs h = refl
  settle_fields-alike (some r) us vs s fs h =
      ground (arith, validate_slash-alike p (dict fs) us vs (consensus_validators r) h)

  settle_all-alike :
      (o : Option ReputationRegistry) (us vs : List Block) (s : Economy) (txs : List Transaction)
      → AreAlike us vs
      → settle_all p o us s txs ≡ settle_all p o vs s txs
  unfolding settle_all settle
  settle_all-alike o us vs s [] h = refl
  settle_all-alike o us vs s (tx ∷ txs) h =
      bind_same (λ s'. settle_all p o us s' txs) (λ s'. settle_all p o vs s' txs)
        (of (is_attestation tx) tx.payload) (λ s'. settle_all-alike o us vs s' txs h)
    where
      branches : List Block → Bool → Value → Option Economy
      branches l z v =
          if z
          then some (post_bond p s tx)
          else elim v as (λ x. Option Economy) [ dict fs ↦ settle_fields p o l s fs | _ ↦ some s ]

      of : (z : Bool) (v : Value) → branches us z v ≡ branches vs z v
      of true v = refl
      of false (dict fs) = settle_fields-alike o us vs s fs h
      of false null = refl
      of false (bool _) = refl
      of false (int _) = refl
      of false (float _) = refl
      of false (str _) = refl
      of false (list _) = refl

  settle_blocks-alike :
      (genesis : Weights) (limit : ℕ) (s : Economy) (us vs : List Block)
      → AreAlike us vs
      → settle_blocks p xs genesis limit s us ≡ settle_blocks p ys genesis limit s vs
  unfolding settle_blocks
  settle_blocks-alike genesis limit s [] [] h = refl
  settle_blocks-alike genesis limit s [] (v ∷ vs) h = absurd h
  settle_blocks-alike genesis limit s (u ∷ us) [] h = absurd h
  settle_blocks-alike genesis limit s (u ∷ us) (v ∷ vs) (i, t, h) =
      ap (λ (k : ℕ). round k u.transactions) i
      ∙ ap (round v.index) t
      ∙ ap (λ (o : Option Economy). if leb limit v.index then some s else o)
          (bind_same (λ s'. settle_blocks p xs genesis limit s' us)
            (λ s'. settle_blocks p ys genesis limit s' vs)
            (settle_all-alike (derive_registry p xs v.index genesis) (take v.index xs)
                (take v.index ys) s v.transactions (take-AreAlike v.index xs ys alike)
              ∙ ap
                  (λ (o : Option ReputationRegistry).
                    settle_all p o (take v.index ys) s v.transactions)
                  (derive_registry-alike p xs ys alike v.index genesis))
            (λ s'. settle_blocks-alike genesis limit s' us vs h))
    where
      round : ℕ → List Transaction → Option Economy
      round k txs =
          if leb limit k
          then some s
          else elim (settle_all p (derive_registry p xs k genesis) (take k xs) s txs)
              as (λ x. Option Economy) [
                | none ↦ none
                | some s' ↦ settle_blocks p xs genesis limit s' us
              ]

  -- Chains of the same length whose blocks agree, one by one, in position and transactions derive the same
  -- balances and open bonds for each height, whatever votes the blocks carry.
  pub derive_balances-alike :
      (upto_index : ℕ) (endowments : Dict String ℤ) (genesis : Weights)
      → derive_balances p xs upto_index endowments genesis
        ≡ derive_balances p ys upto_index endowments genesis
  unfolding derive_balances
  derive_balances-alike upto_index endowments genesis =
      settle_blocks-alike genesis upto_index
        (record { ledger = new_ledger endowments default_endowment; open_bonds = [] }) xs ys alike
