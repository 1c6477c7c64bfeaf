-- ===== src/Derive.antt =====
-- reputation/derive.py, `derive_registry`: reputation as a function of a prefix of the chain. `none` is
-- a certificate on the chain whose subject or domain is missing or no text: there the source raises,
-- or stores a weight under a key that no text finds.
pub mod Authority
pub mod Prefix
use hs_fob.Base.{
  ℕ, Bool, true, false, Option, none, some, List, [], ◌∷◌, String, string_eq, ◌==◌, if◌then◌else◌,
  leb, take,
}
use hs_fob.Base.Int.{ℤ, pos, min_ℤ}
use hs_fob.Values.{Value, str, dict, Fields, get_field, equals_str, field_is, text_at, int_at}
use hs_fob.Crypto.{Platform}
use hs_fob.Transaction.{Transaction}
use hs_fob.Block.{Block}
use hs_fob.Registry.{
  Weights, ReputationRegistry, new_registry, credit, debit, authorities_in_domain,
}
use hs_fob.Slashing.{slash_type, max_slash, validate_slash}

-- `CONSENSUS_DOMAIN`, `AUTHORITY_THRESHOLD`, `CERTIFICATE_REWARD`, `_CERTIFICATE_TYPE`
abbrev pub consensus_domain : String
consensus_domain = "consensus"

abbrev pub authority_threshold : ℤ
authority_threshold = pos 50

abbrev pub certificate_reward : ℤ
certificate_reward = pos 10

abbrev pub certificate_type : String
certificate_type = "certificate"

-- `_consensus_validators`, and `Blockchain._consensus_authorities`
unfoldable pub consensus_validators : ReputationRegistry → List String
consensus_validators r = authorities_in_domain r consensus_domain authority_threshold

-- `registry.credit(payload["subject"], payload["domain"], CERTIFICATE_REWARD)`
unfoldable pub credit_certificate :
    ReputationRegistry → Option Value → Option Value → Option ReputationRegistry
credit_certificate r (some (str subject)) (some (str domain)) =
    some (credit r subject domain certificate_reward)
credit_certificate r _ _ = none

module _ (p : Platform) where
  -- `_apply_transaction`, on a payload that is a dict
  unfoldable pub apply_fields :
      ReputationRegistry → Fields → List Block → List String → Option ReputationRegistry
  unfolding credit_certificate
  apply_fields r fs prefix validators =
      if field_is (equals_str certificate_type) "type" fs
      then credit_certificate r (get_field "subject" fs) (get_field "domain" fs)
      else if field_is (equals_str slash_type) "type" fs
      then (if validate_slash p (dict fs) prefix validators
          then some (
              debit r (text_at "offender" fs) (text_at "domain" fs)
                (min_ℤ (int_at "amount" fs) max_slash))
          else some r)
      else some r

  -- `_apply_transaction`
  unfoldable pub apply_transaction :
      ReputationRegistry → Transaction → List Block → List String → Option ReputationRegistry
  unfolding apply_fields
  apply_transaction r tx prefix validators = elim tx.payload [
    | dict fs ↦ apply_fields r fs prefix validators
    | _ ↦ some r
  ]

  -- the inner loop over a block's transactions
  unfoldable pub apply_block :
      ReputationRegistry → List Transaction → List Block → List String → Option ReputationRegistry
  unfolding apply_transaction
  apply_block r [] prefix validators = some r
  apply_block r (tx ∷ txs) prefix validators = elim (apply_transaction r tx prefix validators) [
    | none ↦ none
    | some r' ↦ apply_block r' txs prefix validators
  ]

  -- the outer loop, over the blocks that are left of `chain`
  unfoldable pub replay :
      List Block → ℕ → ReputationRegistry → List Block → Option ReputationRegistry
  unfolding apply_block consensus_validators
  replay chain limit r [] = some r
  replay chain limit r (b ∷ blocks) =
      if leb limit b.index
      then some r
      else elim (apply_block r b.transactions (take b.index chain) (consensus_validators r)) [
        | none ↦ none
        | some r' ↦ replay chain limit r' blocks
      ]

  -- `derive_registry`
  unfoldable pub derive_registry : List Block → ℕ → Weights → Option ReputationRegistry
  unfolding replay
  derive_registry chain upto_index genesis = replay chain upto_index (new_registry genesis) chain
