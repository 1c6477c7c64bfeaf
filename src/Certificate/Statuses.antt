-- ===== src/Certificate/Statuses.antt =====
-- attestation/aggregator.py, `certificate_statuses`: which committed certificates a later slash
-- contests. `none` is an exception that the source raises.
use hs_fob.Base.{
  ℕ, Bool, true, false, ◌&&◌, Option, none, some, List, [], ◌∷◌, ◌++◌, String, string_eq, ltb, any,
  take, if◌then◌else◌,
}
use hs_fob.Base.Dict.{Dict, insert}
use hs_fob.Base.Sets.{add, elem}
use hs_fob.Base.Errors.{◌>>=◌}
use hs_fob.Values.{Value, str, list, dict, Fields, field_is, equals_str, text_at, to_list}
use hs_fob.Crypto.{Platform}
use hs_fob.Transaction
use hs_fob.Transaction.{Transaction}
use hs_fob.Attestation.{is_attestation, fields}
use hs_fob.Block.{Block}
use hs_fob.Registry.{Weights}
use hs_fob.Slashing.{slash_type, validate_slash, find_tx, evidence_at}
use hs_fob.Derive.{certificate_type, derive_registry, consensus_validators}
use hs_fob.Credentials.Verify.{get, hashed, holds}

-- `CERTIFICATE_VALID`, `CERTIFICATE_CONTESTED`
abbrev pub certificate_valid : String
certificate_valid = "valid"

abbrev pub certificate_contested : String
certificate_contested = "contested"

-- an entry of `slashes`
pub record Slashed : Type 0 where
  pub index : ℕ
  pub offender : String
  pub submissions : List String

module _ (p : Platform) (chain : List Block) (genesis : Weights) where
  -- one round of the loop of `_evidence_submissions`
  abbrev pub with_evidence : String → List String → List String
  with_evidence tx_hash submissions = elim (find_tx p chain tx_hash) [
    | none ↦ submissions
    | some tx ↦
        if is_attestation tx
        then add (text_at "submission_tx_hash" (fields tx)) submissions
        else submissions
  ]

  -- `_evidence_submissions` of a slash that has been validated: its evidence is two hashes.
  unfoldable pub evidence_submissions : Fields → List String
  evidence_submissions fs = let (e0, e1) = evidence_at fs in with_evidence e1 (with_evidence e0 [])

  -- the genuine slashes among a block's transactions
  unfoldable pub block_slashes : ℕ → List String → List Transaction → List Slashed
  block_slashes index validators [] = []
  block_slashes index validators (tx ∷ txs) =
      let rest = block_slashes index validators txs in
      if validate_slash p tx.payload (take index chain) validators
      then record {
        index = index;
        offender = text_at "offender" (fields tx);
        submissions = evidence_submissions (fields tx);
      }
        ∷ rest
      else rest

  abbrev pub has_slash : Block → Bool
  has_slash b =
      any (λ (tx : Transaction). field_is (equals_str slash_type) "type" (fields tx)) b.transactions

  -- the genuine slashes of a block, whose validators are derived only if it has a slash
  unfoldable pub slashes_of : Block → Option (List Slashed)
  slashes_of b = elim (has_slash b) [
    | false ↦ some []
    | true ↦ do
      registry ← derive_registry p chain b.index genesis
      some (block_slashes b.index (consensus_validators registry) b.transactions)
  ]

  -- the first pass, over the blocks that are left
  unfoldable pub collect_slashes : List Block → Option (List Slashed)
  collect_slashes [] = some []
  collect_slashes (b ∷ blocks) = do
    here ← slashes_of b
    rest ← collect_slashes blocks
    some (here ++ rest)

  -- `submission_tx_hash in submissions`; `none` is the TypeError of a value that has no hash
  abbrev pub member : Value → List String → Option Bool
  member (str s) submissions = some (elem s submissions)
  member (list vs) submissions = none
  member (dict fs) submissions = none
  member _ submissions = some false

  -- `set(granted_by) if isinstance(granted_by, list) else set()`
  abbrev pub granted : Fields → Option (List Value)
  granted fs = elim (get "granted_by" fs) [ list vs ↦ hashed (to_list vs) | _ ↦ some [] ]

  -- the test of `any(…)`
  unfoldable pub is_contested : ℕ → List Value → Value → List Slashed → Option Bool
  is_contested index names submission [] = some false
  is_contested index names submission (s ∷ ss) =
      let rest = is_contested index names submission ss in
      if ltb index s.index && holds s.offender names
      then elim (member submission s.submissions) [
        | none ↦ none
        | some true ↦ some true
        | some false ↦ rest
      ]
      else rest

  -- the status of one certificate
  unfoldable pub status_of : List Slashed → ℕ → Fields → Option String
  status_of slashes index fs = do
    names ← granted fs
    contested ← is_contested index names (get "submission_tx_hash" fs) slashes
    some (if contested then certificate_contested else certificate_valid)

  unfoldable pub block_statuses :
      List Slashed → ℕ → List Transaction → Dict String String → Option (Dict String String)
  block_statuses slashes index [] statuses = some statuses
  block_statuses slashes index (tx ∷ txs) statuses =
      elim (field_is (equals_str certificate_type) "type" (fields tx)) [
        | false ↦ block_statuses slashes index txs statuses
        | true ↦ do
          status ← status_of slashes index (fields tx)
          block_statuses slashes index txs (insert (Transaction.hash p tx) status statuses)
      ]

  -- the second pass
  unfoldable pub all_statuses :
      List Slashed → List Block → Dict String String → Option (Dict String String)
  all_statuses slashes [] statuses = some statuses
  all_statuses slashes (b ∷ blocks) statuses = do
    next ← block_statuses slashes b.index b.transactions statuses
    all_statuses slashes blocks next

  -- `certificate_statuses`
  unfoldable pub certificate_statuses : Option (Dict String String)
  certificate_statuses = do slashes ← collect_slashes chain; all_statuses slashes chain []
