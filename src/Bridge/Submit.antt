-- ===== src/Bridge/Submit.antt =====
-- network/http_bridge.py, the writing routes: `submit_transaction` and `produce_block`. The body of a
-- request is taken as network/wire.py decodes it, `none` for a body that is no object or that it
-- refuses. `none` of a route is an exception. A reply keeps what its JSON is made of.
use hs_fob.Base.{ℕ, Option, none, some, List, [], ◌∷◌, String, if◌then◌else◌}
use hs_fob.Base.Int.{ℤ, pos}
use hs_fob.Values.{Value, null}
use hs_fob.Transaction.{Transaction}
use hs_fob.Attestation.{is_attestation}
use hs_fob.Block.{Block}
use hs_fob.Chain.{add_transaction, last_block}
use hs_fob.Community.{AttestationCommunity, already_seen}
use hs_fob.Community.Admission.{
  Admission, admitted, fails, unsigned_attestation, credential_rejected, unfunded,
  unsigned_submission, not_participant, transaction_rejection, broadcast_transaction,
}
use hs_fob.Community.Handlers.{mine_and_broadcast_block}
use hs_fob.Credentials.Verify.{Office, get, as_dict}
use hs_fob.Credentials.Challenges.{Store, consume}

-- A node, and the challenges that it has handed out
pub record Bridge : Type 0 where
  pub community : AttestationCommunity
  pub challenges : Store

pub data Reply : Type 0 where
  malformed : Reply
  rejected : Admission → Reply
  stale_challenge : Reply
  already_known : Transaction → Reply
  pooled : Transaction → ℕ → Reply
  no_transactions : Reply
  produced : Block → ℕ → Reply

-- The HTTP status of a reply
abbrev pub status : Reply → ℕ
status malformed = 400
status (rejected a) = 400
status stale_challenge = 400
status (already_known tx) = 200
status (pooled tx n) = 201
status no_transactions = 200
status (produced b n) = 201

-- `presentation.get("challenge")`, for a presentation that has been accepted
abbrev pub challenge_in : Value → Value
challenge_in presentation = elim (as_dict presentation) [
  | none ↦ null
  | some fs ↦ get "challenge" fs
]

module _ (o : Office) (trusted_issuer_dids : List String) where
  -- `submit_transaction` once the transaction is admissible and its challenge is spent
  unfoldable pub pool_new : Bridge → Transaction → Value → ℕ → Bridge × Reply
  pool_new s tx presentation peers =
      if already_seen o.platform s.community tx
      then (s, already_known tx)
      else let longer = record s.community {
        blockchain = add_transaction s.community.blockchain tx;
      } in
        let (sent, reached) =
          broadcast_transaction o trusted_issuer_dids longer tx presentation peers in
        (record s { community = sent }, pooled tx reached)

  -- `submit_transaction` once the transaction is admissible
  unfoldable pub spend_challenge : Bridge → Transaction → Value → ℕ → ℕ → Bridge × Reply
  spend_challenge s tx presentation now peers =
      if is_attestation tx
      then (let (left, fresh) = consume (challenge_in presentation) now s.challenges in
          let spent = record s { challenges = left } in
          if fresh then pool_new spent tx presentation peers else (spent, stale_challenge))
      else pool_new s tx presentation peers

  -- `submit_transaction`, at the time `moment` of the calendar and `now` of the clock
  unfoldable pub submit_transaction :
      Bridge → Option (Transaction × Value) → ℤ → ℕ → ℕ → Option (Bridge × Reply)
  submit_transaction s none moment now peers = some (s, malformed)
  submit_transaction s (some (tx, presentation)) moment now peers =
      elim (transaction_rejection o trusted_issuer_dids s.community tx presentation moment) [
        | fails ↦ none
        | admitted ↦ some (spend_challenge s tx presentation now peers)
        | unsigned_attestation ↦ some (s, rejected unsigned_attestation)
        | credential_rejected r ↦ some (s, rejected (credential_rejected r))
        | unfunded ↦ some (s, rejected unfunded)
        | unsigned_submission ↦ some (s, rejected unsigned_submission)
        | not_participant ↦ some (s, rejected not_participant)
      ]

  -- `produce_block`; a node that has mined has its block last.
  unfoldable pub produce_block : Bridge → Value → ℕ → Option (Bridge × Reply)
  produce_block s clock peers = elim s.community.blockchain.mempool [
    | [] ↦ some (s, no_transactions)
    | ◌∷◌ tx txs ↦ elim (mine_and_broadcast_block o.platform s.community (pos 0) [] clock) [
      | none ↦ none
      | some mined ↦
          some (record s { community = mined }, produced (last_block mined.blockchain) peers)
    ]
  ]
