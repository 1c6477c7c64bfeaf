-- ===== src/Community/Admission.antt =====
-- network/community.py: which transactions a node pools, `transaction_rejection` and its callers.
-- The time and the trusted issuers are arguments, as is the number of known peers.
use hs_fob.Base.{
  ℕ, Bool, true, false, ◌&&◌, not, Option, none, some, List, String, length, if◌then◌else◌,
}
use hs_fob.Base.Int.{ℤ, ltb_ℤ}
use hs_fob.Values.{Value, text_at, int_at}
use hs_fob.Transaction
use hs_fob.Transaction.{Transaction}
use hs_fob.Attestation.{is_attestation, fields}
use hs_fob.Submission.{is_submission}
use hs_fob.Balances.{free}
use hs_fob.Economy.{derive_balances}
use hs_fob.Chain.{add_transaction}
use hs_fob.Community.{AttestationCommunity, transaction_message, to_all, send, already_seen}
use hs_fob.Credentials.Checks.{Refusal, ok, refused, raised}
use hs_fob.Credentials.Verify.{Office}
use hs_fob.Credentials.Presentation.{verify_presentation}

-- What `transaction_rejection` returns: `None`, a reason, or an exception that it raises.
pub data Admission : Type 0 where
  admitted : Admission
  unsigned_attestation : Admission
  credential_rejected : Refusal → Admission
  unfunded : Admission
  unsigned_submission : Admission
  not_participant : Admission
  fails : Admission

module _ (o : Office) (trusted_issuer_dids : List String) where
  -- `tx.is_signed() and tx.verify_signature()`
  abbrev pub is_authentic : Transaction → Bool
  is_authentic tx = Transaction.is_signed tx && Transaction.verify_signature o.platform tx

  -- `transaction_rejection`
  unfoldable pub transaction_rejection : AttestationCommunity → Transaction → Value → ℤ → Admission
  transaction_rejection n tx presentation moment =
      let chain = n.blockchain in
      if is_attestation tx
      then (if not (is_authentic tx)
          then unsigned_attestation
          else elim (verify_presentation o trusted_issuer_dids moment presentation tx.sender
              (text_at "domain" (fields tx))) [
                | raised ↦ fails
                | refused reason ↦ credential_rejected reason
                | ok done ↦
                    elim (derive_balances o.platform chain.blocks (length chain.blocks)
                      chain.endowments chain.genesis) [
                        | none ↦ fails
                        | some economy ↦
                            if ltb_ℤ (free economy.ledger tx.sender) (int_at "stake" (fields tx))
                            then unfunded
                            else admitted
                      ]
              ])
      else if is_submission tx
      then (if not (is_authentic tx) then unsigned_submission else admitted)
      else not_participant

  -- `accepts_transaction`; `none` is the exception
  unfoldable pub accepts_transaction : AttestationCommunity → Transaction → Value → ℤ → Option Bool
  accepts_transaction n tx presentation moment =
      elim (transaction_rejection n tx presentation moment) [
        | fails ↦ none
        | admitted ↦ some true
        | _ ↦ some false
      ]

  -- `if not self._already_seen(tx): self.blockchain.add_transaction(tx)`
  abbrev pub pool : AttestationCommunity → Transaction → AttestationCommunity
  pool n tx =
      if already_seen o.platform n tx
      then n
      else record n { blockchain = add_transaction n.blockchain tx }

  -- `broadcast_transaction`, with the number of peers
  unfoldable pub broadcast_transaction :
      AttestationCommunity → Transaction → Value → ℕ → AttestationCommunity × ℕ
  broadcast_transaction n tx presentation peers =
      (send (to_all (transaction_message tx presentation)) n, peers)

  -- `submit_local`, with what it returns
  unfoldable pub submit_local :
      AttestationCommunity → Transaction → Value → ℤ → ℕ → Option (AttestationCommunity × Option ℕ)
  submit_local n tx presentation moment peers =
      elim (accepts_transaction n tx presentation moment) [
        | none ↦ none
        | some false ↦ some (n, none)
        | some true ↦
            let (sender, reached) = broadcast_transaction (pool n tx) tx presentation peers in
            some (sender, some reached)
      ]

  -- `on_transaction`, for a message as network/wire.py has decoded it
  unfoldable pub on_transaction :
      AttestationCommunity → Option (Transaction × Value) → ℤ → Option AttestationCommunity
  on_transaction n none moment = some n
  on_transaction n (some (tx, presentation)) moment =
      elim (transaction_rejection n tx presentation moment) [
        | fails ↦ none
        | admitted ↦ some (pool n tx)
        | _ ↦ some n
      ]
