-- ===== src/Bridge/Payloads.antt =====
-- network/http_bridge.py, the reading routes: the JSON that shows transactions, blocks and the state
-- derived from the chain. `none` is an exception.
use hs_fob.Base.{
  ℕ, zero, suc, not, Option, none, some, List, [], ◌∷◌, String, string_eq, if◌then◌else◌, take,
  length,
}
use hs_fob.Base.Int.{ℤ, pos}
use hs_fob.Base.Dict.{Dict, lookup}
use hs_fob.Base.Order.{sorted, string_ord}
use hs_fob.Base.Sets.{inter}
use hs_fob.Base.Errors.{◌>>=◌}
use hs_fob.Base.Text.{chars, joined}
use hs_fob.Values.{
  Value, bool, int, str, list, dict, Items, nil, cons, Fields, end, field, field_is, equals_str,
}
use hs_fob.Transaction
use hs_fob.Transaction.{Transaction, nullable}
use hs_fob.Attestation.{is_attestation, fields}
use hs_fob.Submission.{is_submission}
use hs_fob.Slashing.{is_slash}
use hs_fob.TxSigning.{requires_signature}
use hs_fob.Block
use hs_fob.Block.{Block, commit_signers}
use hs_fob.Consensus.{quorum_size}
use hs_fob.Chain.{Blockchain, validator_set, is_final}
use hs_fob.Crypto.{Platform}
use hs_fob.Derive.{certificate_type, derive_registry}
use hs_fob.Economy.{derive_balances}
use hs_fob.Balances.{Account, snapshot}
use hs_fob.Certificate.Statuses.{certificate_statuses}
use hs_fob.Did.Keys.{try_public_key_to_did_key}
use hs_fob.Community.{AttestationCommunity}

-- `_short_full`
unfoldable pub short_full : String → Value
short_full key = dict (
    field "short" (str (joined (take 12 (chars key))))
      (field "full" (str key) (field "did" (nullable (try_public_key_to_did_key key)) end)))

-- `_tx_type_label`
unfoldable pub tx_type_label : Transaction → String
tx_type_label tx =
    if is_attestation tx
    then "attestation"
    else if is_submission tx
    then "submission"
    else if is_slash tx.payload
    then "slash"
    else if field_is (equals_str certificate_type) "type" (fields tx)
    then "certificate"
    else "other"

abbrev all_short : List String → Items
all_short [] = nil
all_short (k ∷ ks) = cons (short_full k) (all_short ks)

-- `quorum_size(n) if n else 0`
abbrev pub quorum_or_zero : ℕ → Value
quorum_or_zero zero = int (pos 0)
quorum_or_zero (suc n) = int (pos (quorum_size (suc n)))

abbrev amounts : Account → Fields
amounts a =
    field "total" (int a.total_tokens)
      (field "locked" (int a.locked_tokens) (field "free" (int a.free_tokens) end))

abbrev account_items : List Account → Items
account_items [] = nil
account_items (a ∷ accounts) =
    cons (dict (field "pubkey" (short_full a.owner) (amounts a))) (account_items accounts)

abbrev domain_fields : Dict String ℤ → Fields
domain_fields [] = end
domain_fields ((d, w) ∷ ds) = field d (int w) (domain_fields ds)

abbrev weight_items : Dict String (Dict String ℤ) → Items
weight_items [] = nil
weight_items ((k, domains) ∷ ws) =
    cons (dict (field "pubkey" (short_full k) (field "weights" (dict (domain_fields domains)) end)))
      (weight_items ws)

module _ (p : Platform) where
  -- the summary's entry for the status, if there is one
  abbrev status_field : Option (Dict String String) → Transaction → Fields
  status_field none tx = end
  status_field (some statuses) tx = elim (lookup (Transaction.hash p tx) statuses) [
    | none ↦ end
    | some status ↦ field "status" (str status) end
  ]

  -- `_tx_summary`
  unfoldable pub tx_summary : Transaction → Option (Dict String String) → Option Value
  tx_summary tx statuses = do
    needs_signature ← requires_signature tx
    some (
        dict (
          field "hash" (str (Transaction.hash p tx)) (
            field "type" (str (tx_type_label tx)) (
              field "sender" (short_full tx.sender) (
                field "payload" tx.payload (
                  field "signed" (bool (Transaction.is_signed tx)) (
                    field "signature_valid" (bool (Transaction.verify_signature p tx)) (
                      field "protocol_generated" (bool (not needs_signature))
                        (status_field statuses tx)))))))))

  unfoldable pub tx_summaries : List Transaction → Option (Dict String String) → Option Items
  tx_summaries [] statuses = some nil
  tx_summaries (tx ∷ txs) statuses = do
    first ← tx_summary tx statuses
    rest ← tx_summaries txs statuses
    some (cons first rest)

  -- what `_block_summary` adds when the chain is given
  unfoldable pub finality_fields : Blockchain → Block → Option Fields
  finality_fields chain b = do
    validators ← validator_set p chain.blocks chain.genesis b.index
    finalized ← is_final p chain b
    let n = length validators
    some (
        field "finalized" (bool finalized) (
          field "commits" (int (pos (length (inter (commit_signers p b) validators))))
            (field "validators" (int (pos n)) (field "quorum" (quorum_or_zero n) end))))

  -- `_block_summary`
  unfoldable pub block_summary :
      Block → Option Blockchain → Option (Dict String String) → Option Value
  block_summary b chain statuses = do
    transactions ← tx_summaries b.transactions statuses
    standing ← elim chain as (λ _. Option Fields) [ none ↦ some end | some c ↦ finality_fields c b ]
    some (
        dict (
          field "index" (int (pos b.index)) (
            field "hash" (str (Block.hash p b)) (
              field "previous_hash" (str b.previous_hash) (
                field "producer" (short_full b.producer) (
                  field "timestamp" b.timestamp
                    (field "view" b.view (field "transactions" (list transactions) standing))))))))

  unfoldable pub block_summaries : List Block → Blockchain → Dict String String → Option Items
  block_summaries [] chain statuses = some nil
  block_summaries (b ∷ blocks) chain statuses = do
    first ← block_summary b (some chain) (some statuses)
    rest ← block_summaries blocks chain statuses
    some (cons first rest)

  -- `_chain_payload`
  unfoldable pub chain_payload : AttestationCommunity → Option Value
  chain_payload n = do
    statuses ← certificate_statuses p n.blockchain.blocks n.blockchain.genesis
    blocks ← block_summaries n.blockchain.blocks n.blockchain statuses
    some (list blocks)

  -- `_consensus_payload`
  unfoldable pub consensus_payload : AttestationCommunity → Option Value
  consensus_payload n = do
    validators ←
        validator_set p n.blockchain.blocks n.blockchain.genesis (length n.blockchain.blocks)
    let size = length validators
    some (
        dict (
          field "validators" (list (all_short (sorted validators)))
            (field "n" (int (pos size)) (field "quorum" (quorum_or_zero size) end))))

  -- `_mempool_payload`
  unfoldable pub mempool_payload : AttestationCommunity → Option Value
  mempool_payload n = do txs ← tx_summaries n.blockchain.mempool none; some (list txs)

  -- `_reputation_payload`
  unfoldable pub reputation_payload : AttestationCommunity → Option Value
  reputation_payload n = do
    registry ←
        derive_registry p n.blockchain.blocks (length n.blockchain.blocks) n.blockchain.genesis
    some (list (weight_items registry.weights))

  -- `_balances_payload`
  unfoldable pub balances_payload : AttestationCommunity → Option Value
  balances_payload n = do
    economy ←
        derive_balances p n.blockchain.blocks (length n.blockchain.blocks) n.blockchain.endowments
          n.blockchain.genesis
    some (list (account_items (snapshot economy.ledger)))
