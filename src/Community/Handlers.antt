-- ===== src/Community/Handlers.antt =====
-- network/community.py: proposing, counting votes, and the handlers of a node's messages.
use hs_fob.Base.{
  suc, Bool, true, false, ◌||◌, not, Option, none, some, List, [], String, string_eq, nat_eq, ◌==◌,
  if◌then◌else◌, ltb, length,
}
use hs_fob.Base.Int.{ℤ, pos, int_eq}
use hs_fob.Base.Dict.{Dict, lookup_or}
use hs_fob.Base.Sets.{elem, add}
use hs_fob.Values.{Value, int}
use hs_fob.Crypto
use hs_fob.Crypto.{Platform}
use hs_fob.Block.{Block, view_change_signing_bytes}
use hs_fob.Consensus.{quorum_size}
use hs_fob.Chain.{last_block, validator_set, add_block}
use hs_fob.Validity.{view_number, is_scheduled, replace_chain}
use hs_fob.Community.{
  AttestationCommunity, Slot, slot_eq, block_message, commit_message, view_change_message,
  chain_request, chain_response, to_all, to_peer, returned, raised, send, turn, limit, next_view,
  validator_pubkey, try_append_block, note_if_finalized, commit_if_validator, apply_commit,
  apply_view_change,
}

module _ (p : Platform) where
  -- `mine_and_broadcast_block`, where the clock gives the timestamp
  unfoldable pub mine_and_broadcast_block :
      AttestationCommunity → ℤ → Dict String String → Value → Option AttestationCommunity
  unfolding commit_if_validator
  mine_and_broadcast_block n view view_change_messages now =
      let (longer, b) =
        add_block p n.blockchain (some n.producer_key) (int view) view_change_messages now in
      elim (commit_if_validator p (record n { blockchain = longer }) b) [
        | none ↦ none
        | some n' ↦ some (send (to_all (block_message (last_block n'.blockchain))) n')
      ]

  -- `_maybe_advance_view`
  unfoldable pub maybe_advance_view :
      AttestationCommunity → Slot → Value → Option AttestationCommunity
  unfolding mine_and_broadcast_block
  maybe_advance_view n slot now =
      if elem slot.height n.view_advanced || not (pos (length n.blockchain.blocks) == slot.height)
      then some n
      else elim (validator_set p n.blockchain.blocks n.blockchain.genesis (limit slot.height)) [
        | none ↦ none
        | some validators ↦
            let votes = lookup_or [] slot n.view_change_votes in
            let due = turn validators slot.height slot.view in
            if ltb (length votes) (quorum_size (length validators))
              || not (is_scheduled due (validator_pubkey p n))
            then some n
            else mine_and_broadcast_block
                (record n { view_advanced = add slot.height n.view_advanced }) slot.view votes now
      ]

  -- what `on_view_change` and `request_view_change` do with a vote
  unfoldable pub count_vote :
      AttestationCommunity → Slot → String → String → Value → Option AttestationCommunity
  unfolding apply_view_change maybe_advance_view
  count_vote n slot signer signature now = elim (apply_view_change p n slot signer signature) [
    | none ↦ none
    | some (n', false) ↦ some n'
    | some (n', true) ↦
        maybe_advance_view (send (to_all (view_change_message slot signer signature)) n') slot now
  ]

  -- `on_view_change`
  unfoldable pub on_view_change :
      AttestationCommunity → Option (Slot × (String × String)) → Value → Option AttestationCommunity
  unfolding count_vote
  on_view_change n none now = some n
  on_view_change n (some (slot, (signer, signature))) now = count_vote n slot signer signature now

  -- `request_view_change`, for a height that is given
  unfoldable pub request_view_change :
      AttestationCommunity → ℤ → Value → Option AttestationCommunity
  unfolding count_vote next_view
  request_view_change n height now =
      elim (validator_set p n.blockchain.blocks n.blockchain.genesis (limit height)) [
        | none ↦ none
        | some validators ↦
            let slot : Slot = record { height = height; view = next_view n height } in
            if elem (validator_pubkey p n) validators
            then count_vote n slot (validator_pubkey p n)
                (Crypto.sign p n.producer_key
                  (view_change_signing_bytes p slot.height (int slot.view)))
                now
            else some n
      ]

  -- `on_commit`
  unfoldable pub on_commit :
      AttestationCommunity → Option (String × (String × String)) → Option AttestationCommunity
  unfolding apply_commit
  on_commit n none = some n
  on_commit n (some (block_hash, (signer, signature))) =
      elim (apply_commit p n block_hash signer signature) [
        | none ↦ none
        | some (n', false) ↦ some n'
        | some (n', true) ↦ some (send (to_all (commit_message block_hash signer signature)) n')
      ]

  -- `if block.view > 0: self._view_advanced.add(block.index)`
  abbrev pub settled : Block → AttestationCommunity → AttestationCommunity
  settled b n = elim (view_number b.view) [
    | some (suc v) ↦ record n { view_advanced = add (pos b.index) n.view_advanced }
    | _ ↦ n
  ]

  -- `on_block`; the block that it notes at the end is the one in the chain, with this node's commit.
  -- `raises` says whether `is_valid_chain` raises if it does not return True.
  unfoldable pub on_block :
      AttestationCommunity → Option Block → (raises : Bool) → Option AttestationCommunity
  unfolding try_append_block commit_if_validator note_if_finalized
  on_block n none raises = some n
  on_block n (some b) raises = elim (try_append_block p n b raises) [
    | raised n' ↦ none
    | returned n' false ↦ some (send (to_peer chain_request) n')
    | returned n' true ↦ elim (commit_if_validator p (settled b n') b) [
      | none ↦ none
      | some n'' ↦ note_if_finalized p n'' (last_block n''.blockchain)
    ]
  ]

  -- `on_chain_request`
  unfoldable pub on_chain_request : AttestationCommunity → AttestationCommunity
  on_chain_request n = send (to_peer (chain_response n.blockchain.blocks)) n

  -- `on_chain_response`
  unfoldable pub on_chain_response :
      AttestationCommunity → Option (List Block) → AttestationCommunity
  on_chain_response n none = n
  on_chain_response n (some candidate) = record n {
    blockchain = (replace_chain p n.blockchain candidate).0;
  }
