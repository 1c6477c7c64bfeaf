-- ===== src/Community/Left.antt =====
-- network/community.py: the node that a handler leaves when an exception ends it half-way. What it has
-- changed until then stays. Each function belongs to the handler of its name and says what has been
-- done before the call that raises.
use hs_fob.Base.{Bool, true, false, Option, none, some, [], String, string_eq}
use hs_fob.Base.Int.{ℤ, int_eq}
use hs_fob.Base.Dict.{Dict, lookup_or, insert}
use hs_fob.Base.Sets.{add}
use hs_fob.Values.{Value, int}
use hs_fob.Crypto
use hs_fob.Crypto.{Platform}
use hs_fob.Block
use hs_fob.Block.{Block, add_commit_signature, view_change_signing_bytes}
use hs_fob.Chain.{validator_set, add_block}
use hs_fob.Community.{
  AttestationCommunity, Slot, slot_eq, to_all, commit_message, view_change_message, send,
  with_blocks, set_last, set_by_hash, find_block_by_hash, limit, next_view, returned, raised,
  validator_pubkey, try_append_block, commit_if_validator, apply_view_change,
}
use hs_fob.Community.Handlers.{settled}

module _ (p : Platform) where
  -- `_commit_if_validator`: nothing is done before `validator_set`; before `_note_if_finalized` the
  -- vote is on the block and sent.
  unfoldable pub commit_if_validator_left : AttestationCommunity → Block → AttestationCommunity
  commit_if_validator_left n b =
      let me = validator_pubkey p n in
      let voted = add_commit_signature p n.producer_key b in
      let vote = commit_message (Block.hash p b) me (lookup_or "" me voted.commit_signatures) in
      elim (validator_set p n.blockchain.blocks n.blockchain.genesis b.index) [
        | none ↦ n
        | some validators ↦ send (to_all vote) (with_blocks (set_last voted n.blockchain.blocks) n)
      ]

  -- `mine_and_broadcast_block`: the block stands in the chain.
  unfoldable pub mine_and_broadcast_block_left :
      AttestationCommunity → ℤ → Dict String String → Value → AttestationCommunity
  mine_and_broadcast_block_left n view view_change_messages now =
      let (longer, b) =
        add_block p n.blockchain (some n.producer_key) (int view) view_change_messages now in
      commit_if_validator_left (record n { blockchain = longer }) b

  -- `_maybe_advance_view`: before the block is made, the height is noted.
  unfoldable pub maybe_advance_view_left :
      AttestationCommunity → Slot → Value → AttestationCommunity
  maybe_advance_view_left n slot now =
      elim (validator_set p n.blockchain.blocks n.blockchain.genesis (limit slot.height)) [
        | none ↦ n
        | some validators ↦
            mine_and_broadcast_block_left
              (record n { view_advanced = add slot.height n.view_advanced }) slot.view
              (lookup_or [] slot n.view_change_votes) now
      ]

  -- what `on_view_change` and `request_view_change` do with a vote: a new one has been counted and
  -- relayed before `_maybe_advance_view`
  unfoldable pub count_vote_left :
      AttestationCommunity → Slot → String → String → Value → AttestationCommunity
  count_vote_left n slot signer signature now = elim (apply_view_change p n slot signer signature) [
    | none ↦ n
    | some (n', false) ↦ n'
    | some (n', true) ↦
        maybe_advance_view_left (send (to_all (view_change_message slot signer signature)) n') slot
          now
  ]

  -- `on_view_change`
  unfoldable pub on_view_change_left :
      AttestationCommunity → Option (Slot × (String × String)) → Value → AttestationCommunity
  on_view_change_left n none now = n
  on_view_change_left n (some (slot, (signer, signature))) now =
      count_vote_left n slot signer signature now

  -- `request_view_change`
  unfoldable pub request_view_change_left : AttestationCommunity → ℤ → Value → AttestationCommunity
  request_view_change_left n height now =
      elim (validator_set p n.blockchain.blocks n.blockchain.genesis (limit height)) [
        | none ↦ n
        | some validators ↦
            let slot : Slot = record { height = height; view = next_view n height } in
            count_vote_left n slot (validator_pubkey p n)
              (Crypto.sign p n.producer_key
                (view_change_signing_bytes p slot.height (int slot.view)))
              now
      ]

  -- `on_commit`: before `_note_if_finalized` the commit is on the block.
  unfoldable pub on_commit_left :
      AttestationCommunity → Option (String × (String × String)) → AttestationCommunity
  on_commit_left n none = n
  on_commit_left n (some (block_hash, (signer, signature))) =
      elim (find_block_by_hash p block_hash n.blockchain.blocks) [
        | none ↦ n
        | some b ↦ elim (validator_set p n.blockchain.blocks n.blockchain.genesis b.index) [
          | none ↦ n
          | some validators ↦
              let voted = record b {
                commit_signatures = insert signer signature b.commit_signatures;
              } in
              with_blocks (set_by_hash p block_hash voted n.blockchain.blocks) n
        ]
      ]

  -- `on_block`: a block that `is_valid_chain` raises on stays in the chain.
  unfoldable pub on_block_left :
      AttestationCommunity → Option Block → (raises : Bool) → AttestationCommunity
  on_block_left n none raises = n
  on_block_left n (some b) raises = elim (try_append_block p n b raises) [
    | raised n' ↦ n'
    | returned n' false ↦ n'
    | returned n' true ↦ elim (commit_if_validator p (settled p b n') b) [
      | none ↦ commit_if_validator_left (settled p b n') b
      | some n'' ↦ n''
    ]
  ]
