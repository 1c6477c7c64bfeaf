-- ===== src/Community.antt =====
-- network/community.py: the state machine of a node, `AttestationCommunity`. A handler takes the message
-- as network/wire.py has decoded it, where `none` is a ValueError, and gives the node after it; `none` is
-- an exception that it raises. What is sent is kept in order. The times of events, which no decision
-- reads, and the log are left out.
pub mod Handlers
pub mod Left
pub mod Steps
pub mod Genuine
pub mod Kept
pub mod Relay
pub mod Attached
pub mod Votes
pub mod Once
pub mod Final
pub mod Views
pub mod Ahead
pub mod Admission
pub mod Pooled
use mathlib.Core.Path.{subst}
use hs_fob.Base.{
  ℕ, zero, suc, Bool, true, false, ◌&&◌, ◌||◌, not, Option, none, some, List, [], ◌∷◌, ◌++◌, map,
  String, string_eq, nat_eq, ◌==◌, if◌then◌else◌, leb, ltb, length, any, keep, Eq, ◌≡◌, ◌↔◌, ◌⊎◌,
  eq_iff, arith, &&-true, ap, ◌∙◌, refl,
}
use hs_fob.Base.Int.{ℤ, pos, negsuc, ◌+ℤ◌, leb_ℤ, ltb_ℤ, int_eq}
use hs_fob.Base.Dict.{Dict, lookup_or, insert, contains, keys}
use hs_fob.Base.Sets.{elem, add}
use hs_fob.Values.{Value, int}
use hs_fob.Crypto
use hs_fob.Crypto.{Platform}
use hs_fob.Transaction
use hs_fob.Transaction.{Transaction}
use hs_fob.Block
use hs_fob.Block.{Block, view_change_signing_bytes, add_commit_signature}
use hs_fob.Consensus.{quorum_size, scheduled_proposer}
use hs_fob.Chain.{Blockchain, last_block, validator_set, is_final, add_block, add_transaction}
use hs_fob.Validity.{view_number, is_scheduled, is_valid_chain, replace_chain}

-- a key of `_view_change_votes`: the height and the view that a vote asks for
pub record Slot : Type 0 where
  pub height : ℤ
  pub view : ℤ

pub slot_equal_iff : (a b : Slot) → ((a.height == b.height && a.view == b.view) ≡ true) ↔ (a ≡ b)
slot_equal_iff a b = (
  λ h.
      let (e, f) = &&-true (a.height == b.height) (a.view == b.view) h in
      let same_height : a.height ≡ b.height = (int_eq.equal_iff a.height b.height).0 e in
      let same_view : a.view ≡ b.view = (int_eq.equal_iff a.view b.view).0 f in
      ap (λ (k : ℤ). record { height = k; view = a.view }) same_height
      ∙ ap (λ (v : ℤ). record { height = b.height; view = v }) same_view,
  λ e.
      subst (λ (z : Slot). (a.height == z.height && a.view == z.view) ≡ true) e
        (rw ((int_eq.equal_iff a.height a.height).1 refl, (int_eq.equal_iff a.view a.view).1 refl)
          refl),
)

instance abbrev pub slot_eq : Eq Slot
slot_eq = record {
  equal = λ a b. a.height == b.height && a.view == b.view;
  equal_iff = slot_equal_iff;
}

-- What a node sends.
pub data Message : Type 0 where
  transaction_message : Transaction → Value → Message
  block_message : Block → Message
  commit_message : String → String → String → Message
  view_change_message : Slot → String → String → Message
  chain_request : Message
  chain_response : List Block → Message

pub data Outgoing : Type 0 where
  to_all : Message → Outgoing
  to_peer : Message → Outgoing

-- `AttestationCommunity`, the attributes that decisions read, and what has been sent
pub record AttestationCommunity : Type 0 where
  pub blockchain : Blockchain
  pub producer_key : String
  pub view_change_votes : Dict Slot (Dict String String)
  pub view_advanced : List ℤ
  pub finalized_announced : List String
  pub sent : List Outgoing

-- `ez_send`, to every peer or to the one that has written
abbrev pub send : Outgoing → AttestationCommunity → AttestationCommunity
send m n = record n { sent = n.sent ++ m ∷ [] }

abbrev pub with_blocks : List Block → AttestationCommunity → AttestationCommunity
with_blocks blocks n = record n { blockchain = record n.blockchain { blocks = blocks } }

-- How `_try_append_block` ends: it returns, or an exception leaves it, with the node as it is then.
pub data Attempt : Type 0 where
  returned : AttestationCommunity → Bool → Attempt
  raised : AttestationCommunity → Attempt

-- a block that the code has changed in place: the last one, or the first with this hash
abbrev pub set_last : Block → List Block → List Block
set_last b [] = []
set_last b (x ∷ []) = b ∷ []
set_last b (x ∷ y ∷ blocks) = x ∷ set_last b (y ∷ blocks)

-- `validator_set(height)`: below 0 its loops end at once, as at 0
abbrev pub limit : ℤ → ℕ
limit (pos n) = n
limit (negsuc n) = 0

-- `scheduled_proposer(validators, height, view)`; the callers have let no number below 0 through
abbrev pub turn : List String → ℤ → ℤ → Option String
turn validators (pos height) (pos view) = scheduled_proposer validators height view
turn validators _ _ = none

-- `max(voted) + 1` and `1`, where a vote is for the view 1 at least
abbrev pub highest : List ℤ → ℤ
highest [] = pos 0
highest (v ∷ vs) = let best = highest vs in if ltb_ℤ best v then v else best

-- `_next_view`
unfoldable pub next_view : AttestationCommunity → ℤ → ℤ
next_view n height =
    highest (map Slot.view (keep (λ s. s.height == height) (keys n.view_change_votes))) +ℤ pos 1

module _ (p : Platform) where
  -- `validator_pubkey`
  abbrev pub validator_pubkey : AttestationCommunity → String
  validator_pubkey n = Crypto.public_hex p n.producer_key

  -- `_already_seen`
  unfoldable pub already_seen : AttestationCommunity → Transaction → Bool
  already_seen n tx =
      let same = λ (other : Transaction). Transaction.hash p other == Transaction.hash p tx in
      any same n.blockchain.mempool || any (λ b. any same b.transactions) n.blockchain.blocks

  -- `_try_append_block`. A block that makes the chain invalid is popped again, but it stays where
  -- `is_valid_chain` does not return. Whether it returns False or raises there depends on how
  -- Python sorts and hashes the values of a payload: `raises` says which.
  unfoldable pub try_append_block : AttestationCommunity → Block → (raises : Bool) → Attempt
  try_append_block n b raises =
      let longer = record n.blockchain { blocks = n.blockchain.blocks ++ b ∷ [] } in
      let committed = map (Transaction.hash p) b.transactions in
      if is_valid_chain p longer
      then returned
          (record n {
            blockchain = record longer {
              mempool = keep (λ tx. not (elem (Transaction.hash p tx) committed)) longer.mempool;
            };
          })
          true
      else if raises
      then raised (record n { blockchain = longer })
      else returned n false

  -- `_find_block_by_hash`
  abbrev pub find_block_by_hash : String → List Block → Option Block
  find_block_by_hash block_hash [] = none
  find_block_by_hash block_hash (b ∷ blocks) =
      if Block.hash p b == block_hash then some b else find_block_by_hash block_hash blocks

  -- the blocks when the one that it finds has changed
  abbrev pub set_by_hash : String → Block → List Block → List Block
  set_by_hash block_hash b [] = []
  set_by_hash block_hash b (x ∷ blocks) =
      if Block.hash p x == block_hash then b ∷ blocks else x ∷ set_by_hash block_hash b blocks

  -- `_note_if_finalized`
  unfoldable pub note_if_finalized : AttestationCommunity → Block → Option AttestationCommunity
  note_if_finalized n b =
      if elem (Block.hash p b) n.finalized_announced
      then some n
      else elim (is_final p n.blockchain b) [
        | none ↦ none
        | some false ↦ some n
        | some true ↦
            some (record n { finalized_announced = add (Block.hash p b) n.finalized_announced })
      ]

  -- `_commit_if_validator`, for a block that stands last in the chain
  unfoldable pub commit_if_validator : AttestationCommunity → Block → Option AttestationCommunity
  unfolding note_if_finalized
  commit_if_validator n b =
      let me = validator_pubkey n in
      let voted = add_commit_signature p n.producer_key b in
      let vote = commit_message (Block.hash p b) me (lookup_or "" me voted.commit_signatures) in
      if b.index == 0
      then some n
      else elim (validator_set p n.blockchain.blocks n.blockchain.genesis b.index) [
        | none ↦ none
        | some validators ↦
            if not (elem me validators)
            then some n
            else if contains me b.commit_signatures
            then some n
            else note_if_finalized
                (send (to_all vote) (with_blocks (set_last voted n.blockchain.blocks) n)) voted
      ]

  -- `_apply_commit`, with what it returns
  unfoldable pub apply_commit :
      AttestationCommunity → String → String → String → Option (AttestationCommunity × Bool)
  unfolding note_if_finalized
  apply_commit n block_hash signer signature =
      elim (find_block_by_hash block_hash n.blockchain.blocks) [
        | none ↦ some (n, false)
        | some b ↦
            if contains signer b.commit_signatures
              || not (Crypto.verify p signer (Block.signing_bytes p b) signature)
            then some (n, false)
            else elim (validator_set p n.blockchain.blocks n.blockchain.genesis b.index) [
              | none ↦ none
              | some validators ↦
                  let voted = record b {
                    commit_signatures = insert signer signature b.commit_signatures;
                  } in
                  if not (elem signer validators)
                  then some (n, false)
                  else elim (note_if_finalized
                      (with_blocks (set_by_hash block_hash voted n.blockchain.blocks) n) voted) [
                        | none ↦ none
                        | some n' ↦ some (n', true)
                      ]
            ]
      ]

  -- `_apply_view_change`, with what it returns
  unfoldable pub apply_view_change :
      AttestationCommunity → Slot → String → String → Option (AttestationCommunity × Bool)
  apply_view_change n slot signer signature =
      if leb_ℤ slot.view (pos 0)
        || not (
            Crypto.verify p signer (view_change_signing_bytes p slot.height (int slot.view))
              signature)
      then some (n, false)
      else elim (validator_set p n.blockchain.blocks n.blockchain.genesis (limit slot.height)) [
        | none ↦ none
        | some validators ↦
            let votes = lookup_or [] slot n.view_change_votes in
            let opened = record n { view_change_votes = insert slot votes n.view_change_votes } in
            let counted = record n {
              view_change_votes = insert slot (insert signer signature votes) n.view_change_votes;
            } in
            if not (elem signer validators)
            then some (n, false)
            else if contains signer votes
            then some (opened, false)
            else some (counted, true)
      ]
