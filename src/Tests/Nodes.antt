-- ===== src/Tests/Nodes.antt =====
-- Examples for the state machine of a node.
use mathlib.Core.Path.{subst}
use hs_fob.Base.{
  ◌≡◌, refl, true, Option, none, some, [], ◌∷◌, String, string_eq, arith, eq_iff, sym, Bool-cases,
  inl, inr, ◌==◌, if◌then◌else◌,
}
use hs_fob.Base.Int.{pos}
use hs_fob.Base.Dict.{lookup_or, keys}
use hs_fob.Values.{Value, int, float, str, dict, Fields, end, field, get_field}
use hs_fob.Crypto
use hs_fob.Block.{Block, sign_as_producer, hash, signing_bytes, genuine, view_change_signing_bytes}
use hs_fob.Chain.{Blockchain, genesis_block}
use hs_fob.Community.{
  AttestationCommunity, Slot, slot_eq, to_all, view_change_message, next_view, apply_commit,
  apply_view_change, with_blocks,
}
use hs_fob.Community.Handlers.{on_commit, on_view_change}
use hs_fob.Community.Steps.{at_start, after, got_view_change, started, Reachable-genuine}
use hs_fob.Community.Once.{here, next, on_commit-once}
use hs_fob.Community.Ahead.{apply_view_change-ahead}
use hs_fob.Rubric.{Rubric}
use hs_fob.Wire.{view_change_fields, view_change_to_wire, wire_to_view_change}
use hs_fob.Wire.Votes.{SameEntries, wire_to_view_change-view_change_to_wire}
use hs_fob.Tests.{toy, block_of}
use hs_fob.Tests.Forks.{chain_of}

-- a block that nobody has committed
abbrev bare : Block
bare = sign_as_producer toy "v" (record (block_of 1 []) { previous_hash = hash toy genesis_block })

-- a node that is no validator
abbrev watcher : AttestationCommunity
watcher = started (chain_of (genesis_block ∷ bare ∷ [])) "w"

abbrev slot : Slot
slot = record { height = pos 2; view = pos 1 }

abbrev vote : String
vote = Crypto.sign toy "v" (view_change_signing_bytes toy (pos 2) (int (pos 1)))

abbrev counted : AttestationCommunity
counted = record watcher {
  view_change_votes = (slot, ("pub-v", vote) ∷ []) ∷ [];
  sent = to_all (view_change_message slot "pub-v" vote) ∷ [];
}

vote-counted :
    on_view_change toy watcher (some (slot, ("pub-v", vote))) (float "3.0") ≡ some counted
unfolding hs_fob.Community.Handlers.on_view_change hs_fob.Community.Handlers.count_vote
    hs_fob.Community.Handlers.maybe_advance_view hs_fob.Community.apply_view_change
    hs_fob.Block.view_change_signing_bytes hs_fob.Consensus.scheduled_proposer hs_fob.Block.hash
    hs_fob.Block.signing_bytes hs_fob.Block.header hs_fob.Block.merkle_root hs_fob.Merkle.root
    hs_fob.Merkle.build_levels hs_fob.Block.add_commit_signature hs_fob.Block.sign_as_producer
    hs_fob.Crypto.sign hs_fob.Crypto.public_hex hs_fob.Crypto.verify hs_fob.Block.commit_signers
    hs_fob.Chain.validator_set hs_fob.Derive.derive_registry hs_fob.Derive.replay
    hs_fob.Derive.apply_block hs_fob.Registry.new_registry hs_fob.Chain.replay_promotions
    hs_fob.Chain.promotion_rounds hs_fob.Chain.promotion_round hs_fob.Chain.apply_promotions
    hs_fob.Derive.consensus_validators hs_fob.Registry.authorities_in_domain
    hs_fob.Consensus.quorum_size
vote-counted = refl

Reachable-genuine_example :
    genuine toy
      (view_change_signing_bytes toy (pos 2) (int (pos 1)))
      (lookup_or [] slot counted.view_change_votes)
    ≡ keys (lookup_or [] slot counted.view_change_votes)
Reachable-genuine_example = Reachable-genuine toy slot (
    after (at_start (chain_of (genesis_block ∷ bare ∷ [])) "w")
      (got_view_change watcher counted (some (slot, ("pub-v", vote))) (float "3.0") vote-counted))

abbrev commit : String
commit = Crypto.sign toy "v" (signing_bytes toy bare)

abbrev attached : AttestationCommunity
attached =
    record (with_blocks
      (genesis_block ∷ record bare { commit_signatures = ("pub-v", commit) ∷ [] } ∷ []) watcher) {
        finalized_announced = hash toy bare ∷ [];
      }

commit-attached : apply_commit toy watcher (hash toy bare) "pub-v" commit ≡ some (attached, true)
unfolding hs_fob.Community.apply_commit hs_fob.Community.note_if_finalized hs_fob.Chain.is_final
    hs_fob.Chain.has_quorum hs_fob.Block.hash hs_fob.Block.signing_bytes hs_fob.Block.header
    hs_fob.Block.merkle_root hs_fob.Merkle.root hs_fob.Merkle.build_levels
    hs_fob.Block.add_commit_signature hs_fob.Block.sign_as_producer hs_fob.Crypto.sign
    hs_fob.Crypto.public_hex hs_fob.Crypto.verify hs_fob.Block.commit_signers
    hs_fob.Chain.validator_set hs_fob.Derive.derive_registry hs_fob.Derive.replay
    hs_fob.Derive.apply_block hs_fob.Registry.new_registry hs_fob.Chain.replay_promotions
    hs_fob.Chain.promotion_rounds hs_fob.Chain.promotion_round hs_fob.Chain.apply_promotions
    hs_fob.Derive.consensus_validators hs_fob.Registry.authorities_in_domain
    hs_fob.Consensus.quorum_size
commit-attached = refl

-- another vote comes in between
abbrev attached_counted : AttestationCommunity
attached_counted = record attached {
  view_change_votes = (slot, ("pub-v", vote) ∷ []) ∷ [];
  sent = to_all (view_change_message slot "pub-v" vote) ∷ [];
}

counted_between :
    on_view_change toy attached (some (slot, ("pub-v", vote))) (float "3.0") ≡ some attached_counted
unfolding hs_fob.Community.Handlers.on_view_change hs_fob.Community.Handlers.count_vote
    hs_fob.Community.Handlers.maybe_advance_view hs_fob.Community.apply_view_change
    hs_fob.Block.view_change_signing_bytes hs_fob.Consensus.scheduled_proposer hs_fob.Block.hash
    hs_fob.Block.signing_bytes hs_fob.Block.header hs_fob.Block.merkle_root hs_fob.Merkle.root
    hs_fob.Merkle.build_levels hs_fob.Block.add_commit_signature hs_fob.Block.sign_as_producer
    hs_fob.Crypto.sign hs_fob.Crypto.public_hex hs_fob.Crypto.verify hs_fob.Block.commit_signers
    hs_fob.Chain.validator_set hs_fob.Derive.derive_registry hs_fob.Derive.replay
    hs_fob.Derive.apply_block hs_fob.Registry.new_registry hs_fob.Chain.replay_promotions
    hs_fob.Chain.promotion_rounds hs_fob.Chain.promotion_round hs_fob.Chain.apply_promotions
    hs_fob.Derive.consensus_validators hs_fob.Registry.authorities_in_domain
    hs_fob.Consensus.quorum_size
counted_between = refl

on_commit-once_example :
    on_commit toy attached_counted (some (hash toy bare, ("pub-v", "other")))
    ≡ some attached_counted
on_commit-once_example =
    on_commit-once toy (hash toy bare) "pub-v" watcher attached attached_counted commit "other"
      commit-attached
      (next here
        (got_view_change attached attached_counted (some (slot, ("pub-v", vote))) (float "3.0")
          counted_between)
        refl)

abbrev stray : String
stray = Crypto.sign toy "x" (view_change_signing_bytes toy (pos 5) (int (pos 1)))

stray_genuine :
    Crypto.verify toy "pub-x" (view_change_signing_bytes toy (pos 5) (int (pos 1))) stray ≡ true
unfolding hs_fob.Crypto.verify hs_fob.Crypto.sign hs_fob.Block.view_change_signing_bytes
stray_genuine = refl

apply_view_change-ahead_example :
    apply_view_change toy watcher (record { height = pos 5; view = pos 1 }) "pub-x" stray ≡ none
apply_view_change-ahead_example =
    apply_view_change-ahead toy watcher 5 (pos 1) "pub-x" stray (omega arith) (omega arith) refl
      stray_genuine

-- what arrives when the keys stand in another order, and a reader of one message
abbrev arrived : Fields
arrived =
    field "view" (int (pos 1))
      (field "height" (int (pos 2)) (field "signer" (str "v") (field "signature" (str "s") end)))

abbrev sent_vote : Fields
sent_vote = view_change_fields slot "v" "s"

abbrev read : String → Option Value
read text = if text == view_change_to_wire toy slot "v" "s" then some (dict arrived) else none

read_back : read (view_change_to_wire toy slot "v" "s") ≡ some (dict arrived)
read_back =
    rw
      ((eq_iff (view_change_to_wire toy slot "v" "s") (view_change_to_wire toy slot "v" "s")).1
        refl)
      refl

same_entries : SameEntries arrived sent_vote
same_entries key = elim (Bool-cases (key == "height")) [
  | inl h ↦
      subst (λ (k : String). get_field k arrived ≡ get_field k sent_vote)
        (sym ((eq_iff key "height").0 h)) refl
  | inr h ↦ rw h refl
]

wire_to_view_change-view_change_to_wire_example :
    wire_to_view_change read (view_change_to_wire toy slot "v" "s") ≡ some (slot, ("v", "s"))
wire_to_view_change-view_change_to_wire_example =
    wire_to_view_change-view_change_to_wire toy read slot "v" "s" arrived read_back same_entries

abbrev two_claims : Rubric
two_claims = record { claims = "reads" ∷ "writes" ∷ []; required_items = pos 0 ∷ pos 1 ∷ [] }
