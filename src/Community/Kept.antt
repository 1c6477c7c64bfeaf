-- ===== src/Community/Kept.antt =====
-- A property of the recorded view-change votes survives what does not record any (network/community.py).
use hs_fob.Base.{Bool, true, false, Option, none, some, List, [], String, string_eq, nat_eq, arith}
use hs_fob.Base.Int.{ℤ, int_eq}
use hs_fob.Base.Dict.{Dict, lookup_or}
use hs_fob.Base.Sets.{add}
use hs_fob.Values.{Value, int}
use hs_fob.Crypto.{Platform}
use hs_fob.Block.{Block}
use hs_fob.Chain.{add_block, last_block, validator_set}
use hs_fob.Community.{
  AttestationCommunity, to_all, to_peer, chain_request, block_message, Slot, slot_eq,
  note_if_finalized, commit_if_validator, apply_commit, try_append_block, Outgoing, send,
  with_blocks, Attempt, returned, raised, limit,
}
use hs_fob.Community.Handlers.{
  mine_and_broadcast_block, maybe_advance_view, settled, on_block, on_commit, on_chain_response,
}
use hs_fob.Community.Left.{
  commit_if_validator_left, mine_and_broadcast_block_left, maybe_advance_view_left, on_commit_left,
  on_block_left,
}

module _ (p : Platform) (V : Dict Slot (Dict String String) → Type 0) where
  abbrev pub Holds : AttestationCommunity → Type 0
  Holds n = V n.view_change_votes

  -- the same of a result, where an exception leaves nothing to say
  abbrev pub HoldsIn : Option AttestationCommunity → Type 0
  HoldsIn none = Unit
  HoldsIn (some n) = Holds n

  note_if_finalized-HoldsIn :
      (n : AttestationCommunity) (b : Block) → Holds n → HoldsIn (note_if_finalized p n b)
  unfolding note_if_finalized
  note_if_finalized-HoldsIn n b k = ground (arith, k)

  commit_if_validator-HoldsIn :
      (n : AttestationCommunity) (b : Block) → Holds n → HoldsIn (commit_if_validator p n b)
  unfolding commit_if_validator
  commit_if_validator-HoldsIn n b k = ground (
    arith,
    k,
    λ (v : Outgoing) (blocks : List Block) (b' : Block).
        note_if_finalized-HoldsIn (send v (with_blocks blocks n)) b' k,
  )

  pub mine_and_broadcast_block-HoldsIn :
      (n : AttestationCommunity) (view : ℤ) (messages : Dict String String) (now : Value)
      → Holds n
      → HoldsIn (mine_and_broadcast_block p n view messages now)
  unfolding mine_and_broadcast_block
  mine_and_broadcast_block-HoldsIn n view messages now k =
      sent_on
        (commit_if_validator p
          (record n {
            blockchain = (add_block p n.blockchain (some n.producer_key) (int view) messages now).0;
          })
          (add_block p n.blockchain (some n.producer_key) (int view) messages now).1)
        (commit_if_validator-HoldsIn _ _ k)
    where
      sent_on :
          (o : Option AttestationCommunity)
          → HoldsIn o
          → HoldsIn (elim o [
            | none ↦ none
            | some m ↦ some (send (to_all (block_message (last_block m.blockchain))) m)
          ])
      sent_on none h = tt
      sent_on (some m) h = h

  pub maybe_advance_view-HoldsIn :
      (n : AttestationCommunity) (slot : Slot) (now : Value)
      → Holds n
      → HoldsIn (maybe_advance_view p n slot now)
  unfolding maybe_advance_view
  maybe_advance_view-HoldsIn n slot now k = ground (
    arith,
    k,
    λ (l : List ℤ) (votes : Dict String String).
        mine_and_broadcast_block-HoldsIn (record n { view_advanced = l }) slot.view votes now k,
  )

  pub on_commit-HoldsIn :
      (n : AttestationCommunity) (o : Option (String × (String × String)))
      → Holds n
      → HoldsIn (on_commit p n o)
  unfolding on_commit apply_commit
  on_commit-HoldsIn n none k = k
  on_commit-HoldsIn n (some (block_hash, (signer, signature))) k = ground (
    arith,
    k,
    λ (blocks : List Block) (b : Block). note_if_finalized-HoldsIn (with_blocks blocks n) b k,
  )

  -- the same of the node that an attempt ends with
  abbrev HoldsAfter : Attempt → Type 0
  HoldsAfter (returned n flag) = Holds n
  HoldsAfter (raised n) = Holds n

  try_append_block-HoldsAfter :
      (n : AttestationCommunity) (b : Block) (raises : Bool)
      → Holds n
      → HoldsAfter (try_append_block p n b raises)
  unfolding try_append_block
  try_append_block-HoldsAfter n b raises k = ground (arith, k)

  settled-Holds : (b : Block) (n : AttestationCommunity) → Holds n → Holds (settled p b n)
  settled-Holds b n k = ground (arith, k)

  pub on_block-HoldsIn :
      (n : AttestationCommunity) (o : Option Block) (raises : Bool)
      → Holds n
      → HoldsIn (on_block p n o raises)
  unfolding on_block
  on_block-HoldsIn n none raises k = k
  on_block-HoldsIn n (some b) raises k =
      of (try_append_block p n b raises) (try_append_block-HoldsAfter n b raises k)
    where
      noted :
          (o : Option AttestationCommunity)
          → HoldsIn o
          → HoldsIn
              (elim o [ none ↦ none | some m ↦ note_if_finalized p m (last_block m.blockchain) ])
      noted none h = tt
      noted (some m) h = note_if_finalized-HoldsIn m (last_block m.blockchain) h

      of :
          (a : Attempt)
          → HoldsAfter a
          → HoldsIn (elim a as (λ _. Option AttestationCommunity) [
            | raised m ↦ none
            | returned m false ↦ some (send (to_peer chain_request) m)
            | returned m true ↦ elim (commit_if_validator p (settled p b m) b) [
              | none ↦ none
              | some m' ↦ note_if_finalized p m' (last_block m'.blockchain)
            ]
          ])
      of (raised m) h = tt
      of (returned m false) h = h
      of (returned m true) h =
          noted (commit_if_validator p (settled p b m) b)
            (commit_if_validator-HoldsIn _ _ (settled-Holds b m h))

  commit_if_validator_left-Holds :
      (n : AttestationCommunity) (b : Block) → Holds n → Holds (commit_if_validator_left p n b)
  unfolding commit_if_validator_left
  commit_if_validator_left-Holds n b k = ground (arith, k)

  pub mine_and_broadcast_block_left-Holds :
      (n : AttestationCommunity) (view : ℤ) (messages : Dict String String) (now : Value)
      → Holds n
      → Holds (mine_and_broadcast_block_left p n view messages now)
  unfolding mine_and_broadcast_block_left
  mine_and_broadcast_block_left-Holds n view messages now k = commit_if_validator_left-Holds _ _ k

  pub maybe_advance_view_left-Holds :
      (n : AttestationCommunity) (slot : Slot) (now : Value)
      → Holds n
      → Holds (maybe_advance_view_left p n slot now)
  unfolding maybe_advance_view_left
  maybe_advance_view_left-Holds n slot now k =
      of (validator_set p n.blockchain.blocks n.blockchain.genesis (limit slot.height))
    where
      of :
          (o : Option (List String))
          → Holds (elim o [
            | none ↦ n
            | some validators ↦
                mine_and_broadcast_block_left p
                  (record n { view_advanced = add slot.height n.view_advanced })
                  slot.view
                  (lookup_or [] slot n.view_change_votes)
                  now
          ])
      of none = k
      of (some validators) = mine_and_broadcast_block_left-Holds _ slot.view _ now k

  pub on_commit_left-Holds :
      (n : AttestationCommunity) (o : Option (String × (String × String)))
      → Holds n
      → Holds (on_commit_left p n o)
  unfolding on_commit_left
  on_commit_left-Holds n none k = k
  on_commit_left-Holds n (some (block_hash, (signer, signature))) k = ground (arith, k)

  pub on_block_left-Holds :
      (n : AttestationCommunity) (o : Option Block) (raises : Bool)
      → Holds n
      → Holds (on_block_left p n o raises)
  unfolding on_block_left
  on_block_left-Holds n none raises k = k
  on_block_left-Holds n (some b) raises k =
      of (try_append_block p n b raises) (try_append_block-HoldsAfter n b raises k)
    where
      noted :
          (m : AttestationCommunity) (o : Option AttestationCommunity)
          → Holds m
          → HoldsIn o
          → Holds (elim o [ none ↦ commit_if_validator_left p m b | some m' ↦ m' ])
      noted m none k h = commit_if_validator_left-Holds m b k
      noted m (some m') k h = h

      of :
          (a : Attempt)
          → HoldsAfter a
          → Holds (elim a as (λ _. AttestationCommunity) [
            | raised m ↦ m
            | returned m false ↦ m
            | returned m true ↦ elim (commit_if_validator p (settled p b m) b) [
              | none ↦ commit_if_validator_left p (settled p b m) b
              | some m' ↦ m'
            ]
          ])
      of (raised m) h = h
      of (returned m false) h = h
      of (returned m true) h =
          let settled_holds = settled-Holds b m h in
          noted (settled p b m) (commit_if_validator p (settled p b m) b) settled_holds
            (commit_if_validator-HoldsIn _ _ settled_holds)

  pub on_chain_response-Holds :
      (n : AttestationCommunity) (o : Option (List Block))
      → Holds n
      → Holds (on_chain_response p n o)
  unfolding on_chain_response
  on_chain_response-Holds n none k = k
  on_chain_response-Holds n (some candidate) k = k
