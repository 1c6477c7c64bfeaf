-- ===== src/Community/Votes.antt =====
-- A view-change vote changes a node's chain at its end only (network/community.py).
use hs_fob.Base.{
  ◌≡◌, refl, Bool, true, false, ◌||◌, not, Option, none, some, List, [], String, string_eq, ◌==◌,
  if◌then◌else◌, ltb, length,
}
use mathlib.Core.Path.{subst}
use hs_fob.Base.Int.{ℤ, pos, leb_ℤ, int_eq}
use hs_fob.Base.Dict.{Dict, insert, contains, lookup_or}
use hs_fob.Base.Sets.{elem, add}
use hs_fob.Values.{Value, int}
use hs_fob.Crypto
use hs_fob.Crypto.{Platform}
use hs_fob.Block.{Block, view_change_signing_bytes}
use hs_fob.Chain.{validator_set}
use hs_fob.Validity.{is_scheduled}
use hs_fob.Consensus.{quorum_size}
use hs_fob.Community.{
  AttestationCommunity, Slot, slot_eq, to_all, send, view_change_message, limit, turn, next_view,
  validator_pubkey, apply_view_change,
}
use hs_fob.Community.Handlers.{
  mine_and_broadcast_block, maybe_advance_view, count_vote, on_view_change, request_view_change,
}
use hs_fob.Community.Left.{
  mine_and_broadcast_block_left, maybe_advance_view_left, count_vote_left, on_view_change_left,
  request_view_change_left,
}
use hs_fob.Community.Attached.{
  Extends, ExtendsIn, extends, mine_and_broadcast_block-ExtendsIn,
  mine_and_broadcast_block_left-Extends,
}

module _ (p : Platform) where
  maybe_advance_view-ExtendsIn :
      (n : AttestationCommunity) (slot : Slot) (now : Value)
      → ExtendsIn p n.blockchain.blocks (maybe_advance_view p n slot now)
  unfolding maybe_advance_view
  maybe_advance_view-ExtendsIn n slot now =
      of (elem slot.height n.view_advanced || not (pos (length n.blockchain.blocks) == slot.height))
        (validator_set p n.blockchain.blocks n.blockchain.genesis (limit slot.height))
    where
      mined : Option AttestationCommunity
      mined =
          mine_and_broadcast_block p (record n { view_advanced = add slot.height n.view_advanced })
            slot.view (lookup_or [] slot n.view_change_votes) now

      due : (z : Bool) → ExtendsIn p n.blockchain.blocks (if z then some n else mined)
      due true = extends p n
      due false =
          mine_and_broadcast_block-ExtendsIn p
            (record n { view_advanced = add slot.height n.view_advanced }) slot.view
            (lookup_or [] slot n.view_change_votes) now

      of :
          (z : Bool) (o : Option (List String))
          → ExtendsIn p n.blockchain.blocks (
              if z then some n else elim o [
                | none ↦ none
                | some validators ↦
                    if ltb
                        (length (lookup_or [] slot n.view_change_votes))
                        (quorum_size (length validators))
                      || not (
                          is_scheduled
                            (turn validators slot.height slot.view)
                            (validator_pubkey p n))
                    then some n
                    else mined
              ])
      of true o = extends p n
      of false none = tt
      of false (some validators) = due (
          ltb (length (lookup_or [] slot n.view_change_votes)) (quorum_size (length validators))
          || not (is_scheduled (turn validators slot.height slot.view) (validator_pubkey p n)))

  maybe_advance_view_left-Extends :
      (n : AttestationCommunity) (slot : Slot) (now : Value)
      → Extends p n.blockchain.blocks (maybe_advance_view_left p n slot now)
  unfolding maybe_advance_view_left
  maybe_advance_view_left-Extends n slot now =
      of (validator_set p n.blockchain.blocks n.blockchain.genesis (limit slot.height))
    where
      of :
          (o : Option (List String))
          → Extends p n.blockchain.blocks (elim o [
            | none ↦ n
            | some validators ↦
                mine_and_broadcast_block_left p
                  (record n { view_advanced = add slot.height n.view_advanced })
                  slot.view
                  (lookup_or [] slot n.view_change_votes)
                  now
          ])
      of none = extends p n
      of (some validators) =
          mine_and_broadcast_block_left-Extends p
            (record n { view_advanced = add slot.height n.view_advanced }) slot.view
            (lookup_or [] slot n.view_change_votes) now

  -- A vote by itself leaves the chain as it is.
  abbrev SameIn : AttestationCommunity → Option (AttestationCommunity × Bool) → Type 0
  SameIn n none = Unit
  SameIn n (some (m, new)) = m.blockchain.blocks ≡ n.blockchain.blocks

  apply_view_change-same :
      (n : AttestationCommunity) (slot : Slot) (signer signature : String)
      → SameIn n (apply_view_change p n slot signer signature)
  unfolding apply_view_change
  apply_view_change-same n slot signer signature =
      of
        (leb_ℤ slot.view (pos 0)
          || not (
              Crypto.verify p signer (view_change_signing_bytes p slot.height (int slot.view))
                signature))
        (validator_set p n.blockchain.blocks n.blockchain.genesis (limit slot.height))
    where
      votes : Dict String String
      votes = lookup_or [] slot n.view_change_votes

      opened : AttestationCommunity
      opened = record n { view_change_votes = insert slot votes n.view_change_votes }

      counted : AttestationCommunity
      counted = record n {
        view_change_votes = insert slot (insert signer signature votes) n.view_change_votes;
      }

      member :
          (z old : Bool)
          → SameIn n (
              if not z
              then some (n, false)
              else if old
              then some (opened, false)
              else some (counted, true))
      member false old = refl
      member true true = refl
      member true false = refl

      of :
          (z : Bool) (o : Option (List String))
          → SameIn n (
              if z then some (n, false) else elim o [
                | none ↦ none
                | some validators ↦
                    if not (elem signer validators)
                    then some (n, false)
                    else if contains signer votes
                    then some (opened, false)
                    else some (counted, true)
              ])
      of true o = refl
      of false none = tt
      of false (some validators) = member (elem signer validators) (contains signer votes)

  count_vote-ExtendsIn :
      (n : AttestationCommunity) (slot : Slot) (signer signature : String) (now : Value)
      → ExtendsIn p n.blockchain.blocks (count_vote p n slot signer signature now)
  unfolding count_vote
  count_vote-ExtendsIn n slot signer signature now =
      of (apply_view_change p n slot signer signature)
        (apply_view_change-same n slot signer signature)
    where
      of :
          (o : Option (AttestationCommunity × Bool))
          → SameIn n o
          → ExtendsIn p n.blockchain.blocks (elim o [
            | none ↦ none
            | some (m, false) ↦ some m
            | some (m, true) ↦
                maybe_advance_view p
                  (send (to_all (view_change_message slot signer signature)) m)
                  slot
                  now
          ])
      of none e = tt
      of (some (m, false)) e = subst (λ (l : List Block). Extends p l m) e (extends p m)
      of (some (m, true)) e =
          subst
            (λ (l : List Block). ExtendsIn p l (
              maybe_advance_view p (send (to_all (view_change_message slot signer signature)) m)
                slot now))
            e
            (maybe_advance_view-ExtendsIn
              (send (to_all (view_change_message slot signer signature)) m) slot now)

  count_vote_left-Extends :
      (n : AttestationCommunity) (slot : Slot) (signer signature : String) (now : Value)
      → Extends p n.blockchain.blocks (count_vote_left p n slot signer signature now)
  unfolding count_vote_left
  count_vote_left-Extends n slot signer signature now =
      of (apply_view_change p n slot signer signature)
        (apply_view_change-same n slot signer signature)
    where
      of :
          (o : Option (AttestationCommunity × Bool))
          → SameIn n o
          → Extends p n.blockchain.blocks (elim o [
            | none ↦ n
            | some (m, false) ↦ m
            | some (m, true) ↦
                maybe_advance_view_left p
                  (send (to_all (view_change_message slot signer signature)) m)
                  slot
                  now
          ])
      of none e = extends p n
      of (some (m, false)) e = subst (λ (l : List Block). Extends p l m) e (extends p m)
      of (some (m, true)) e =
          subst
            (λ (l : List Block). Extends p l (
              maybe_advance_view_left p
                (send (to_all (view_change_message slot signer signature)) m) slot now))
            e
            (maybe_advance_view_left-Extends
              (send (to_all (view_change_message slot signer signature)) m) slot now)

  pub on_view_change-ExtendsIn :
      (n : AttestationCommunity) (o : Option (Slot × (String × String))) (now : Value)
      → ExtendsIn p n.blockchain.blocks (on_view_change p n o now)
  unfolding on_view_change
  on_view_change-ExtendsIn n none now = extends p n
  on_view_change-ExtendsIn n (some (slot, (signer, signature))) now =
      count_vote-ExtendsIn n slot signer signature now

  pub on_view_change_left-Extends :
      (n : AttestationCommunity) (o : Option (Slot × (String × String))) (now : Value)
      → Extends p n.blockchain.blocks (on_view_change_left p n o now)
  unfolding on_view_change_left
  on_view_change_left-Extends n none now = extends p n
  on_view_change_left-Extends n (some (slot, (signer, signature))) now =
      count_vote_left-Extends n slot signer signature now

  abbrev own_vote : AttestationCommunity → Slot → String
  own_vote n slot =
      Crypto.sign p n.producer_key (view_change_signing_bytes p slot.height (int slot.view))

  pub request_view_change-ExtendsIn :
      (n : AttestationCommunity) (height : ℤ) (now : Value)
      → ExtendsIn p n.blockchain.blocks (request_view_change p n height now)
  unfolding request_view_change
  request_view_change-ExtendsIn n height now =
      of (validator_set p n.blockchain.blocks n.blockchain.genesis (limit height))
    where
      slot : Slot
      slot = record { height = height; view = next_view n height }

      voted : Option AttestationCommunity
      voted = count_vote p n slot (validator_pubkey p n) (own_vote n slot) now

      ours : (z : Bool) → ExtendsIn p n.blockchain.blocks (if z then voted else some n)
      ours true = count_vote-ExtendsIn n slot (validator_pubkey p n) (own_vote n slot) now
      ours false = extends p n

      of :
          (o : Option (List String))
          → ExtendsIn p n.blockchain.blocks (elim o [
            | none ↦ none
            | some validators ↦ if elem (validator_pubkey p n) validators then voted else some n
          ])
      of none = tt
      of (some validators) = ours (elem (validator_pubkey p n) validators)

  pub request_view_change_left-Extends :
      (n : AttestationCommunity) (height : ℤ) (now : Value)
      → Extends p n.blockchain.blocks (request_view_change_left p n height now)
  unfolding request_view_change_left
  request_view_change_left-Extends n height now =
      of (validator_set p n.blockchain.blocks n.blockchain.genesis (limit height))
    where
      slot : Slot
      slot = record { height = height; view = next_view n height }

      of :
          (o : Option (List String))
          → Extends p n.blockchain.blocks (elim o [
            | none ↦ n
            | some validators ↦
                count_vote_left p n slot (validator_pubkey p n) (own_vote n slot) now
          ])
      of none = extends p n
      of (some validators) =
          count_vote_left-Extends n slot (validator_pubkey p n) (own_vote n slot) now
