-- ===== src/Community/Steps.antt =====
-- The runs of a node (network/community.py): which states its handlers lead to, and what holds in all.
use mathlib.Core.Path.{subst}
use hs_fob.Base.{
  ◌≡◌, refl, Bool, true, false, Option, none, some, List, [], String, string_eq, if◌then◌else◌,
}
use hs_fob.Base.Int.{ℤ, int_eq}
use hs_fob.Base.Dict.{Dict, lookup_or, keys}
use hs_fob.Base.Sets.{elem}
use hs_fob.Values.{Value, int}
use hs_fob.Crypto
use hs_fob.Crypto.{Platform}
use hs_fob.Transaction.{Transaction}
use hs_fob.Block.{Block, genuine, view_change_signing_bytes}
use hs_fob.Chain.{Blockchain, add_transaction, validator_set}
use hs_fob.Community.{
  AttestationCommunity, Slot, slot_eq, to_all, view_change_message, send, limit, next_view,
  validator_pubkey, apply_view_change,
}
use hs_fob.Community.Handlers.{
  mine_and_broadcast_block, maybe_advance_view, count_vote, on_view_change, request_view_change,
  on_commit, on_block, on_chain_request, on_chain_response,
}
use hs_fob.Community.Left.{
  mine_and_broadcast_block_left, count_vote_left, on_view_change_left, request_view_change_left,
  maybe_advance_view_left, on_commit_left, on_block_left,
}
use hs_fob.Community.Genuine.{
  HasGenuine, statement, apply_view_change-genuine, lookup-AreGenuine, genuine-keys,
}
use hs_fob.Community.Kept.{
  Holds, HoldsIn, mine_and_broadcast_block-HoldsIn, maybe_advance_view-HoldsIn, on_commit-HoldsIn,
  on_block-HoldsIn, on_chain_response-Holds, mine_and_broadcast_block_left-Holds,
  maybe_advance_view_left-Holds, on_commit_left-Holds, on_block_left-Holds,
}

-- One step of a node: a message that comes in, or what its owner asks of it. A transaction may be any.
-- A handler that an exception ends is a step to the node that it leaves. A message that is refused
-- before anything changes leaves the node as it is.
pub data Step (p : Platform) : AttestationCommunity → AttestationCommunity → Type 0 where
  pooled :
      (n : AttestationCommunity) (tx : Transaction)
      → Step p n (record n { blockchain = add_transaction n.blockchain tx })
  mined :
      (n n' : AttestationCommunity) (view : ℤ) (messages : Dict String String) (now : Value)
      → mine_and_broadcast_block p n view messages now ≡ some n'
      → Step p n n'
  got_block :
      (n n' : AttestationCommunity) (b : Option Block) (raises : Bool)
      → on_block p n b raises ≡ some n'
      → Step p n n'
  mining_raised :
      (n : AttestationCommunity) (view : ℤ) (messages : Dict String String) (now : Value)
      → mine_and_broadcast_block p n view messages now ≡ none
      → Step p n (mine_and_broadcast_block_left p n view messages now)
  block_raised :
      (n : AttestationCommunity) (b : Option Block) (raises : Bool)
      → on_block p n b raises ≡ none
      → Step p n (on_block_left p n b raises)
  commit_raised :
      (n : AttestationCommunity) (commit : Option (String × (String × String)))
      → on_commit p n commit ≡ none
      → Step p n (on_commit_left p n commit)
  view_change_raised :
      (n : AttestationCommunity) (vote : Option (Slot × (String × String))) (now : Value)
      → on_view_change p n vote now ≡ none
      → Step p n (on_view_change_left p n vote now)
  timeout_raised :
      (n : AttestationCommunity) (height : ℤ) (now : Value)
      → request_view_change p n height now ≡ none
      → Step p n (request_view_change_left p n height now)
  got_chain_request : (n : AttestationCommunity) → Step p n (on_chain_request p n)
  got_chain :
      (n : AttestationCommunity) (blocks : Option (List Block))
      → Step p n (on_chain_response p n blocks)
  got_commit :
      (n n' : AttestationCommunity) (commit : Option (String × (String × String)))
      → on_commit p n commit ≡ some n'
      → Step p n n'
  got_view_change :
      (n n' : AttestationCommunity) (vote : Option (Slot × (String × String))) (now : Value)
      → on_view_change p n vote now ≡ some n'
      → Step p n n'
  timed_out :
      (n n' : AttestationCommunity) (height : ℤ) (now : Value)
      → request_view_change p n height now ≡ some n'
      → Step p n n'

-- a node that has just been started on a chain
abbrev pub started : Blockchain → String → AttestationCommunity
started chain producer_key = record {
  blockchain = chain;
  producer_key = producer_key;
  view_change_votes = [];
  view_advanced = [];
  finalized_announced = [];
  sent = [];
}

pub data Reachable (p : Platform) : AttestationCommunity → Type 0 where
  at_start : (chain : Blockchain) (producer_key : String) → Reachable p (started chain producer_key)
  after : {n n' : AttestationCommunity} → Reachable p n → Step p n n' → Reachable p n'

module _ (p : Platform) where
  abbrev Sound : AttestationCommunity → Type 0
  Sound n = Holds p (HasGenuine p) n

  abbrev SoundIn : Option AttestationCommunity → Type 0
  SoundIn o = HoldsIn p (HasGenuine p) o

  count_vote-Sound :
      (n : AttestationCommunity) (slot : Slot) (signer signature : String) (now : Value)
      → Sound n
      → SoundIn (count_vote p n slot signer signature now)
  unfolding count_vote
  count_vote-Sound n slot signer signature now good =
      of (apply_view_change p n slot signer signature) refl
    where
      of :
          (o : Option (AttestationCommunity × Bool))
          → apply_view_change p n slot signer signature ≡ o
          → SoundIn (elim o [
            | none ↦ none
            | some (m, false) ↦ some m
            | some (m, true) ↦
                maybe_advance_view p
                  (send (to_all (view_change_message slot signer signature)) m)
                  slot
                  now
          ])
      of none e = tt
      of (some (m, false)) e = apply_view_change-genuine p n slot signer signature e good
      of (some (m, true)) e =
          maybe_advance_view-HoldsIn p (HasGenuine p) _ slot now
            (apply_view_change-genuine p n slot signer signature e good)

  on_view_change-Sound :
      (n : AttestationCommunity) (o : Option (Slot × (String × String))) (now : Value)
      → Sound n
      → SoundIn (on_view_change p n o now)
  unfolding on_view_change
  on_view_change-Sound n none now good = good
  on_view_change-Sound n (some (slot, (signer, signature))) now good =
      count_vote-Sound n slot signer signature now good

  request_view_change-Sound :
      (n : AttestationCommunity) (height : ℤ) (now : Value)
      → Sound n
      → SoundIn (request_view_change p n height now)
  unfolding request_view_change
  request_view_change-Sound n height now good =
      of (validator_set p n.blockchain.blocks n.blockchain.genesis (limit height))
    where
      slot : Slot
      slot = record { height = height; view = next_view n height }

      voted : Option AttestationCommunity
      voted =
          count_vote p n slot (validator_pubkey p n)
            (Crypto.sign p n.producer_key (statement p slot)) now

      ours : (z : Bool) → SoundIn (if z then voted else some n)
      ours true =
          count_vote-Sound n slot (validator_pubkey p n)
            (Crypto.sign p n.producer_key (statement p slot)) now good
      ours false = good

      of :
          (o : Option (List String))
          → SoundIn (elim o [
            | none ↦ none
            | some validators ↦ if elem (validator_pubkey p n) validators then voted else some n
          ])
      of none = tt
      of (some validators) = ours (elem (validator_pubkey p n) validators)

  count_vote_left-Sound :
      (n : AttestationCommunity) (slot : Slot) (signer signature : String) (now : Value)
      → Sound n
      → Sound (count_vote_left p n slot signer signature now)
  unfolding count_vote_left
  count_vote_left-Sound n slot signer signature now good =
      of (apply_view_change p n slot signer signature) refl
    where
      of :
          (o : Option (AttestationCommunity × Bool))
          → apply_view_change p n slot signer signature ≡ o
          → Sound (elim o [
            | none ↦ n
            | some (m, false) ↦ m
            | some (m, true) ↦
                maybe_advance_view_left p
                  (send (to_all (view_change_message slot signer signature)) m)
                  slot
                  now
          ])
      of none e = good
      of (some (m, false)) e = apply_view_change-genuine p n slot signer signature e good
      of (some (m, true)) e =
          maybe_advance_view_left-Holds p (HasGenuine p) _ slot now
            (apply_view_change-genuine p n slot signer signature e good)

  on_view_change_left-Sound :
      (n : AttestationCommunity) (o : Option (Slot × (String × String))) (now : Value)
      → Sound n
      → Sound (on_view_change_left p n o now)
  unfolding on_view_change_left
  on_view_change_left-Sound n none now good = good
  on_view_change_left-Sound n (some (slot, (signer, signature))) now good =
      count_vote_left-Sound n slot signer signature now good

  request_view_change_left-Sound :
      (n : AttestationCommunity) (height : ℤ) (now : Value)
      → Sound n
      → Sound (request_view_change_left p n height now)
  unfolding request_view_change_left
  request_view_change_left-Sound n height now good =
      of (validator_set p n.blockchain.blocks n.blockchain.genesis (limit height))
    where
      slot : Slot
      slot = record { height = height; view = next_view n height }

      of :
          (o : Option (List String))
          → Sound (elim o [
            | none ↦ n
            | some validators ↦
                count_vote_left p n slot
                  (validator_pubkey p n)
                  (Crypto.sign p n.producer_key (statement p slot))
                  now
          ])
      of none = good
      of (some validators) =
          count_vote_left-Sound n slot (validator_pubkey p n)
            (Crypto.sign p n.producer_key (statement p slot)) now good

  there :
      {n : AttestationCommunity} {o : Option AttestationCommunity}
      → o ≡ some n
      → SoundIn o
      → Sound n
  there e h = subst SoundIn e h

  Step-Sound : {n n' : AttestationCommunity} → Sound n → Step p n n' → Sound n'
  unfolding on_chain_request
  Step-Sound good (pooled n tx) = good
  Step-Sound good (mined n n' view messages now e) =
      there e (mine_and_broadcast_block-HoldsIn p (HasGenuine p) n view messages now good)
  Step-Sound good (got_block n n' b raises e) =
      there e (on_block-HoldsIn p (HasGenuine p) n b raises good)
  Step-Sound good (mining_raised n view messages now e) =
      mine_and_broadcast_block_left-Holds p (HasGenuine p) n view messages now good
  Step-Sound good (block_raised n b raises e) = on_block_left-Holds p (HasGenuine p) n b raises good
  Step-Sound good (commit_raised n commit e) = on_commit_left-Holds p (HasGenuine p) n commit good
  Step-Sound good (view_change_raised n vote now e) = on_view_change_left-Sound n vote now good
  Step-Sound good (timeout_raised n height now e) = request_view_change_left-Sound n height now good
  Step-Sound good (got_chain_request n) = good
  Step-Sound good (got_chain n blocks) = on_chain_response-Holds p (HasGenuine p) n blocks good
  Step-Sound good (got_commit n n' commit e) =
      there e (on_commit-HoldsIn p (HasGenuine p) n commit good)
  Step-Sound good (got_view_change n n' vote now e) = there e (on_view_change-Sound n vote now good)
  Step-Sound good (timed_out n n' height now e) =
      there e (request_view_change-Sound n height now good)

  Reachable-Sound : {n : AttestationCommunity} → Reachable p n → Sound n
  Reachable-Sound (at_start chain producer_key) = tt
  Reachable-Sound (after run step) = Step-Sound (Reachable-Sound run) step

  -- In every state that a node reaches, one that an exception has left half-way included, all the view-change votes that it has recorded for a height and a
  -- view are genuine: a block that carries them for that height and view counts the signer of each.
  pub Reachable-genuine :
      {n : AttestationCommunity} (slot : Slot)
      → Reachable p n
      → genuine p
          (view_change_signing_bytes p slot.height (int slot.view))
          (lookup_or [] slot n.view_change_votes)
        ≡ keys (lookup_or [] slot n.view_change_votes)
  Reachable-genuine {n} slot run =
      genuine-keys p (statement p slot) (lookup_or [] slot n.view_change_votes)
        (lookup-AreGenuine p slot n.view_change_votes (Reachable-Sound run))
