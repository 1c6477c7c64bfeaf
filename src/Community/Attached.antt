-- ===== src/Community/Attached.antt =====
-- A commit that is on a block stays there (network/community.py): what a node's handlers do to its chain,
-- while it adopts no other one.
use hs_fob.Base.{
  ◌≡◌, refl, ap, ◌∙◌, Bool, true, false, not, Option, none, some, List, [], ◌∷◌, ◌++◌, String,
  string_eq, nat_eq, ◌==◌, if◌then◌else◌, arith, keep, map,
}
use hs_fob.Base.Int.{ℤ, int_eq}
use hs_fob.Base.Dict.{Dict, contains, lookup_or}
use hs_fob.Base.Sets.{elem}
use hs_fob.Values.{Value}
use hs_fob.Crypto.{Platform}
use hs_fob.Transaction
use hs_fob.Block
use hs_fob.Block.{Block, add_commit_signature, view_change_signing_bytes}
use hs_fob.Chain.{Blockchain, validator_set, add_block, last_block}
use hs_fob.Validity.{is_valid_chain}
use hs_fob.Community.{
  AttestationCommunity, slot_eq, returned, raised, to_all, to_peer, send, commit_message,
  block_message, chain_request, with_blocks, set_last, note_if_finalized, validator_pubkey,
  commit_if_validator, try_append_block,
}
use hs_fob.Community.Handlers.{mine_and_broadcast_block, on_block, settled}
use hs_fob.Community.Left.{commit_if_validator_left, mine_and_broadcast_block_left, on_block_left}
use hs_fob.Community.Relay.{note_if_finalized-same}

set_last-append : (x y : Block) (xs : List Block) → set_last x (xs ++ y ∷ []) ≡ xs ++ x ∷ []
set_last-append x y [] = refl
set_last-append x y (z ∷ []) = refl
set_last-append x y (z ∷ w ∷ xs) = ap (λ (l : List Block). z ∷ l) (set_last-append x y (w ∷ xs))

append_none : (xs : List Block) → xs ≡ xs ++ []
append_none [] = refl
append_none (x ∷ xs) = ap (λ (l : List Block). x ∷ l) (append_none xs)

module _ (p : Platform) where
  -- `n` has the chain `ys`, and perhaps more blocks on it
  abbrev pub Extends : List Block → AttestationCommunity → Type 0
  Extends ys n = (ws : List Block) × (n.blockchain.blocks ≡ ys ++ ws)

  abbrev pub ExtendsIn : List Block → Option AttestationCommunity → Type 0
  ExtendsIn ys none = Unit
  ExtendsIn ys (some n) = Extends ys n

  note_if_finalized-ExtendsIn :
      (ys : List Block) (n : AttestationCommunity) (b : Block)
      → Extends ys n
      → ExtendsIn ys (note_if_finalized p n b)
  note_if_finalized-ExtendsIn ys n b k = of (note_if_finalized p n b) refl
    where
      of : (o : Option AttestationCommunity) → note_if_finalized p n b ≡ o → ExtendsIn ys o
      of none e = tt
      of (some m) e =
          (k.0, ap (λ (c : Blockchain). c.blocks) (note_if_finalized-same p n m b e) ∙ k.1)

  commit_if_validator-ExtendsIn :
      (ys : List Block) (n : AttestationCommunity) (b last : Block)
      → n.blockchain.blocks ≡ ys ++ last ∷ []
      → ExtendsIn ys (commit_if_validator p n b)
  unfolding commit_if_validator
  commit_if_validator-ExtendsIn ys n b last k =
      first (b.index == 0) (validator_set p n.blockchain.blocks n.blockchain.genesis b.index)
    where
      voted : Block
      voted = add_commit_signature p n.producer_key b

      changed : AttestationCommunity
      changed =
          send
            (to_all (
              commit_message (Block.hash p b) (validator_pubkey p n)
                (lookup_or "" (validator_pubkey p n) voted.commit_signatures)))
            (with_blocks (set_last voted n.blockchain.blocks) n)

      changed-Extends : Extends ys changed
      changed-Extends = (voted ∷ [], ap (set_last voted) k ∙ set_last-append voted last ys)

      member :
          (z old : Bool)
          → ExtendsIn ys
              (if not z then some n else if old then some n else note_if_finalized p changed voted)
      member false old = (last ∷ [], k)
      member true true = (last ∷ [], k)
      member true false = note_if_finalized-ExtendsIn ys changed voted changed-Extends

      first :
          (z : Bool) (o : Option (List String))
          → ExtendsIn ys (
              if z then some n else elim o [
                | none ↦ none
                | some validators ↦
                    if not (elem (validator_pubkey p n) validators)
                    then some n
                    else if contains (validator_pubkey p n) b.commit_signatures
                    then some n
                    else note_if_finalized p changed voted
              ])
      first true o = (last ∷ [], k)
      first false none = tt
      first false (some validators) =
          member (elem (validator_pubkey p n) validators)
            (contains (validator_pubkey p n) b.commit_signatures)

  pub mine_and_broadcast_block-ExtendsIn :
      (n : AttestationCommunity) (view : ℤ) (messages : Dict String String) (now : Value)
      → ExtendsIn n.blockchain.blocks (mine_and_broadcast_block p n view messages now)
  unfolding mine_and_broadcast_block add_block
  mine_and_broadcast_block-ExtendsIn n view messages now =
      sent_on _ (commit_if_validator-ExtendsIn n.blockchain.blocks _ _ _ refl)
    where
      sent_on :
          (o : Option AttestationCommunity)
          → ExtendsIn n.blockchain.blocks o
          → ExtendsIn n.blockchain.blocks (elim o [
            | none ↦ none
            | some m ↦ some (send (to_all (block_message (last_block m.blockchain))) m)
          ])
      sent_on none h = tt
      sent_on (some m) h = h

  pub on_block-ExtendsIn :
      (n : AttestationCommunity) (o : Option Block) (raises : Bool)
      → ExtendsIn n.blockchain.blocks (on_block p n o raises)
  unfolding on_block try_append_block
  on_block-ExtendsIn n none raises = ([], append_none n.blockchain.blocks)
  on_block-ExtendsIn n (some b) raises =
      of (is_valid_chain p (record n.blockchain { blocks = n.blockchain.blocks ++ b ∷ [] })) raises
    where
      longer : Blockchain
      longer = record n.blockchain { blocks = n.blockchain.blocks ++ b ∷ [] }

      grown : AttestationCommunity
      grown = record n {
        blockchain = record longer {
          mempool =
              keep
                (λ tx. not (elem (Transaction.hash p tx) (map (Transaction.hash p) b.transactions)))
                longer.mempool;
        };
      }

      settled_blocks : (settled p b grown).blockchain.blocks ≡ n.blockchain.blocks ++ b ∷ []
      settled_blocks = ground arith

      noted :
          (o : Option AttestationCommunity)
          → ExtendsIn n.blockchain.blocks o
          → ExtendsIn n.blockchain.blocks
              (elim o [ none ↦ none | some m ↦ note_if_finalized p m (last_block m.blockchain) ])
      noted none h = tt
      noted (some m) h =
          note_if_finalized-ExtendsIn n.blockchain.blocks m (last_block m.blockchain) h

      of :
          (valid raises : Bool)
          → ExtendsIn n.blockchain.blocks
              (elim (if valid
                  then returned grown true
                  else if raises
                  then raised (record n { blockchain = longer })
                  else returned n false)
                as (λ _. Option AttestationCommunity) [
                  | raised m ↦ none
                  | returned m false ↦ some (send (to_peer chain_request) m)
                  | returned m true ↦ elim (commit_if_validator p (settled p b m) b) [
                    | none ↦ none
                    | some m' ↦ note_if_finalized p m' (last_block m'.blockchain)
                  ]
                ])
      of true raises =
          noted (commit_if_validator p (settled p b grown) b) (
            commit_if_validator-ExtendsIn n.blockchain.blocks (settled p b grown) b b
              settled_blocks)
      of false true = tt
      of false false = ([], append_none n.blockchain.blocks)

  -- the cases that the handlers of votes share
  pub extends : (n : AttestationCommunity) → Extends n.blockchain.blocks n
  extends n = ([], append_none n.blockchain.blocks)

  commit_if_validator_left-Extends :
      (ys : List Block) (n : AttestationCommunity) (b last : Block)
      → n.blockchain.blocks ≡ ys ++ last ∷ []
      → Extends ys (commit_if_validator_left p n b)
  unfolding commit_if_validator_left
  commit_if_validator_left-Extends ys n b last k =
      of (validator_set p n.blockchain.blocks n.blockchain.genesis b.index)
    where
      voted : Block
      voted = add_commit_signature p n.producer_key b

      of :
          (o : Option (List String))
          → Extends ys (elim o [
            | none ↦ n
            | some validators ↦
                send
                  (to_all (
                    commit_message
                      (Block.hash p b)
                      (validator_pubkey p n)
                      (lookup_or "" (validator_pubkey p n) voted.commit_signatures)))
                  (with_blocks (set_last voted n.blockchain.blocks) n)
          ])
      of none = (last ∷ [], k)
      of (some validators) = (voted ∷ [], ap (set_last voted) k ∙ set_last-append voted last ys)

  pub mine_and_broadcast_block_left-Extends :
      (n : AttestationCommunity) (view : ℤ) (messages : Dict String String) (now : Value)
      → Extends n.blockchain.blocks (mine_and_broadcast_block_left p n view messages now)
  unfolding mine_and_broadcast_block_left add_block
  mine_and_broadcast_block_left-Extends n view messages now =
      commit_if_validator_left-Extends n.blockchain.blocks _ _ _ refl

  pub on_block_left-Extends :
      (n : AttestationCommunity) (o : Option Block) (raises : Bool)
      → Extends n.blockchain.blocks (on_block_left p n o raises)
  unfolding on_block_left try_append_block
  on_block_left-Extends n none raises = extends n
  on_block_left-Extends n (some b) raises =
      of (is_valid_chain p (record n.blockchain { blocks = n.blockchain.blocks ++ b ∷ [] })) raises
    where
      longer : Blockchain
      longer = record n.blockchain { blocks = n.blockchain.blocks ++ b ∷ [] }

      grown : AttestationCommunity
      grown = record n {
        blockchain = record longer {
          mempool =
              keep
                (λ tx. not (elem (Transaction.hash p tx) (map (Transaction.hash p) b.transactions)))
                longer.mempool;
        };
      }

      settled_blocks : (settled p b grown).blockchain.blocks ≡ n.blockchain.blocks ++ b ∷ []
      settled_blocks = ground arith

      noted :
          (o : Option AttestationCommunity)
          → ExtendsIn n.blockchain.blocks o
          → Extends n.blockchain.blocks
              (elim o [ none ↦ commit_if_validator_left p (settled p b grown) b | some m ↦ m ])
      noted none h =
          commit_if_validator_left-Extends n.blockchain.blocks (settled p b grown) b b
            settled_blocks
      noted (some m) h = h

      of :
          (valid raises : Bool)
          → Extends n.blockchain.blocks
              (elim (if valid
                  then returned grown true
                  else if raises
                  then raised (record n { blockchain = longer })
                  else returned n false)
                as (λ _. AttestationCommunity) [
                  | raised m ↦ m
                  | returned m false ↦ m
                  | returned m true ↦ elim (commit_if_validator p (settled p b m) b) [
                    | none ↦ commit_if_validator_left p (settled p b m) b
                    | some m' ↦ m'
                  ]
                ])
      of true raises =
          noted (commit_if_validator p (settled p b grown) b) (
            commit_if_validator-ExtendsIn n.blockchain.blocks (settled p b grown) b b
              settled_blocks)
      of false true = (b ∷ [], refl)
      of false false = extends n
