-- ===== src/Community/Once.antt =====
-- A commit is relayed once (network/community.py, `_apply_commit`), so that gossip ends: a commit that is
-- on a block stays there as long as a node adopts no other chain.
use mathlib.Core.Path.{subst}
use mathlib.Core.Option.{some-injective}
use hs_fob.Base.{
  ◌≡◌, refl, sym, ap, ◌∙◌, Bool, true, false, ◌||◌, not, Option, none, some, List, [], ◌∷◌, ◌++◌,
  String, string_eq, nat_eq, ◌==◌, if◌then◌else◌, arith, eq_iff,
}
use hs_fob.Base.Dict.{insert, contains, lookup-insert}
use hs_fob.Base.Sets.{elem}
use hs_fob.Crypto
use hs_fob.Crypto.{Platform}
use hs_fob.Block
use hs_fob.Block.{Block}
use hs_fob.Chain.{Blockchain, validator_set}
use hs_fob.Community.{
  AttestationCommunity, to_all, send, commit_message, with_blocks, set_by_hash, find_block_by_hash,
  note_if_finalized, apply_commit,
}
use hs_fob.Community.Handlers.{on_commit}
use hs_fob.Community.Left.{
  on_commit_left, mine_and_broadcast_block_left, on_block_left, on_view_change_left,
  request_view_change_left,
}
use hs_fob.Community.Steps.{
  Step, pooled, mined, got_block, mining_raised, block_raised, commit_raised, view_change_raised,
  timeout_raised, got_chain_request, got_chain, got_commit, got_view_change, timed_out,
}
use hs_fob.Community.Relay.{voted, apply_commit-attached, find-set_by_hash, note_if_finalized-same}
use hs_fob.Community.Attached.{
  Extends, ExtendsIn, mine_and_broadcast_block-ExtendsIn, mine_and_broadcast_block_left-Extends,
  on_block-ExtendsIn, on_block_left-Extends,
}
use hs_fob.Community.Votes.{
  on_view_change-ExtendsIn, on_view_change_left-Extends, request_view_change-ExtendsIn,
  request_view_change_left-Extends,
}

-- a step that handles the chain of another node
abbrev pub adopts : {p : Platform} {n n' : AttestationCommunity} → Step p n n' → Bool
adopts (got_chain n blocks) = true
adopts (pooled n tx) = false
adopts (mined n n' view messages now e) = false
adopts (got_block n n' b raises e) = false
adopts (mining_raised n view messages now e) = false
adopts (block_raised n b raises e) = false
adopts (commit_raised n commit e) = false
adopts (view_change_raised n vote now e) = false
adopts (timeout_raised n height now e) = false
adopts (got_chain_request n) = false
adopts (got_commit n n' commit e) = false
adopts (got_view_change n n' vote now e) = false
adopts (timed_out n n' height now e) = false

-- The states that a node passes through while no chain of another node arrives
pub data Onward (p : Platform) (n : AttestationCommunity) : AttestationCommunity → Type 0 where
  here : Onward p n n
  next :
      {m m' : AttestationCommunity}
      → Onward p n m
      → (step : Step p m m') → adopts step ≡ false
      → Onward p n m'

module _ (p : Platform) (block_hash signer : String) where
  -- the signer's commit is on the block with this hash
  abbrev IsOn : List Block → Type 0
  IsOn blocks =
      (b : Block) × (find_block_by_hash p block_hash blocks ≡ some b)
      × (contains signer b.commit_signatures ≡ true)

  find-append :
      (blocks ws : List Block) (b : Block)
      → find_block_by_hash p block_hash blocks ≡ some b
      → find_block_by_hash p block_hash (blocks ++ ws) ≡ some b
  find-append [] ws b e = absurd (cc)
  find-append (x ∷ blocks) ws b e = of (Block.hash p x == block_hash) e (find-append blocks ws b)
    where
      of :
          (z : Bool)
          → (if z then some x else find_block_by_hash p block_hash blocks) ≡ some b
          → (find_block_by_hash p block_hash blocks ≡ some b
              → find_block_by_hash p block_hash (blocks ++ ws) ≡ some b)
          → (if z then some x else find_block_by_hash p block_hash (blocks ++ ws)) ≡ some b
      of true q rest = q
      of false q rest = rest q

  Extends-IsOn :
      (ys : List Block) (n : AttestationCommunity)
      → IsOn ys
      → Extends p ys n
      → IsOn n.blockchain.blocks
  Extends-IsOn ys n on k = subst IsOn (sym k.1) (on.0, find-append ys k.0 on.0 on.1, on.2)

  hash-voted :
      (other signature : String) (b : Block)
      → Block.hash p (voted p other signature b) ≡ Block.hash p b
  unfolding Block.hash Block.signing_bytes Block.header Block.merkle_root
  hash-voted other signature b = refl

  -- one more commit, by anyone and on any block
  set_by_hash-IsOn :
      (other_hash other signature : String) (b' : Block) (blocks : List Block)
      → find_block_by_hash p other_hash blocks ≡ some b'
      → IsOn blocks
      → IsOn (set_by_hash p other_hash (voted p other signature b') blocks)
  set_by_hash-IsOn other_hash other signature b' [] e on = absurd (cc)
  set_by_hash-IsOn other_hash other signature b' (x ∷ blocks) e (b, found, signed) =
      of (Block.hash p x == other_hash) (Block.hash p x == block_hash) refl e found
        (λ q f. set_by_hash-IsOn other_hash other signature b' blocks q (b, f, signed))
    where
      v : Block
      v = voted p other signature b'

      kept : b' ≡ b → contains signer v.commit_signatures ≡ true
      kept same =
          let there : contains signer b'.commit_signatures ≡ true =
            ap (λ (c : Block). contains signer c.commit_signatures) same ∙ signed in
          ground (arith, there, lookup-insert other signer signature b'.commit_signatures)

      of :
          (z' z : Bool)
          → (Block.hash p x == block_hash) ≡ z
          → (if z' then some x else find_block_by_hash p other_hash blocks) ≡ some b'
          → (if z then some x else find_block_by_hash p block_hash blocks) ≡ some b
          → (find_block_by_hash p other_hash blocks ≡ some b'
              → find_block_by_hash p block_hash blocks ≡ some b
              → IsOn (set_by_hash p other_hash v blocks))
          → IsOn (if z' then v ∷ blocks else x ∷ set_by_hash p other_hash v blocks)
      of true z h q f rest =
          let hashed : Block.hash p v ≡ Block.hash p x =
            hash-voted other signature b' ∙ ap (Block.hash p) (sym (some-injective _ _ q)) in
          let tested : (Block.hash p v == block_hash) ≡ z =
            ap (λ (t : String). t == block_hash) hashed ∙ h in
          first z tested f
        where
          first :
              (z : Bool)
              → (Block.hash p v == block_hash) ≡ z
              → (if z then some x else find_block_by_hash p block_hash blocks) ≡ some b
              → IsOn (v ∷ blocks)
          first true t f = (v, rw t refl, kept (sym (some-injective _ _ q) ∙ some-injective _ _ f))
          first false t f = (b, rw t f, signed)
      of false true h q f rest = (
        x,
        rw h refl,
        ap (λ (c : Block). contains signer c.commit_signatures) (some-injective _ _ f) ∙ signed,
      )
      of false false h q f rest = let (c, g, s) = rest q f in (c, rw h g, s)

  -- the same of what `_apply_commit` returns
  abbrev IsOnAfter : Option (AttestationCommunity × Bool) → Type 0
  IsOnAfter none = Unit
  IsOnAfter (some (n, new)) = IsOn n.blockchain.blocks

  apply_commit-IsOnAfter :
      (n : AttestationCommunity) (other_hash other signature : String)
      → IsOn n.blockchain.blocks
      → IsOnAfter (apply_commit p n other_hash other signature)
  unfolding apply_commit
  apply_commit-IsOnAfter n other_hash other signature on =
      of (find_block_by_hash p other_hash n.blockchain.blocks) refl
    where
      changed : Block → AttestationCommunity
      changed b =
          with_blocks (set_by_hash p other_hash (voted p other signature b) n.blockchain.blocks) n

      noted :
          (b : Block) (o : Option AttestationCommunity)
          → note_if_finalized p (changed b) (voted p other signature b) ≡ o
          → IsOn (changed b).blockchain.blocks
          → IsOnAfter (elim o [ none ↦ none | some m ↦ some (m, true) ])
      noted b none e k = tt
      noted b (some m) e k =
          subst (λ (c : Blockchain). IsOn c.blocks)
            (sym (note_if_finalized-same p (changed b) m (voted p other signature b) e)) k

      member :
          (b : Block)
          → find_block_by_hash p other_hash n.blockchain.blocks ≡ some b
          → (z : Bool)
          → IsOnAfter (
              if not z
              then some (n, false)
              else elim (note_if_finalized p (changed b) (voted p other signature b)) [
                | none ↦ none
                | some m ↦ some (m, true)
              ])
      member b e false = on
      member b e true =
          noted b (note_if_finalized p (changed b) (voted p other signature b)) refl
            (set_by_hash-IsOn other_hash other signature b n.blockchain.blocks e on)

      judged :
          (b : Block)
          → find_block_by_hash p other_hash n.blockchain.blocks ≡ some b
          → (z : Bool) (o : Option (List String))
          → IsOnAfter (
              if z then some (n, false) else elim o [
                | none ↦ none
                | some validators ↦
                    if not (elem other validators)
                    then some (n, false)
                    else elim (note_if_finalized p (changed b) (voted p other signature b)) [
                      | none ↦ none
                      | some m ↦ some (m, true)
                    ]
              ])
      judged b e true o = on
      judged b e false none = tt
      judged b e false (some validators) = member b e (elem other validators)

      of :
          (o : Option Block)
          → find_block_by_hash p other_hash n.blockchain.blocks ≡ o
          → IsOnAfter (elim o [
            | none ↦ some (n, false)
            | some b ↦
                if contains other b.commit_signatures
                  || not (Crypto.verify p other (Block.signing_bytes p b) signature)
                then some (n, false)
                else elim (validator_set p n.blockchain.blocks n.blockchain.genesis b.index) [
                  | none ↦ none
                  | some validators ↦
                      if not (elem other validators)
                      then some (n, false)
                      else elim (note_if_finalized p (changed b) (voted p other signature b)) [
                        | none ↦ none
                        | some m ↦ some (m, true)
                      ]
                ]
          ])
      of none e = on
      of (some b) e =
          judged b e
            (contains other b.commit_signatures
              || not (Crypto.verify p other (Block.signing_bytes p b) signature))
            (validator_set p n.blockchain.blocks n.blockchain.genesis b.index)

  on_commit-IsOn :
      (n n' : AttestationCommunity) (o : Option (String × (String × String)))
      → IsOn n.blockchain.blocks
      → on_commit p n o ≡ some n'
      → IsOn n'.blockchain.blocks
  unfolding on_commit
  on_commit-IsOn n n' none on e =
      subst (λ (m : AttestationCommunity). IsOn m.blockchain.blocks) (some-injective _ _ e) on
  on_commit-IsOn n n' (some (other_hash, (other, signature))) on e =
      of (apply_commit p n other_hash other signature)
        (apply_commit-IsOnAfter n other_hash other signature on) e
    where
      of :
          (o : Option (AttestationCommunity × Bool))
          → IsOnAfter o
          → elim o as (λ _. Option AttestationCommunity) [
            | none ↦ none
            | some (m, false) ↦ some m
            | some (m, true) ↦ some (send (to_all (commit_message other_hash other signature)) m)
          ]
            ≡ some n'
          → IsOn n'.blockchain.blocks
      of none k q = absurd (cc)
      of (some (m, false)) k q =
          subst (λ (m : AttestationCommunity). IsOn m.blockchain.blocks) (some-injective _ _ q) k
      of (some (m, true)) k q =
          subst (λ (m : AttestationCommunity). IsOn m.blockchain.blocks) (some-injective _ _ q) k

  on_commit_left-IsOn :
      (n : AttestationCommunity) (o : Option (String × (String × String)))
      → IsOn n.blockchain.blocks
      → IsOn (on_commit_left p n o).blockchain.blocks
  unfolding on_commit_left
  on_commit_left-IsOn n none on = on
  on_commit_left-IsOn n (some (other_hash, (other, signature))) on =
      of (find_block_by_hash p other_hash n.blockchain.blocks) refl
    where
      Kept : AttestationCommunity → Type 0
      Kept m = IsOn m.blockchain.blocks

      judged :
          (b : Block) (o : Option (List String))
          → find_block_by_hash p other_hash n.blockchain.blocks ≡ some b
          → Kept (elim o [
            | none ↦ n
            | some validators ↦
                with_blocks
                  (set_by_hash p other_hash (voted p other signature b) n.blockchain.blocks)
                  n
          ])
      judged b none e = on
      judged b (some validators) e =
          set_by_hash-IsOn other_hash other signature b n.blockchain.blocks e on

      of :
          (o : Option Block)
          → find_block_by_hash p other_hash n.blockchain.blocks ≡ o
          → Kept (elim o [
            | none ↦ n
            | some b ↦ elim (validator_set p n.blockchain.blocks n.blockchain.genesis b.index) [
              | none ↦ n
              | some validators ↦
                  with_blocks
                    (set_by_hash p other_hash (voted p other signature b) n.blockchain.blocks)
                    n
            ]
          ])
      of none e = on
      of (some b) e = judged b (validator_set p n.blockchain.blocks n.blockchain.genesis b.index) e

  grown :
      (n n' : AttestationCommunity) {o : Option AttestationCommunity}
      → IsOn n.blockchain.blocks
      → o ≡ some n'
      → ExtendsIn p n.blockchain.blocks o
      → IsOn n'.blockchain.blocks
  grown n n' on e k =
      Extends-IsOn n.blockchain.blocks n' on (subst (ExtendsIn p n.blockchain.blocks) e k)

  Step-IsOn :
      {n n' : AttestationCommunity} (step : Step p n n')
      → adopts step ≡ false
      → IsOn n.blockchain.blocks
      → IsOn n'.blockchain.blocks
  unfolding hs_fob.Community.Handlers.on_chain_request
  Step-IsOn (got_chain n blocks) a on = absurd (cc)
  Step-IsOn (pooled n tx) a on = on
  Step-IsOn (got_chain_request n) a on = on
  Step-IsOn (mined n n' view messages now e) a on =
      grown n n' on e (mine_and_broadcast_block-ExtendsIn p n view messages now)
  Step-IsOn (got_block n n' b raises e) a on = grown n n' on e (on_block-ExtendsIn p n b raises)
  Step-IsOn (got_view_change n n' vote now e) a on =
      grown n n' on e (on_view_change-ExtendsIn p n vote now)
  Step-IsOn (timed_out n n' height now e) a on =
      grown n n' on e (request_view_change-ExtendsIn p n height now)
  Step-IsOn (got_commit n n' commit e) a on = on_commit-IsOn n n' commit on e
  Step-IsOn (mining_raised n view messages now e) a on =
      Extends-IsOn n.blockchain.blocks (mine_and_broadcast_block_left p n view messages now) on
        (mine_and_broadcast_block_left-Extends p n view messages now)
  Step-IsOn (block_raised n b raises e) a on =
      Extends-IsOn n.blockchain.blocks (on_block_left p n b raises) on
        (on_block_left-Extends p n b raises)
  Step-IsOn (view_change_raised n vote now e) a on =
      Extends-IsOn n.blockchain.blocks (on_view_change_left p n vote now) on
        (on_view_change_left-Extends p n vote now)
  Step-IsOn (timeout_raised n height now e) a on =
      Extends-IsOn n.blockchain.blocks (request_view_change_left p n height now) on
        (request_view_change_left-Extends p n height now)
  Step-IsOn (commit_raised n commit e) a on = on_commit_left-IsOn n commit on

  Onward-IsOn :
      {n m : AttestationCommunity}
      → Onward p n m
      → IsOn n.blockchain.blocks
      → IsOn m.blockchain.blocks
  Onward-IsOn here on = on
  Onward-IsOn (next run step a) on = Step-IsOn step a (Onward-IsOn run on)

  -- A commit is relayed once while no chain of another node arrives. After a node has attached a
  -- signer's commit to a block, and whatever else it has handled since, exceptions included, a further
  -- commit by that signer for that block, with the same signature or another, leaves the node as it
  -- is, with nothing more sent.
  pub on_commit-once :
      (n n' m : AttestationCommunity) (signature other : String)
      → apply_commit p n block_hash signer signature ≡ some (n', true)
      → Onward p n' m
      → on_commit p m (some (block_hash, (signer, other))) ≡ some m
  unfolding on_commit apply_commit
  on_commit-once n n' m signature other e run =
      let (b, found, new, chain) = apply_commit-attached p n n' block_hash signer signature e in
      let again : find_block_by_hash p block_hash n'.blockchain.blocks
          ≡ some (voted p signer signature b) =
        ap (λ (c : Blockchain). find_block_by_hash p block_hash c.blocks) chain
        ∙ find-set_by_hash p block_hash b (voted p signer signature b) n.blockchain.blocks found
            (hash-voted signer signature b) in
      let attached : contains signer (insert signer signature b.commit_signatures) ≡ true =
        ground (
          arith,
          lookup-insert signer signer signature b.commit_signatures,
          eq_iff signer signer,
        ) in
      let (c, f, signed) = Onward-IsOn run (voted p signer signature b, again, attached) in
      rw (f, signed, on_commit, apply_commit) refl
