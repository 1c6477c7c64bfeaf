-- ===== src/Community/Relay.antt =====
-- What a commit that is newly attached leaves (network/community.py, `_apply_commit`).
use mathlib.Core.Option.{some-injective}
use hs_fob.Base.{
  ◌≡◌, refl, sym, ap, ◌∙◌, Bool, true, false, ◌||◌, not, Option, none, some, List, [], ◌∷◌, String,
  string_eq, nat_eq, ◌==◌, if◌then◌else◌, eq_iff,
}
use hs_fob.Base.Dict.{insert, contains}
use hs_fob.Base.Sets.{elem, add}
use hs_fob.Crypto
use hs_fob.Crypto.{Platform}
use hs_fob.Block
use hs_fob.Block.{Block}
use hs_fob.Chain.{validator_set, is_final}
use hs_fob.Community.{
  AttestationCommunity, find_block_by_hash, set_by_hash, with_blocks, note_if_finalized,
  apply_commit,
}

module _ (p : Platform) where
  abbrev pub voted : String → String → Block → Block
  voted signer signature b = record b {
    commit_signatures = insert signer signature b.commit_signatures;
  }

  pub note_if_finalized-same :
      (n n' : AttestationCommunity) (b : Block)
      → note_if_finalized p n b ≡ some n'
      → n'.blockchain ≡ n.blockchain
  unfolding note_if_finalized
  note_if_finalized-same n n' b e =
      of (elem (Block.hash p b) n.finalized_announced) (is_final p n.blockchain b) e
    where
      same :
          (m : AttestationCommunity)
          → m.blockchain ≡ n.blockchain
          → some m ≡ some n'
          → n'.blockchain ≡ n.blockchain
      same m k q = ap AttestationCommunity.blockchain (sym (some-injective _ _ q)) ∙ k

      of :
          (z : Bool) (o : Option Bool)
          → (if z then some n else elim o [
            | none ↦ none
            | some false ↦ some n
            | some true ↦
                some (record n { finalized_announced = add (Block.hash p b) n.finalized_announced })
          ])
            ≡ some n'
          → n'.blockchain ≡ n.blockchain
      of true o q = same n refl q
      of false none q = absurd (cc)
      of false (some false) q = same n refl q
      of false (some true) q = same _ refl q

  -- where the changed block is found again
  pub find-set_by_hash :
      (block_hash : String) (b b' : Block) (blocks : List Block)
      → find_block_by_hash p block_hash blocks ≡ some b
      → Block.hash p b' ≡ Block.hash p b
      → find_block_by_hash p block_hash (set_by_hash p block_hash b' blocks) ≡ some b'
  find-set_by_hash block_hash b b' [] e same = absurd (cc)
  find-set_by_hash block_hash b b' (x ∷ blocks) e same =
      of (Block.hash p x == block_hash) refl e (λ q. find-set_by_hash block_hash b b' blocks q same)
    where
      of :
          (z : Bool)
          → (Block.hash p x == block_hash) ≡ z
          → (if z then some x else find_block_by_hash p block_hash blocks) ≡ some b
          → (find_block_by_hash p block_hash blocks ≡ some b
              → find_block_by_hash p block_hash (set_by_hash p block_hash b' blocks) ≡ some b')
          → find_block_by_hash p block_hash
              (if z then b' ∷ blocks else x ∷ set_by_hash p block_hash b' blocks)
            ≡ some b'
      of true h q rest =
          let hashed : Block.hash p b' ≡ block_hash =
            same
            ∙ ap (Block.hash p) (sym (some-injective _ _ q))
            ∙ (eq_iff (Block.hash p x) block_hash).0 h in
          rw ((eq_iff (Block.hash p b') block_hash).1 hashed) refl
      of false h q rest = rw h (rest q)

  -- what a newly attached commit leaves
  pub apply_commit-attached :
      (n n' : AttestationCommunity) (block_hash signer signature : String)
      → apply_commit p n block_hash signer signature ≡ some (n', true)
      → (b : Block) × (find_block_by_hash p block_hash n.blockchain.blocks ≡ some b)
        × (contains signer b.commit_signatures ≡ false)
        × (n'.blockchain ≡ record n.blockchain {
          blocks = set_by_hash p block_hash (voted signer signature b) n.blockchain.blocks;
        })
  unfolding apply_commit
  apply_commit-attached n n' block_hash signer signature e =
      of (find_block_by_hash p block_hash n.blockchain.blocks) refl e
    where
      Result : Type 0
      Result =
          (b : Block) × (find_block_by_hash p block_hash n.blockchain.blocks ≡ some b)
          × (contains signer b.commit_signatures ≡ false)
          × (n'.blockchain ≡ record n.blockchain {
            blocks = set_by_hash p block_hash (voted signer signature b) n.blockchain.blocks;
          })

      Is : Option (AttestationCommunity × Bool) → Type 0
      Is r = r ≡ some (n', true)

      refused : Is (some (n, false)) → Result
      refused q =
          let flag : false ≡ true =
            ap (λ (r : AttestationCommunity × Bool). r.1) (some-injective _ _ q) in
          absurd (cc)

      changed : Block → AttestationCommunity
      changed b =
          with_blocks (set_by_hash p block_hash (voted signer signature b) n.blockchain.blocks) n

      noted :
          (b : Block) (o : Option AttestationCommunity)
          → note_if_finalized p (changed b) (voted signer signature b) ≡ o
          → find_block_by_hash p block_hash n.blockchain.blocks ≡ some b
          → contains signer b.commit_signatures ≡ false
          → Is (elim o [ none ↦ none | some m ↦ some (m, true) ])
          → Result
      noted b none k f c q = absurd (cc)
      noted b (some m) k f c q =
          let same : m ≡ n' =
            ap (λ (r : AttestationCommunity × Bool). r.0) (some-injective _ _ q) in
          (
            b,
            f,
            c,
            ap AttestationCommunity.blockchain (sym same)
                ∙ note_if_finalized-same (changed b) m (voted signer signature b) k,
          )

      judged :
          (b : Block) (o : Option (List String))
          → find_block_by_hash p block_hash n.blockchain.blocks ≡ some b
          → contains signer b.commit_signatures ≡ false
          → Is (elim o [
            | none ↦ none
            | some validators ↦
                if not (elem signer validators)
                then some (n, false)
                else elim (note_if_finalized p (changed b) (voted signer signature b)) [
                  | none ↦ none
                  | some m ↦ some (m, true)
                ]
          ])
          → Result
      judged b none f c q = absurd (cc)
      judged b (some validators) f c q = member (elem signer validators) q
        where
          member :
              (z : Bool)
              → Is (
                  if not z
                  then some (n, false)
                  else elim (note_if_finalized p (changed b) (voted signer signature b)) [
                    | none ↦ none
                    | some m ↦ some (m, true)
                  ])
              → Result
          member false q = refused q
          member true q = noted b _ refl f c q

      of :
          (o : Option Block)
          → find_block_by_hash p block_hash n.blockchain.blocks ≡ o
          → Is (elim o [
            | none ↦ some (n, false)
            | some b ↦
                if contains signer b.commit_signatures
                  || not (Crypto.verify p signer (Block.signing_bytes p b) signature)
                then some (n, false)
                else elim (validator_set p n.blockchain.blocks n.blockchain.genesis b.index) [
                  | none ↦ none
                  | some validators ↦
                      if not (elem signer validators)
                      then some (n, false)
                      else elim (note_if_finalized p (changed b) (voted signer signature b)) [
                        | none ↦ none
                        | some m ↦ some (m, true)
                      ]
                ]
          ])
          → Result
      of none f q = refused q
      of (some b) f q =
          dropped (contains signer b.commit_signatures)
            (Crypto.verify p signer (Block.signing_bytes p b) signature) refl q
        where
          dropped :
              (old valid : Bool)
              → contains signer b.commit_signatures ≡ old
              → Is (
                  if old || not valid
                  then some (n, false)
                  else elim (validator_set p n.blockchain.blocks n.blockchain.genesis b.index) [
                    | none ↦ none
                    | some validators ↦
                        if not (elem signer validators)
                        then some (n, false)
                        else elim (note_if_finalized p (changed b) (voted signer signature b)) [
                          | none ↦ none
                          | some m ↦ some (m, true)
                        ]
                  ])
              → Result
          dropped true valid c q = refused q
          dropped false false c q = refused q
          dropped false true c q =
              judged b (validator_set p n.blockchain.blocks n.blockchain.genesis b.index) f c q
