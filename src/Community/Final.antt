-- ===== src/Community/Final.antt =====
-- The commit round loses no finality (network/community.py, `_apply_commit`).
use mathlib.Core.Option.{some-injective}
use mathlib.Core.Path.{subst}
use hs_fob.Base.{
  ℕ, zero, suc, ◌≤◌, ◌≡◌, refl, sym, ap, ◌∙◌, Bool, true, false, ◌⊎◌, inl, inr, Option, none, some,
  List, [], ◌∷◌, String, string_eq, nat_eq, ◌==◌, if◌then◌else◌, arith, length, get_elem?,
}
use hs_fob.Base.Dict.{Dict, insert, contains}
use hs_fob.Base.Sets.{inter}
use hs_fob.Crypto.{Platform}
use hs_fob.Block
use hs_fob.Block.{Block, genuine, commit_signers}
use hs_fob.Chain.{Blockchain, validator_set, has_quorum, is_final}
use hs_fob.Chain.Alike.{AreAlike, validator_set-alike}
use hs_fob.Community.{AttestationCommunity, find_block_by_hash, set_by_hash, apply_commit}
use hs_fob.Community.Relay.{voted, apply_commit-attached}

AreAlike-refl : (blocks : List Block) → AreAlike blocks blocks
AreAlike-refl [] = tt
AreAlike-refl (b ∷ blocks) = (refl, refl, AreAlike-refl blocks)

module _ (p : Platform) where
  -- one more vote takes no signer away
  inter-genuine-insert :
      (message signer signature : String) (d : Dict String String) (validators : List String)
      → contains signer d ≡ false
      → length (inter (genuine p message d) validators)
        ≤ length (inter (genuine p message (insert signer signature d)) validators)
  inter-genuine-insert message signer signature [] validators new = omega arith
  inter-genuine-insert message signer signature ((k, w) ∷ d) validators new =
      ground (arith, new, inter-genuine-insert message signer signature d validators)

  has_quorum-voted :
      (b : Block) (signer signature : String) (validators : List String)
      → contains signer b.commit_signatures ≡ false
      → has_quorum p b validators ≡ true
      → has_quorum p (voted p signer signature b) validators ≡ true
  unfolding has_quorum commit_signers Block.signing_bytes Block.header Block.merkle_root
  has_quorum-voted b signer signature validators new h = ground (
    arith,
    h,
    inter-genuine-insert (Block.signing_bytes p b) signer signature b.commit_signatures validators
        new,
  )

  module _ (block_hash : String) (b b' : Block) (hashed : Block.hash p b' ≡ Block.hash p b)
      (place : b'.index ≡ b.index) (content : b'.transactions ≡ b.transactions) where
    set_by_hash-AreAlike :
        (blocks : List Block)
        → find_block_by_hash p block_hash blocks ≡ some b
        → AreAlike (set_by_hash p block_hash b' blocks) blocks
    set_by_hash-AreAlike [] e = absurd (cc)
    set_by_hash-AreAlike (x ∷ blocks) e =
        of (Block.hash p x == block_hash) e (λ q. set_by_hash-AreAlike blocks q)
      where
        of :
            (z : Bool)
            → (if z then some x else find_block_by_hash p block_hash blocks) ≡ some b
            → (find_block_by_hash p block_hash blocks ≡ some b
                → AreAlike (set_by_hash p block_hash b' blocks) blocks)
            → AreAlike
                (if z then b' ∷ blocks else x ∷ set_by_hash p block_hash b' blocks)
                (x ∷ blocks)
        of true q rest =
            let same : x ≡ b = some-injective _ _ q in
            (
              place ∙ ap Block.index (sym same),
              content ∙ ap Block.transactions (sym same),
              AreAlike-refl blocks,
            )
        of false q rest = (refl, refl, rest q)

    -- what stands at a place afterwards
    set_by_hash-at :
        (blocks : List Block) (i : ℕ) (x : Block)
        → find_block_by_hash p block_hash blocks ≡ some b
        → get_elem? blocks i ≡ some x
        → (get_elem? (set_by_hash p block_hash b' blocks) i ≡ some x)
          ⊎ ((get_elem? (set_by_hash p block_hash b' blocks) i ≡ some b') × (x ≡ b))
    set_by_hash-at [] i x e at_i = absurd (cc)
    set_by_hash-at (y ∷ blocks) i x e at_i =
        of (Block.hash p y == block_hash) i e at_i (λ k q r. set_by_hash-at blocks k x q r)
      where
        of :
            (z : Bool) (i : ℕ)
            → (if z then some y else find_block_by_hash p block_hash blocks) ≡ some b
            → get_elem? (y ∷ blocks) i ≡ some x
            → ((k : ℕ)
                → find_block_by_hash p block_hash blocks ≡ some b
                → get_elem? blocks k ≡ some x
                → (get_elem? (set_by_hash p block_hash b' blocks) k ≡ some x)
                  ⊎ ((get_elem? (set_by_hash p block_hash b' blocks) k ≡ some b') × (x ≡ b)))
            → (get_elem? (if z then b' ∷ blocks else y ∷ set_by_hash p block_hash b' blocks) i
                ≡ some x)
              ⊎ ((get_elem? (if z then b' ∷ blocks else y ∷ set_by_hash p block_hash b' blocks) i
                    ≡ some b')
                  × (x ≡ b))
        of true zero q r rest = inr (refl, sym (some-injective _ _ r) ∙ some-injective _ _ q)
        of true (suc k) q r rest = inl r
        of false zero q r rest = inl r
        of false (suc k) q r rest = rest k q r

  -- the end of `is_final`, by the validators
  abbrev decided : Block → Option (List String) → Option Bool
  decided b o =
      if b.index == 0
      then some true
      else elim o [ none ↦ none | some validators ↦ some (has_quorum p b validators) ]

  is_final-alike :
      (c : Blockchain) (blocks : List Block) (x : Block)
      → AreAlike blocks c.blocks
      → is_final p (record c { blocks = blocks }) x ≡ is_final p c x
  unfolding is_final
  is_final-alike c blocks x h =
      ap (decided x) (validator_set-alike p blocks c.blocks h c.genesis x.index)

  is_final-voted :
      (c : Blockchain) (b : Block) (signer signature : String)
      → contains signer b.commit_signatures ≡ false
      → is_final p c b ≡ some true
      → is_final p c (voted p signer signature b) ≡ some true
  unfolding is_final
  is_final-voted c b signer signature new e =
      of (b.index == 0) (validator_set p c.blocks c.genesis b.index) e
    where
      of :
          (z : Bool) (o : Option (List String))
          → (if z
              then some true
              else elim o [ none ↦ none | some validators ↦ some (has_quorum p b validators) ])
            ≡ some true
          → (if z then some true else elim o [
            | none ↦ none
            | some validators ↦ some (has_quorum p (voted p signer signature b) validators)
          ])
            ≡ some true
      of true o q = refl
      of false none q = absurd (cc)
      of false (some validators) q =
          ap some (has_quorum-voted b signer signature validators new (some-injective _ _ q))

  -- A commit takes no finality away: when a node attaches a commit, each block that was final in its chain
  -- stands there with the same hash, and is final, afterwards.
  pub apply_commit-keeps_final :
      (n n' : AttestationCommunity) (block_hash signer signature : String) (i : ℕ) (x : Block)
      → apply_commit p n block_hash signer signature ≡ some (n', true)
      → get_elem? n.blockchain.blocks i ≡ some x
      → is_final p n.blockchain x ≡ some true
      → (x' : Block) × (get_elem? n'.blockchain.blocks i ≡ some x')
        × (Block.hash p x' ≡ Block.hash p x)
        × (is_final p n'.blockchain x' ≡ some true)
  unfolding Block.hash Block.signing_bytes Block.header Block.merkle_root
  apply_commit-keeps_final n n' block_hash signer signature i x e at_i final =
      let (b, found, new, chain) = apply_commit-attached p n n' block_hash signer signature e in
      of b found new chain
    where
      Result : Blockchain → Type 0
      Result c =
          (x' : Block) × (get_elem? c.blocks i ≡ some x')
          × (Block.hash p x' ≡ Block.hash p x)
          × (is_final p c x' ≡ some true)

      of :
          (b : Block)
          → find_block_by_hash p block_hash n.blockchain.blocks ≡ some b
          → contains signer b.commit_signatures ≡ false
          → n'.blockchain ≡ record n.blockchain {
            blocks = set_by_hash p block_hash (voted p signer signature b) n.blockchain.blocks;
          }
          → Result n'.blockchain
      of b found new chain =
          let b' = voted p signer signature b in
          let blocks = set_by_hash p block_hash b' n.blockchain.blocks in
          let alike : AreAlike blocks n.blockchain.blocks =
            set_by_hash-AreAlike block_hash b b' refl refl refl n.blockchain.blocks found in
          subst Result (sym chain)
            (elim (set_by_hash-at block_hash b b' refl refl refl n.blockchain.blocks i x found
              at_i) [
                | inl there ↦ (x, there, refl, is_final-alike n.blockchain blocks x alike ∙ final)
                | inr (there, same) ↦ (
                  b',
                  there,
                  ap (Block.hash p) (sym same),
                  is_final-alike n.blockchain blocks b' alike
                      ∙ is_final-voted n.blockchain b signer signature new
                          (ap (is_final p n.blockchain) (sym same) ∙ final),
                )
              ])
