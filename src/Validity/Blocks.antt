-- ===== src/Validity/Blocks.antt =====
-- Every block of a valid chain is proper (blockchain/blockchain.py, `is_valid_chain`), and the chain's
-- promotions are those that `_replay_promotions` finds.
use mathlib.Core.Option.{some-injective}
use mathlib.Core.Path.{subst}
use hs_fob.Base.{
  ℕ, zero, suc, ◌+◌, ◌≡◌, refl, sym, ap, ◌∙◌, Bool, true, false, Option, none, some, List, [], ◌∷◌,
  String, string_eq, ◌==◌, if◌then◌else◌, arith, get_elem?, length,
}
use hs_fob.Crypto.{Platform}
use hs_fob.Block
use hs_fob.Block.{Block}
use hs_fob.Derive.{derive_registry}
use hs_fob.Economy.{derive_balances}
use hs_fob.Chain.{Blockchain, validator_set, replay_promotions, promotion_rounds, genesis_block}
use hs_fob.Validity.{Carried, start, accept_block, accept_blocks, validated, is_valid_chain}
use hs_fob.Validity.Accepted.{IsProper, Tracks, no_promotions, accept_block-step}

module _ (p : Platform) (c : Blockchain) where
  -- proper, by the validators that `validator_set` gives
  abbrev pub IsProperAt : ℕ → Block → Block → Type 0
  IsProperAt i previous b =
      (validators : List String) × (validator_set p c.blocks c.genesis i ≡ some validators)
      × IsProper p i previous b validators

  accept_blocks-proper :
      (rest : List Block) (i : ℕ) (s : Carried) (previous : Block) {t : Carried}
      → Tracks p c.blocks c.genesis (suc i) s
      → ((k : ℕ) → get_elem? c.blocks (i + k) ≡ get_elem? (previous ∷ rest) k)
      → accept_blocks p c.blocks c.genesis c.endowments (suc i) s previous rest ≡ some t
      → Tracks p c.blocks c.genesis (suc i + length rest) t
        × ((k : ℕ) (a b : Block)
            → get_elem? (previous ∷ rest) k ≡ some a
            → get_elem? rest k ≡ some b
            → IsProperAt (suc i + k) a b)
  unfolding accept_blocks
  accept_blocks-proper [] i s previous {t} track here e = (
    subst (λ (k : ℕ). Tracks p c.blocks c.genesis k t) (omega arith)
        (subst (λ (z : Carried). Tracks p c.blocks c.genesis (suc i) z) (some-injective _ _ e)
          track),
    λ k a b ha hb. absurd (cc),
  )
  accept_blocks-proper (x ∷ rest) i s previous {t} track here e =
      of
        (accept_block p c.blocks (suc i) s previous x (derive_registry p c.blocks (suc i) c.genesis)
          (derive_balances p c.blocks (suc i) c.endowments c.genesis))
        refl
        (λ s' track' q.
          accept_blocks-proper rest (suc i) s' x track'
            (λ k. ap (get_elem? c.blocks) (omega arith) ∙ here (suc k)) q)
        e
    where
      found : get_elem? c.blocks (suc i) ≡ some x
      found = ap (get_elem? c.blocks) (omega arith) ∙ here 1

      of :
          (o : Option Carried)
          → accept_block p c.blocks
              (suc i)
              s
              previous
              x
              (derive_registry p c.blocks (suc i) c.genesis)
              (derive_balances p c.blocks (suc i) c.endowments c.genesis)
            ≡ o
          → ((s' : Carried)
              → Tracks p c.blocks c.genesis (suc (suc i)) s'
              → accept_blocks p c.blocks c.genesis c.endowments (suc (suc i)) s' x rest ≡ some t
              → Tracks p c.blocks c.genesis (suc (suc i) + length rest) t
                × ((k : ℕ) (a b : Block)
                    → get_elem? (x ∷ rest) k ≡ some a
                    → get_elem? rest k ≡ some b
                    → IsProperAt (suc (suc i) + k) a b))
          → elim o [
            | none ↦ none
            | some s' ↦ accept_blocks p c.blocks c.genesis c.endowments (suc (suc i)) s' x rest
          ]
            ≡ some t
          → Tracks p c.blocks c.genesis (suc i + length (x ∷ rest)) t
            × ((k : ℕ) (a b : Block)
                → get_elem? (previous ∷ x ∷ rest) k ≡ some a
                → get_elem? (x ∷ rest) k ≡ some b
                → IsProperAt (suc i + k) a b)
      of none step next q = absurd (cc)
      of (some s') step next q =
          let (track', good) = accept_block-step p c i s s' previous x track found step in
          let (last, others) = next s' track' q in
          (
            subst (λ (k : ℕ). Tracks p c.blocks c.genesis k t) (omega arith) last,
            λ k a b ha hb. at_place k a b good others ha hb,
          )
        where
          at_place :
              (k : ℕ) (a b : Block)
              → IsProperAt (suc i) previous x
              → ((k : ℕ) (a b : Block)
                  → get_elem? (x ∷ rest) k ≡ some a
                  → get_elem? rest k ≡ some b
                  → IsProperAt (suc (suc i) + k) a b)
              → get_elem? (previous ∷ x ∷ rest) k ≡ some a
              → get_elem? (x ∷ rest) k ≡ some b
              → IsProperAt (suc i + k) a b
          at_place zero a b good others ha hb =
              subst (λ (n : ℕ). IsProperAt n a b) (omega arith)
                (subst (λ (y : Block). IsProperAt (suc i) a y) (some-injective _ _ hb)
                  (subst (λ (y : Block). IsProperAt (suc i) y x) (some-injective _ _ ha) good))
          at_place (suc k) a b good others ha hb =
              subst (λ (n : ℕ). IsProperAt n a b) (omega arith) (others k a b ha hb)

  accepted_chain :
      (l : List Block) {t : Carried}
      → c.blocks ≡ l
      → validated p c l ≡ some t
      → Tracks p c.blocks c.genesis (length c.blocks) t
        × ((k : ℕ) (a b : Block)
            → get_elem? c.blocks k ≡ some a
            → get_elem? c.blocks (suc k) ≡ some b
            → IsProperAt (suc k) a b)
  unfolding validated promotion_rounds
  accepted_chain [] same e = absurd (cc)
  accepted_chain (first ∷ rest) {t} same e = of (Block.hash p first == Block.hash p genesis_block) e
    where
      at_start : Tracks p c.blocks c.genesis 1 start
      at_start = record { state = no_promotions; run = refl; promoted = refl; effects = refl }

      of :
          (z : Bool)
          → (if z
              then accept_blocks p (first ∷ rest) c.genesis c.endowments 1 start first rest
              else none)
            ≡ some t
          → Tracks p c.blocks c.genesis (length c.blocks) t
            × ((k : ℕ) (a b : Block)
                → get_elem? c.blocks k ≡ some a
                → get_elem? c.blocks (suc k) ≡ some b
                → IsProperAt (suc k) a b)
      of false q = absurd (cc)
      of true q =
          let (track, good) =
            accept_blocks-proper rest 0 start first at_start
              (λ k.
                ap (get_elem? c.blocks) (omega arith) ∙ ap (λ (l : List Block). get_elem? l k) same)
              (ap (λ (l : List Block). accept_blocks p l c.genesis c.endowments 1 start first rest)
                  same
                ∙ q) in
          (
            subst (λ (n : ℕ). Tracks p c.blocks c.genesis n t)
                (omega (arith, ap (length {A = Block}) same)) track,
            λ k a b ha hb.
                subst (λ (n : ℕ). IsProperAt n a b) (omega arith)
                  (good k a b (ap (λ (l : List Block). get_elem? l k) (sym same) ∙ ha)
                    (ap (λ (l : List Block). get_elem? l (suc k)) (sym same) ∙ hb)),
          )

  -- In a valid chain each block after the first carries its position and the hash of the block before it,
  -- is signed by its producer, who is the scheduled proposer of its height and view among the validators
  -- that `validator_set` gives for the height, has a quorum's votes for a view above 0, and carries no
  -- commit but genuine ones of those validators.
  pub valid-IsProper :
      (k : ℕ) (a b : Block)
      → is_valid_chain p c ≡ true
      → get_elem? c.blocks k ≡ some a
      → get_elem? c.blocks (suc k) ≡ some b
      → IsProperAt (suc k) a b
  unfolding is_valid_chain
  valid-IsProper k a b e ha hb = of (validated p c c.blocks) refl e
    where
      of :
          (o : Option Carried)
          → validated p c c.blocks ≡ o
          → elim o [ none ↦ false | some s ↦ true ] ≡ true
          → IsProperAt (suc k) a b
      of none run q = absurd (cc)
      of (some s) run q = (accepted_chain c.blocks refl run).1 k a b ha hb

  -- The validators that `is_valid_chain` has seen promoted by the end of a chain that it accepts are exactly
  -- those that `_replay_promotions` finds in the chain, in the same order.
  pub validated-replay_promotions :
      {t : Carried}
      → validated p c c.blocks ≡ some t
      → replay_promotions p c.blocks c.genesis (length c.blocks) ≡ some t.promoted
  unfolding replay_promotions
  validated-replay_promotions e =
      let track = (accepted_chain c.blocks refl e).0 in
      rw (track.run, replay_promotions) (ap some track.promoted)
