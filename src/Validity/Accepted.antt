-- ===== src/Validity/Accepted.antt =====
-- What a block of a valid chain has passed (blockchain/blockchain.py, `is_valid_chain`), in terms of the
-- validators that `validator_set` gives for its height.
use mathlib.Core.Option.{some-injective}
use hs_fob.Base.{
  ℕ, zero, suc, ◌+◌, ◌-◌, ◌≡◌, refl, sym, ap, ◌∙◌, Bool, true, false, ◌&&◌, not, Bool-cases, inl,
  inr, Option, none, some, List, [], ◌∷◌, String, string_eq, nat_eq, if◌then◌else◌, arith, &&-true,
  eq_iff, get_elem?, take,
}
use hs_fob.Base.Dict.{keys}
use hs_fob.Base.Sets.{elem, union, minus, elem-keep}
use hs_fob.Crypto.{Platform}
use hs_fob.Block
use hs_fob.Block.{Block, verify_producer_signature, commit_signers}
use hs_fob.Registry.{Weights, ReputationRegistry}
use hs_fob.Consensus.{scheduled_proposer}
use hs_fob.Derive.{consensus_validators, derive_registry}
use hs_fob.Economy.{Economy, derive_balances}
use hs_fob.Chain.{
  Blockchain, Promotions, promotion_round, promotion_rounds, replay_promotions, validator_set,
}
use hs_fob.Validity.{
  Carried, Within, Context, accept_all, view_number, is_scheduled, is_justified, is_empty,
  header_ok, links, accept_block,
}
use hs_fob.Validity.Replay.{promotions_of, accept_all-replayed}

-- The facts about a block `b` at height `i`, after `previous`, that is judged by these validators.
pub record IsProper (p : Platform) (i : ℕ) (previous b : Block) (validators : List String)
    : Type 0 where
  pub index : b.index ≡ i
  pub link : b.previous_hash ≡ Block.hash p previous
  pub signed : verify_producer_signature p b ≡ true
  pub turn :
      (view : ℕ) × (view_number b.view ≡ some view)
      × (scheduled_proposer validators i view ≡ some b.producer)
      × (is_justified p b validators view ≡ true)
  pub commits :
      (v : String)
      → elem v (keys b.commit_signatures) ≡ true
      → (elem v (commit_signers p b) ≡ true) × (elem v validators ≡ true)

abbrev pub no_promotions : Promotions
no_promotions = record { promoted = []; effect_indices = []; current = [] }

is_empty-minus :
    (v : String) (xs ys : List String)
    → is_empty (minus xs ys) ≡ true
    → elem v xs ≡ true
    → elem v ys ≡ true
is_empty-minus v xs ys h e = elim (Bool-cases (elem v ys)) [
  | inl inside ↦ inside
  | inr outside ↦
      nothing (minus xs ys) h (elem-keep (λ x. not (elem x ys)) v xs ∙ rw (e, outside) refl)
]
  where
    nothing : (l : List String) → is_empty l ≡ true → elem v l ≡ true → elem v ys ≡ true
    nothing [] q r = absurd (cc)
    nothing (x ∷ l) q r = absurd (cc)

is_scheduled-some :
    (o : Option String) (producer : String) → is_scheduled o producer ≡ true → o ≡ some producer
is_scheduled-some none producer h = absurd (cc)
is_scheduled-some (some v) producer h = ap some (sym ((eq_iff producer v).0 h))

module _ (p : Platform) where
  proper :
      (i : ℕ) (previous b : Block) (validators : List String)
      → links p i previous b ≡ true
      → header_ok p b validators ≡ true
      → IsProper p i previous b validators
  unfolding links header_ok
  proper i previous b validators l h = of (view_number b.view) refl h
    where
      place : b.index ≡ i
      place = ground (arith, l)

      of :
          (o : Option ℕ)
          → view_number b.view ≡ o
          → elim o [
            | none ↦ false
            | some v ↦
                is_scheduled (scheduled_proposer validators b.index v) b.producer
                && is_justified p b validators v
                && is_empty (minus (keys b.commit_signatures) (commit_signers p b))
                && is_empty (minus (keys b.commit_signatures) validators)
          ]
            ≡ true
          → IsProper p i previous b validators
      of none e q = absurd (cc)
      of (some v) e q =
          let (front, members) =
            &&-true _ (is_empty (minus (keys b.commit_signatures) validators)) q in
          let (front', genuine) =
            &&-true _ (is_empty (minus (keys b.commit_signatures) (commit_signers p b))) front in
          let (scheduled, justified) =
            &&-true (is_scheduled (scheduled_proposer validators b.index v) b.producer)
              (is_justified p b validators v) front' in
          record {
            index = place;
            link = ground (arith, l, eq_iff b.previous_hash (Block.hash p previous));
            signed = ground (arith, l);
            turn = (
              v,
              e,
              ap (λ (k : ℕ). scheduled_proposer validators k v) (sym place)
                  ∙ is_scheduled-some (scheduled_proposer validators b.index v) b.producer
                      scheduled,
              justified,
            );
            commits = λ w hw. (
              is_empty-minus w (keys b.commit_signatures) (commit_signers p b) genuine hw,
              is_empty-minus w (keys b.commit_signatures) validators members hw,
            );
          }

  -- one more round at the end
  rounds-suc :
      (blocks : List Block) (genesis : Weights) (n j k : ℕ) (s t u : Promotions)
      → k ≡ j + n
      → promotion_rounds p blocks genesis n j s ≡ some t
      → promotion_round p k t (derive_registry p blocks k genesis) (get_elem? blocks k) ≡ some u
      → promotion_rounds p blocks genesis (suc n) j s ≡ some u
  unfolding promotion_rounds
  rounds-suc blocks genesis zero j k s t u e h r =
      let same : k ≡ j = omega (arith, e) in
      let now : promotion_round p j s (derive_registry p blocks j genesis) (get_elem? blocks j)
          ≡ some u =
        ap
          (λ (z : Promotions).
            promotion_round p j z (derive_registry p blocks j genesis) (get_elem? blocks j))
          (some-injective _ _ h)
        ∙ ap
            (λ (z : ℕ).
              promotion_round p z t (derive_registry p blocks z genesis) (get_elem? blocks z))
            (sym same)
        ∙ r in
      rw (now, promotion_rounds) refl
  rounds-suc blocks genesis (suc n) j k s t u e h r =
      of (promotion_round p j s (derive_registry p blocks j genesis) (get_elem? blocks j))
        (λ s' q. rounds-suc blocks genesis n (suc j) k s' t u (omega (arith, e)) q r) h
    where
      of :
          (o : Option Promotions)
          → ((s' : Promotions)
              → promotion_rounds p blocks genesis n (suc j) s' ≡ some t
              → promotion_rounds p blocks genesis (suc n) (suc j) s' ≡ some u)
          → elim o [ none ↦ none | some s' ↦ promotion_rounds p blocks genesis n (suc j) s' ]
            ≡ some t
          → elim o [ none ↦ none | some s' ↦ promotion_rounds p blocks genesis (suc n) (suc j) s' ]
            ≡ some u
      of none rest q = absurd (cc)
      of (some s') rest q = rest s' q

  -- What is carried to the block at `i` is what the replay of the blocks before it gives.
  pub record Tracks (blocks : List Block) (genesis : Weights) (i : ℕ) (s : Carried) : Type 0 where
    pub state : Promotions
    pub run : promotion_rounds p blocks genesis (i - 1) 1 no_promotions ≡ some state
    pub promoted : state.promoted ≡ s.promoted
    pub effects : state.effect_indices ≡ s.effect_indices

  tracked_set :
      (blocks : List Block) (genesis : Weights) (i : ℕ) (s : Carried) (r : ReputationRegistry)
      → Tracks blocks genesis i s
      → derive_registry p blocks i genesis ≡ some r
      → validator_set p blocks genesis i ≡ some (union (consensus_validators r) s.promoted)
  unfolding validator_set replay_promotions
  tracked_set blocks genesis i s r t e =
      rw (e, t.run, t.promoted, validator_set, replay_promotions) refl

  -- One accepted block: it is proper, and what is carried still agrees with the replay.
  pub accept_block-step :
      (c : Blockchain) (i : ℕ) (s t : Carried) (previous b : Block)
      → Tracks c.blocks c.genesis (suc i) s
      → get_elem? c.blocks (suc i) ≡ some b
      → accept_block p c.blocks
          (suc i)
          s
          previous
          b
          (derive_registry p c.blocks (suc i) c.genesis)
          (derive_balances p c.blocks (suc i) c.endowments c.genesis)
        ≡ some t
      → Tracks c.blocks c.genesis (suc (suc i)) t
        × ((validators : List String) × (validator_set p c.blocks c.genesis (suc i)
              ≡ some validators)
            × IsProper p (suc i) previous b validators)
  unfolding accept_block promotion_round
  accept_block-step c i s t previous b track found e =
      of (derive_registry p c.blocks (suc i) c.genesis)
        (derive_balances p c.blocks (suc i) c.endowments c.genesis) refl e
    where
      inner :
          (r : ReputationRegistry) (economy : Economy) (o : Option Within)
          → derive_registry p c.blocks (suc i) c.genesis ≡ some r
          → accept_all p
              (record {
                height = suc i;
                prefix = take (suc i) c.blocks;
                registry = r;
                ledger = economy.ledger;
              })
              (record {
                carried = s;
                block_validators = union (consensus_validators r) s.promoted;
                block_locked = [];
              })
              b.transactions
            ≡ o
          → elim o [ none ↦ none | some w ↦ some w.carried ] ≡ some t
          → Tracks c.blocks c.genesis (suc (suc i)) t
      inner r economy none er run q = absurd (cc)
      inner r economy (some w) er run q =
          let context : Context = record {
            height = suc i;
            prefix = take (suc i) c.blocks;
            registry = r;
            ledger = economy.ledger;
          } in
          let before : Within = record {
            carried = s;
            block_validators = union (consensus_validators r) s.promoted;
            block_locked = [];
          } in
          let same : w.carried ≡ t = some-injective _ _ q in
          let after = accept_all-replayed p context before w b.transactions run in
          let round : promotion_round p (suc i) track.state
                (derive_registry p c.blocks (suc i) c.genesis) (get_elem? c.blocks (suc i))
              ≡ some (promotions_of w) =
            rw (er, found, track.promoted, track.effects, promotion_round) (ap some (sym after)) in
          record {
            state = promotions_of w;
            run =
                ap (λ (n : ℕ). promotion_rounds p c.blocks c.genesis n 1 no_promotions)
                  (omega arith)
                ∙ rounds-suc c.blocks c.genesis (suc i - 1) 1 (suc i) no_promotions track.state
                    (promotions_of w) (omega arith) track.run round;
            promoted = ap Carried.promoted same;
            effects = ap Carried.effect_indices same;
          }

      passed :
          (r : ReputationRegistry) (economy : Economy) (z : Bool)
          → derive_registry p c.blocks (suc i) c.genesis ≡ some r
          → (links p (suc i) previous b
              && header_ok p b (union (consensus_validators r) s.promoted))
            ≡ z
          → (if z
              then elim (accept_all p
                  (record {
                    height = suc i;
                    prefix = take (suc i) c.blocks;
                    registry = r;
                    ledger = economy.ledger;
                  })
                  (record {
                    carried = s;
                    block_validators = union (consensus_validators r) s.promoted;
                    block_locked = [];
                  })
                  b.transactions) [ none ↦ none | some w ↦ some w.carried ]
              else none)
            ≡ some t
          → Tracks c.blocks c.genesis (suc (suc i)) t
            × ((validators : List String) × (validator_set p c.blocks c.genesis (suc i)
                  ≡ some validators)
                × IsProper p (suc i) previous b validators)
      passed r economy false er z q = absurd (cc)
      passed r economy true er z q =
          let validators = union (consensus_validators r) s.promoted in
          let (linked, head) = &&-true (links p (suc i) previous b) (header_ok p b validators) z in
          (
            inner r economy _ er refl q,
            (
              validators,
              tracked_set c.blocks c.genesis (suc i) s r track er,
              proper (suc i) previous b validators linked head,
            ),
          )

      of :
          (registry : Option ReputationRegistry) (economy : Option Economy)
          → derive_registry p c.blocks (suc i) c.genesis ≡ registry
          → accept_block p c.blocks (suc i) s previous b registry economy ≡ some t
          → Tracks c.blocks c.genesis (suc (suc i)) t
            × ((validators : List String) × (validator_set p c.blocks c.genesis (suc i)
                  ≡ some validators)
                × IsProper p (suc i) previous b validators)
      of none economy er q = absurd (cc)
      of (some r) none er q = absurd (cc)
      of (some r) (some economy) er q =
          passed r economy
            (links p (suc i) previous b
              && header_ok p b (union (consensus_validators r) s.promoted))
            er refl q
