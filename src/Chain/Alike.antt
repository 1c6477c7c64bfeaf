-- ===== src/Chain/Alike.antt =====
-- Chains that differ in their votes alone: what stands in `commit_signatures` and `view_change_messages`
-- derives nothing (blockchain/blockchain.py, reputation/derive.py, reputation/slashing.py).
pub mod Balances
use hs_fob.Base.{
  ℕ, zero, suc, ◌-◌, ◌≡◌, refl, ap, ◌∙◌, Bool, false, Option, none, some, List, [], ◌∷◌, String,
  string_eq, if◌then◌else◌, arith, leb, get_elem?, take,
}
use hs_fob.Values.{Value, null, bool, int, float, str, list, dict, Fields, text_at}
use hs_fob.Crypto.{Platform}
use hs_fob.Transaction.{Transaction}
use hs_fob.Block.{Block}
use hs_fob.Registry.{Weights, ReputationRegistry, new_registry}
use hs_fob.Slashing.{
  find_in, find_tx, evidence_at, conflicting_attestations, evidence_holds, validate_fields,
  validate_slash,
}
use hs_fob.Derive.{
  apply_fields, apply_transaction, apply_block, replay, derive_registry, consensus_validators,
}
use hs_fob.Base.Sets.{union}
use hs_fob.Base.Int.{ℤ}
use hs_fob.Base.Dict.{Dict}
use hs_fob.Attestation.{is_attestation}
use hs_fob.Balances.{new_ledger}
use hs_fob.Economy.{
  Economy, settle_fields, settle, settle_all, settle_blocks, post_bond, derive_balances,
  default_endowment,
}
use hs_fob.Chain.{
  Promotions, apply_promotions, promotion_round, promotion_rounds, replay_promotions, validator_set,
}

-- The same blocks, if one looks at their positions and transactions only.
abbrev pub AreAlike : List Block → List Block → Type 0
AreAlike [] [] = Unit
AreAlike (x ∷ xs) (y ∷ ys) =
    (x.index ≡ y.index) × (x.transactions ≡ y.transactions) × AreAlike xs ys
AreAlike _ _ = ⊥

pub take-AreAlike : (k : ℕ) (xs ys : List Block) → AreAlike xs ys → AreAlike (take k xs) (take k ys)
take-AreAlike zero xs ys h = tt
take-AreAlike (suc k) [] [] h = tt
take-AreAlike (suc k) [] (y ∷ ys) h = absurd h
take-AreAlike (suc k) (x ∷ xs) [] h = absurd h
take-AreAlike (suc k) (x ∷ xs) (y ∷ ys) (i, t, h) = (i, t, take-AreAlike k xs ys h)

pub bind_same :
    {A B : Type 0} {o o' : Option A} (f g : A → Option B)
    → o ≡ o'
    → ((a : A) → f a ≡ g a)
    → elim o [ none ↦ none | some a ↦ f a ] ≡ elim o' [ none ↦ none | some a ↦ g a ]
bind_same {A} {B} {o} {o'} f g e h =
    ap (λ (z : Option A). elim z as (λ x. Option B) [ none ↦ none | some a ↦ f a ]) e ∙ each o'
  where
    each :
        (z : Option A)
        → elim z as (λ x. Option B) [ none ↦ none | some a ↦ f a ]
          ≡ elim z as (λ x. Option B) [ none ↦ none | some a ↦ g a ]
    each none = refl
    each (some a) = h a

module _ (p : Platform) where
  find_tx-alike :
      (xs ys : List Block) (tx_hash : String)
      → AreAlike xs ys
      → find_tx p xs tx_hash ≡ find_tx p ys tx_hash
  unfolding find_tx
  find_tx-alike [] [] tx_hash h = refl
  find_tx-alike [] (y ∷ ys) tx_hash h = absurd h
  find_tx-alike (x ∷ xs) [] tx_hash h = absurd h
  find_tx-alike (x ∷ xs) (y ∷ ys) tx_hash (i, t, h) =
      ap
        (λ (txs : List Transaction). elim (find_in p txs tx_hash) as (λ z. Option Transaction) [
          | some tx ↦ some tx
          | none ↦ find_tx p xs tx_hash
        ])
        t
      ∙ ap
          (λ (o : Option Transaction).
            elim (find_in p y.transactions tx_hash) as (λ z. Option Transaction) [
              | some tx ↦ some tx
              | none ↦ o
            ])
          (find_tx-alike xs ys tx_hash h)

  evidence_holds-alike :
      (fs : Fields) (xs ys : List Block)
      → AreAlike xs ys
      → evidence_holds p fs xs ≡ evidence_holds p fs ys
  unfolding evidence_holds
  evidence_holds-alike fs xs ys h =
      ap (λ (o : Option Transaction). judged o (find_tx p xs (evidence_at fs).1))
        (find_tx-alike xs ys (evidence_at fs).0 h)
      ∙ ap (judged (find_tx p ys (evidence_at fs).0)) (find_tx-alike xs ys (evidence_at fs).1 h)
    where
      judged : Option Transaction → Option Transaction → Bool
      judged first second = elim first as (λ x. Bool) [
        | none ↦ false
        | some tx_a ↦ elim second as (λ x. Bool) [
          | none ↦ false
          | some tx_b ↦
              conflicting_attestations p tx_a tx_b (text_at "offender" fs) (text_at "domain" fs)
        ]
      ]

  pub validate_slash-alike :
      (v : Value) (xs ys : List Block) (validators : List String)
      → AreAlike xs ys
      → validate_slash p v xs validators ≡ validate_slash p v ys validators
  unfolding validate_slash validate_fields
  validate_slash-alike (dict fs) xs ys validators h =
      rw (evidence_holds-alike fs xs ys h, validate_fields) refl
  validate_slash-alike null xs ys validators h = refl
  validate_slash-alike (bool _) xs ys validators h = refl
  validate_slash-alike (int _) xs ys validators h = refl
  validate_slash-alike (float _) xs ys validators h = refl
  validate_slash-alike (str _) xs ys validators h = refl
  validate_slash-alike (list _) xs ys validators h = refl

  apply_transaction-alike :
      (r : ReputationRegistry) (tx : Transaction) (xs ys : List Block) (validators : List String)
      → AreAlike xs ys
      → apply_transaction p r tx xs validators ≡ apply_transaction p r tx ys validators
  unfolding apply_transaction apply_fields
  apply_transaction-alike r tx xs ys validators h = of tx.payload
    where
      of :
          (v : Value)
          → elim v as (λ x. Option ReputationRegistry) [
            | dict fs ↦ apply_fields p r fs xs validators
            | _ ↦ some r
          ]
            ≡ elim v as (λ x. Option ReputationRegistry) [
              | dict fs ↦ apply_fields p r fs ys validators
              | _ ↦ some r
            ]
      of (dict fs) = ground (arith, validate_slash-alike (dict fs) xs ys validators h)
      of null = refl
      of (bool _) = refl
      of (int _) = refl
      of (float _) = refl
      of (str _) = refl
      of (list _) = refl

  apply_block-alike :
      (r : ReputationRegistry) (txs : List Transaction) (xs ys : List Block)
      (validators : List String)
      → AreAlike xs ys
      → apply_block p r txs xs validators ≡ apply_block p r txs ys validators
  unfolding apply_block
  apply_block-alike r [] xs ys validators h = refl
  apply_block-alike r (tx ∷ txs) xs ys validators h =
      bind_same (λ r'. apply_block p r' txs xs validators)
        (λ r'. apply_block p r' txs ys validators) (apply_transaction-alike r tx xs ys validators h)
        (λ r'. apply_block-alike r' txs xs ys validators h)

  module _ (xs ys : List Block) (alike : AreAlike xs ys) where
    replay-alike :
        (limit : ℕ) (r : ReputationRegistry) (us vs : List Block)
        → AreAlike us vs
        → replay p xs limit r us ≡ replay p ys limit r vs
    unfolding replay
    replay-alike limit r [] [] h = refl
    replay-alike limit r [] (b ∷ vs) h = absurd h
    replay-alike limit r (a ∷ us) [] h = absurd h
    replay-alike limit r (a ∷ us) (b ∷ vs) (i, t, h) =
        ap (λ (k : ℕ). round k a.transactions) i
        ∙ ap (round b.index) t
        ∙ ap (λ (o : Option ReputationRegistry). if leb limit b.index then some r else o)
            (bind_same (λ r'. replay p xs limit r' us) (λ r'. replay p ys limit r' vs)
              (apply_block-alike r b.transactions (take b.index xs) (take b.index ys)
                (consensus_validators r) (take-AreAlike b.index xs ys alike))
              (λ r'. replay-alike limit r' us vs h))
      where
        round : ℕ → List Transaction → Option ReputationRegistry
        round k txs =
            if leb limit k
            then some r
            else elim (apply_block p r txs (take k xs) (consensus_validators r))
                as (λ x. Option ReputationRegistry) [
                  | none ↦ none
                  | some r' ↦ replay p xs limit r' us
                ]

    -- Chains of the same length whose blocks agree, one by one, in position and transactions derive one
    -- reputation, whatever votes the blocks carry.
    pub derive_registry-alike :
        (upto_index : ℕ) (genesis : Weights)
        → derive_registry p xs upto_index genesis ≡ derive_registry p ys upto_index genesis
    unfolding derive_registry
    derive_registry-alike upto_index genesis =
        replay-alike upto_index (new_registry genesis) xs ys alike

    promotion_round-alike :
        (us vs : List Block) (j k : ℕ) (s : Promotions) (o : Option ReputationRegistry)
        → AreAlike us vs
        → promotion_round p j s o (get_elem? us k) ≡ promotion_round p j s o (get_elem? vs k)
    unfolding promotion_round
    promotion_round-alike us vs j k s none h = refl
    promotion_round-alike [] [] j k s (some r) h = refl
    promotion_round-alike [] (v ∷ vs) j k s (some r) h = absurd h
    promotion_round-alike (u ∷ us) [] j k s (some r) h = absurd h
    promotion_round-alike (u ∷ us) (v ∷ vs) j zero s (some r) (i, t, h) =
        ap
          (λ (txs : List Transaction). some (
            apply_promotions p r j
              (record s { current = union (consensus_validators r) s.promoted }) txs))
          t
    promotion_round-alike (u ∷ us) (v ∷ vs) j (suc k) s (some r) (i, t, h) =
        promotion_round-alike us vs j k s (some r) h

    promotion_rounds-alike :
        (genesis : Weights) (rounds j : ℕ) (s : Promotions)
        → promotion_rounds p xs genesis rounds j s ≡ promotion_rounds p ys genesis rounds j s
    unfolding promotion_rounds
    promotion_rounds-alike genesis zero j s = refl
    promotion_rounds-alike genesis (suc rounds) j s =
        bind_same (λ s'. promotion_rounds p xs genesis rounds (suc j) s')
          (λ s'. promotion_rounds p ys genesis rounds (suc j) s')
          (ap (λ (o : Option ReputationRegistry). promotion_round p j s o (get_elem? xs j))
              (derive_registry-alike j genesis)
            ∙ promotion_round-alike xs ys j j s (derive_registry p ys j genesis) alike)
          (λ s'. promotion_rounds-alike genesis rounds (suc j) s')

    -- Chains of the same length whose blocks agree, one by one, in position and transactions have the same
    -- validators for each height, whatever votes the blocks carry.
    pub validator_set-alike :
        (genesis : Weights) (upto_index : ℕ)
        → validator_set p xs genesis upto_index ≡ validator_set p ys genesis upto_index
    unfolding validator_set replay_promotions
    validator_set-alike genesis upto_index =
        bind_same (λ r. joined r (replay_promotions p xs genesis upto_index))
          (λ r. joined r (replay_promotions p ys genesis upto_index))
          (derive_registry-alike upto_index genesis) (λ r. ap (joined r) replayed)
      where
        joined : ReputationRegistry → Option (List String) → Option (List String)
        joined r o = elim o [
          | none ↦ none
          | some promoted ↦ some (union (consensus_validators r) promoted)
        ]

        replayed :
            replay_promotions p xs genesis upto_index ≡ replay_promotions p ys genesis upto_index
        replayed =
            bind_same (λ s. some (Promotions.promoted s)) (λ s. some (Promotions.promoted s))
              (promotion_rounds-alike genesis (upto_index - 1) 1
                (record { promoted = []; effect_indices = []; current = [] }))
              (λ s. refl)
