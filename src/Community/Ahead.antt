-- ===== src/Community/Ahead.antt =====
-- A view-change vote for a height that the node cannot judge (network/community.py, `_apply_view_change`).
use hs_fob.Base.{
  ℕ, zero, suc, ◌+◌, ◌-◌, ◌≤◌, ◌<◌, ◌≡◌, refl, true, false, Option, none, some, List, [], ◌∷◌,
  String, string_eq, arith, length, get_elem?, leb, leb→le, Bool-cases, inl, inr,
}
use hs_fob.Base.Int.{ℤ, pos, leb_ℤ}
use hs_fob.Base.Sets.{union}
use hs_fob.Values.{int}
use hs_fob.Crypto
use hs_fob.Crypto.{Platform}
use hs_fob.Block.{Block, view_change_signing_bytes}
use hs_fob.Registry.{Weights, ReputationRegistry}
use hs_fob.Derive.{derive_registry, consensus_validators}
use hs_fob.Chain.{Promotions, promotion_round, promotion_rounds, replay_promotions, validator_set}
use hs_fob.Community.{AttestationCommunity, apply_view_change}

get_elem?-past : (blocks : List Block) (k : ℕ) → length blocks ≤ k → get_elem? blocks k ≡ none
get_elem?-past [] k h = refl
get_elem?-past (b ∷ blocks) zero h = absurd (omega (arith, h))
get_elem?-past (b ∷ blocks) (suc k) h = get_elem?-past blocks k (omega (arith, h))

module _ (p : Platform) (blocks : List Block) (genesis : Weights) where
  promotion_round-past :
      (k : ℕ) (s : Promotions) (o : Option ReputationRegistry)
      → length blocks ≤ k
      → promotion_round p k s o (get_elem? blocks k) ≡ none
  unfolding promotion_round
  promotion_round-past k s none h = refl
  promotion_round-past k s (some r) h = rw (get_elem?-past blocks k h, promotion_round) refl

  promotion_rounds-past :
      (rounds j : ℕ) (s : Promotions)
      → j ≤ length blocks
      → length blocks < j + rounds
      → promotion_rounds p blocks genesis rounds j s ≡ none
  unfolding promotion_rounds
  promotion_rounds-past zero j s low high = absurd (omega (arith, low, high))
  promotion_rounds-past (suc rounds) j s low high =
      of (promotion_round p j s (derive_registry p blocks j genesis) (get_elem? blocks j)) refl
        (λ s' below. promotion_rounds-past rounds (suc j) s' below (omega (arith, high)))
    where
      of :
          (o : Option Promotions)
          → promotion_round p j s (derive_registry p blocks j genesis) (get_elem? blocks j) ≡ o
          → ((s' : Promotions)
              → suc j ≤ length blocks
              → promotion_rounds p blocks genesis rounds (suc j) s' ≡ none)
          → elim o [ none ↦ none | some s' ↦ promotion_rounds p blocks genesis rounds (suc j) s' ]
            ≡ none
      of none e rest = refl
      of (some s') e rest = elim (Bool-cases (leb (suc j) (length blocks))) [
        | inl below ↦ rest s' (leb→le (suc j) (length blocks) below)
        | inr past ↦
            let nothing : promotion_round p j s (derive_registry p blocks j genesis)
                  (get_elem? blocks j)
                ≡ none =
              promotion_round-past j s (derive_registry p blocks j genesis)
                (ground (arith, past)) in
            absurd (cc)
      ]

  validator_set-past :
      (k : ℕ) → 1 ≤ length blocks → length blocks < k → validator_set p blocks genesis k ≡ none
  unfolding validator_set replay_promotions
  validator_set-past k some_block past = of (derive_registry p blocks k genesis) (
      promotion_rounds-past (k - 1) 1 (record { promoted = []; effect_indices = []; current = [] })
        some_block (omega (arith, past, some_block)))
    where
      of :
          (o : Option ReputationRegistry)
          → promotion_rounds p blocks genesis
              (k - 1)
              1
              (record { promoted = []; effect_indices = []; current = [] })
            ≡ none
          → elim o [
            | none ↦ none
            | some registry ↦ elim (replay_promotions p blocks genesis k) [
              | none ↦ none
              | some promoted ↦ some (union (consensus_validators registry) promoted)
            ]
          ]
            ≡ none
      of none e = refl
      of (some registry) e = rw (e, replay_promotions) refl

-- A view-change vote for a height above that of the next block is not dropped: if its view is above 0 and its
-- signature is genuine, whoever has signed it, the handler raises.
pub apply_view_change-ahead :
    (p : Platform) (n : AttestationCommunity) (height : ℕ) (view : ℤ) (signer signature : String)
    → 1 ≤ length n.blockchain.blocks
    → length n.blockchain.blocks < height
    → leb_ℤ view (pos 0) ≡ false
    → Crypto.verify p signer (view_change_signing_bytes p (pos height) (int view)) signature ≡ true
    → apply_view_change p n (record { height = pos height; view = view }) signer signature ≡ none
unfolding apply_view_change
apply_view_change-ahead p n height view signer signature some_block past high genuine =
    rw
      (
        high,
        genuine,
        validator_set-past p n.blockchain.blocks n.blockchain.genesis height some_block past,
        apply_view_change,
      )
      refl
