-- ===== src/Chain/Prefix.antt =====
-- The validators of a height depend on the blocks before it (blockchain/blockchain.py, `validator_set`).
use mathlib.Core.Path.{subst}
use hs_fob.Base.{
  ℕ, zero, suc, ◌+◌, ◌-◌, ◌≤◌, ◌<◌, ◌≡◌, refl, sym, ap, ◌∙◌, Option, none, some, List, [], ◌∷◌,
  ◌++◌, take, length, arith, get_elem?, String, string_eq,
}
use hs_fob.Base.Sets.{union}
use hs_fob.Crypto.{Platform}
use hs_fob.Block.{Block}
use hs_fob.Registry.{Weights, ReputationRegistry}
use hs_fob.Derive.{derive_registry, consensus_validators}
use hs_fob.Derive.Prefix.{IsIndexed, derive_registry-prefix}
use hs_fob.Chain.{Promotions, promotion_round, promotion_rounds, replay_promotions, validator_set}

drop : ℕ → List Block → List Block
drop zero xs = xs
drop (suc n) [] = []
drop (suc n) (x ∷ xs) = drop n xs

take-drop : (n : ℕ) (xs ys : List Block) → take n xs ++ (drop n xs ++ ys) ≡ xs ++ ys
unfolding drop
take-drop zero xs ys = refl
take-drop (suc n) [] ys = refl
take-drop (suc n) (x ∷ xs) ys = ap (λ (l : List Block). x ∷ l) (take-drop n xs ys)

length-take : (n : ℕ) (xs : List Block) → n ≤ length xs → length (take n xs) ≡ n
length-take zero xs h = refl
length-take (suc n) [] h = absurd (omega arith)
length-take (suc n) (x ∷ xs) h = ap suc (length-take n xs (omega arith))

get_elem?-append :
    (xs ys : List Block) (i : ℕ) → i < length xs → get_elem? (xs ++ ys) i ≡ get_elem? xs i
get_elem?-append [] ys i h = absurd (omega arith)
get_elem?-append (x ∷ xs) ys zero h = refl
get_elem?-append (x ∷ xs) ys (suc i) h = get_elem?-append xs ys i (omega arith)

module _ (p : Platform) (shared ys zs : List Block) (genesis : Weights)
    (iy : IsIndexed (shared ++ ys)) (iz : IsIndexed (shared ++ zs)) where
  -- at every height up to the end of the shared blocks
  registry_shared :
      (j : ℕ)
      → j ≤ length shared
      → derive_registry p (shared ++ ys) j genesis ≡ derive_registry p (shared ++ zs) j genesis
  registry_shared j h =
      ap (λ (c : List Block). derive_registry p c j genesis) (sym (take-drop j shared ys))
      ∙ ap (λ (k : ℕ). derive_registry p (take j shared ++ (drop j shared ++ ys)) k genesis)
          (sym (length-take j shared h))
      ∙ derive_registry-prefix p (take j shared) (drop j shared ++ ys) (drop j shared ++ zs) genesis
          (subst IsIndexed (sym (take-drop j shared ys)) iy)
          (subst IsIndexed (sym (take-drop j shared zs)) iz)
      ∙ ap (λ (k : ℕ). derive_registry p (take j shared ++ (drop j shared ++ zs)) k genesis)
          (length-take j shared h)
      ∙ ap (λ (c : List Block). derive_registry p c j genesis) (take-drop j shared zs)

  round_shared :
      (j : ℕ) (s : Promotions)
      → j < length shared
      → promotion_round p j s
          (derive_registry p (shared ++ ys) j genesis)
          (get_elem? (shared ++ ys) j)
        ≡ promotion_round p j s
            (derive_registry p (shared ++ zs) j genesis)
            (get_elem? (shared ++ zs) j)
  round_shared j s h =
      ap (λ (r : Option ReputationRegistry). promotion_round p j s r (get_elem? (shared ++ ys) j))
        (registry_shared j (omega arith))
      ∙ ap (promotion_round p j s (derive_registry p (shared ++ zs) j genesis))
          (get_elem?-append shared ys j h ∙ sym (get_elem?-append shared zs j h))

  rounds_shared :
      (rounds j : ℕ) (s : Promotions)
      → j + rounds ≤ length shared
      → promotion_rounds p (shared ++ ys) genesis rounds j s
        ≡ promotion_rounds p (shared ++ zs) genesis rounds j s
  unfolding promotion_rounds
  rounds_shared zero j s h = refl
  rounds_shared (suc rounds) j s h =
      ap
        (λ (o : Option Promotions). elim o [
          | none ↦ none
          | some s' ↦ promotion_rounds p (shared ++ ys) genesis rounds (suc j) s'
        ])
        (round_shared j s (omega arith))
      ∙ then_same
          (promotion_round p j s (derive_registry p (shared ++ zs) j genesis)
            (get_elem? (shared ++ zs) j))
          (λ s'. rounds_shared rounds (suc j) s' (omega arith))
    where
      then_same :
          (o : Option Promotions)
          → ((s' : Promotions)
              → promotion_rounds p (shared ++ ys) genesis rounds (suc j) s'
                ≡ promotion_rounds p (shared ++ zs) genesis rounds (suc j) s')
          → elim o [
            | none ↦ none
            | some s' ↦ promotion_rounds p (shared ++ ys) genesis rounds (suc j) s'
          ]
            ≡ elim o [
              | none ↦ none
              | some s' ↦ promotion_rounds p (shared ++ zs) genesis rounds (suc j) s'
            ]
      then_same none same = refl
      then_same (some s') same = same s'

  promotions_shared :
      replay_promotions p (shared ++ ys) genesis (length shared)
      ≡ replay_promotions p (shared ++ zs) genesis (length shared)
  unfolding replay_promotions promotion_rounds
  promotions_shared = promoted shared refl
    where
      start : Promotions
      start = record { promoted = []; effect_indices = []; current = [] }

      promoted :
          (l : List Block)
          → l ≡ shared
          → replay_promotions p (shared ++ ys) genesis (length l)
            ≡ replay_promotions p (shared ++ zs) genesis (length l)
      promoted [] e = refl
      promoted (b ∷ l) e =
          ap (λ (o : Option Promotions). elim o [ none ↦ none | some s ↦ some s.promoted ])
            (rounds_shared (length (b ∷ l) - 1) 1 start (omega (arith, ap (length {A = Block}) e)))

  -- Two chains whose blocks carry their positions and that agree on their first blocks have the same
  -- validators at the height after these, promoted ones included, whatever follows.
  pub validator_set-prefix :
      validator_set p (shared ++ ys) genesis (length shared)
      ≡ validator_set p (shared ++ zs) genesis (length shared)
  unfolding validator_set
  validator_set-prefix =
      ap
        (λ (o : Option ReputationRegistry). elim o [
          | none ↦ none
          | some r ↦ elim (replay_promotions p (shared ++ ys) genesis (length shared)) [
            | none ↦ none
            | some promoted ↦ some (union (consensus_validators r) promoted)
          ]
        ])
        (registry_shared (length shared) (omega arith))
      ∙ ap
          (λ (o : Option (List String)).
            elim (derive_registry p (shared ++ zs) (length shared) genesis) [
              | none ↦ none
              | some r ↦ elim o [
                | none ↦ none
                | some promoted ↦ some (union (consensus_validators r) promoted)
              ]
            ])
          promotions_shared
