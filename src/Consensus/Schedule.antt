-- ===== src/Consensus/Schedule.antt =====
-- The proposer schedule (blockchain/blockchain.py, `scheduled_proposer`): whose turn it is.
use native.Mathlib.Nat.{add-mod-mod, add-mod_right, mod-lt, mod-eq_of_lt, mod-add-mod}
use hs_fob.Base.{
  ℕ, zero, suc, ◌+◌, ◌-◌, ◌%◌, ◌<◌, ◌≡◌, refl, inl, inr, true, some, List, [], ◌∷◌, String, arith,
  length, get_elem?, string_eq, Bool-cases, ◌==◌, eq_iff, ap, sym, ◌∙◌,
}
use hs_fob.Base.Sets.{elem, Distinct}
use hs_fob.Base.Order.{sorted, string_ord, elem-sorted, length-sorted, sorted-eq}
use hs_fob.Base.Count.{Subset}
use hs_fob.Consensus.{scheduled_proposer}

get_elem?-elem :
    (xs : List String) (i : ℕ) (v : String) → get_elem? xs i ≡ some v → elem v xs ≡ true
get_elem?-elem [] i v h = absurd (cc)
get_elem?-elem (x ∷ xs) zero v h = ground (arith, eq_iff v x)
get_elem?-elem (x ∷ xs) (suc i) v h = ground (arith, get_elem?-elem xs i v h)

elem-get_elem? :
    (xs : List String) (v : String)
    → elem v xs ≡ true
    → (i : ℕ) × (i < length xs) × (get_elem? xs i ≡ some v)
elem-get_elem? [] v h = absurd (ground (arith, h))
elem-get_elem? (x ∷ xs) v h = elim (Bool-cases (v == x)) [
  | inl same ↦ (0, omega arith, ap some (sym ((eq_iff v x).0 same)))
  | inr differ ↦
      let (i, inside, here) = elem-get_elem? xs v (ground (arith, h)) in (suc i, omega arith, here)
]

-- The scheduled proposer is a validator.
pub scheduled_proposer-elem :
    (validators : List String) (height view : ℕ) {v : String}
    → scheduled_proposer validators height view ≡ some v
    → elem v validators ≡ true
unfolding scheduled_proposer
scheduled_proposer-elem [] height view h = absurd (cc)
scheduled_proposer-elem (x ∷ xs) height view {v} h =
    sym (elem-sorted v (x ∷ xs))
    ∙ get_elem?-elem (sorted (x ∷ xs)) ((height + view) % length (sorted (x ∷ xs))) v h

reach : (height i n : ℕ) → i < n → (height + (i + n - height % n) % n) % n ≡ i
reach height i n h =
    add-mod-mod height (i + n - height % n) n
    ∙ sym (mod-add-mod height n (i + n - height % n))
    ∙ ap (λ (k : ℕ). k % n) (omega (arith, mod-lt height {m = n} (omega arith)))
    ∙ add-mod_right i n
    ∙ mod-eq_of_lt h

-- At every height each validator's turn comes within as many views as there are validators.
pub scheduled_proposer-rotates :
    (validators : List String) (height : ℕ) (v : String)
    → elem v validators ≡ true
    → (view : ℕ) × (view < length validators) × (scheduled_proposer validators height view ≡ some v)
unfolding scheduled_proposer
scheduled_proposer-rotates [] height v h = absurd (ground (arith, h))
scheduled_proposer-rotates (x ∷ xs) height v h =
    let (i, inside, here) = elem-get_elem? (sorted (x ∷ xs)) v (elem-sorted v (x ∷ xs) ∙ h) in
    let n = length (sorted (x ∷ xs)) in
    let view = (i + n - height % n) % n in
    (
      view,
      omega (arith, length-sorted (x ∷ xs), mod-lt (i + n - height % n) {m = n} (omega arith)),
      ap (get_elem? (sorted (x ∷ xs))) (reach height i n inside) ∙ here,
    )

-- Two lists without repetitions of the same validators give the same proposer at every height and view:
-- the schedule does not depend on the order in which a node lists them.
pub scheduled_proposer-order :
    (us vs : List String) (height view : ℕ)
    → Distinct us
    → Distinct vs
    → Subset us vs
    → Subset vs us
    → scheduled_proposer us height view ≡ scheduled_proposer vs height view
unfolding scheduled_proposer
scheduled_proposer-order [] [] height view du dv suv svu = refl
scheduled_proposer-order [] (y ∷ ys) height view du dv suv svu =
    absurd (ground (arith, svu y, eq_iff y y))
scheduled_proposer-order (x ∷ xs) [] height view du dv suv svu =
    absurd (ground (arith, suv x, eq_iff x x))
scheduled_proposer-order (x ∷ xs) (y ∷ ys) height view du dv suv svu =
    ap (λ (l : List String). get_elem? l ((height + view) % length l))
      (sorted-eq (x ∷ xs) (y ∷ ys) du dv suv svu)
