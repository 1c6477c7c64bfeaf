-- ===== src/Base/Sets.antt =====
-- A Python set as a list without repetitions, in insertion order. Nothing that is proved depends on
-- the order, and where the program iterates over a set the list says which order is meant.
use mathlib.Core.Path.{◌≡◌, refl}
use mathlib.Core.Bool.{true, Bool, false, ◌&&◌, ◌||◌, not}
use mathlib.Core.List.{List, [], ◌∷◌, ◌++◌}
use native.Mathlib.Omega.{arith}
use hs_fob.Base.Tests.{Eq, ◌==◌, if◌then◌else◌}
use hs_fob.Base.Lists.{keep}

module _ {ℓ} {A : Type ℓ} ⦃e : Eq A⦄ where
  -- `a in s`
  abbrev pub elem : A → List A → Bool
  elem a [] = false
  elem a (x ∷ xs) = a == x || elem a xs

  -- No element stands twice.
  abbrev pub Distinct : List A → Type 0
  Distinct [] = Unit
  Distinct (x ∷ xs) = (elem x xs ≡ false) × Distinct xs

  -- `s.add(a)`
  abbrev pub add : A → List A → List A
  add a xs = if elem a xs then xs else xs ++ a ∷ []

  -- `set(xs)`
  abbrev pub to_set : List A → List A
  to_set [] = []
  to_set (x ∷ xs) = let rest = to_set xs in if elem x rest then rest else x ∷ rest

  -- `s | t`
  abbrev pub union : List A → List A → List A
  union xs ys = to_set (xs ++ ys)

  -- `s & t`
  abbrev pub inter : List A → List A → List A
  inter xs ys = keep (λ x. elem x ys) xs

  -- `s - t`
  abbrev pub minus : List A → List A → List A
  minus xs ys = keep (λ x. not (elem x ys)) xs

  pub elem-append : (a : A) (xs ys : List A) → elem a (xs ++ ys) ≡ (elem a xs || elem a ys)
  elem-append a [] ys = refl
  elem-append a (x ∷ xs) ys = ground (arith, elem-append a xs ys)

  pub elem-append_left : (a : A) (xs ys : List A) → elem a xs ≡ true → elem a (xs ++ ys) ≡ true
  elem-append_left a [] ys h = absurd (ground (arith, h))
  elem-append_left a (x ∷ xs) ys h = ground (arith, elem-append_left a xs ys)

  pub elem-append_right : (a : A) (xs ys : List A) → elem a ys ≡ true → elem a (xs ++ ys) ≡ true
  elem-append_right a [] ys h = h
  elem-append_right a (x ∷ xs) ys h = ground (arith, elem-append_right a xs ys h)

  pub elem-to_set : (a : A) (xs : List A) → elem a (to_set xs) ≡ elem a xs
  elem-to_set a [] = refl
  elem-to_set a (x ∷ xs) = ground (arith, e.equal_iff a x, elem-to_set a xs, elem-to_set x xs)

  pub to_set-Distinct : (xs : List A) → Distinct (to_set xs)
  to_set-Distinct [] = tt
  to_set-Distinct (x ∷ xs) = ground (arith, to_set-Distinct xs)

  pub elem-keep : (p : A → Bool) (a : A) (xs : List A) → elem a (keep p xs) ≡ (elem a xs && p a)
  elem-keep p a [] = refl
  elem-keep p a (x ∷ xs) = ground (arith, e.equal_iff a x, elem-keep p a xs)

  pub keep-Distinct : (p : A → Bool) (xs : List A) → Distinct xs → Distinct (keep p xs)
  keep-Distinct p [] h = tt
  keep-Distinct p (x ∷ xs) h = ground (arith, keep-Distinct p xs h.1, elem-keep p x xs)

  pub elem-add : (a b : A) (xs : List A) → elem b (add a xs) ≡ (b == a || elem b xs)
  elem-add a b xs = ground (arith, e.equal_iff b a, elem-append b xs (a ∷ []))
