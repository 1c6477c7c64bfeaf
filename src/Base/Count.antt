-- ===== src/Base/Count.antt =====
-- Sizes of sets: a subset is no larger, and two subsets of one set overlap in at least what their
-- sizes exceed it by.
use Prim.Native.Nat.{suc, ◌+◌, ◌≤◌}
use mathlib.Core.Path.{◌≡◌}
use mathlib.Core.Logic.{◌≢◌}
use mathlib.Core.Bool.{true, false, not}
use mathlib.Core.List.{List, [], ◌∷◌, ◌++◌}
use native.Mathlib.Omega.{arith}
use hs_fob.Base.Tests.{Eq, ◌==◌, if◌then◌else◌}
use hs_fob.Base.Lists.{length, length-append}
use hs_fob.Base.Sets.{elem, Distinct, inter, minus, elem-append, elem-keep, keep-Distinct}

module _ {ℓ} {A : Type ℓ} ⦃e : Eq A⦄ where
  abbrev pub Subset : List A → List A → Type ℓ
  Subset xs ys = (a : A) → elem a xs ≡ true → elem a ys ≡ true

  unfoldable pub without : A → List A → List A
  without a [] = []
  without a (x ∷ xs) = if a == x then xs else x ∷ without a xs

  pub length-without :
      (a : A) (xs : List A) → elem a xs ≡ true → suc (length (without a xs)) ≡ length xs
  unfolding without
  length-without a [] h = ground arith
  length-without a (x ∷ xs) h = ground (arith, length-without a xs)

  pub elem-without :
      (a b : A) (xs : List A) → b ≢ a → elem b xs ≡ true → elem b (without a xs) ≡ true
  unfolding without
  elem-without a b [] n h = ground arith
  elem-without a b (x ∷ xs) n h =
      ground (arith, e.equal_iff a x, e.equal_iff b x, elem-without a b xs n)

  pub length-le_of_Subset : (xs ys : List A) → Distinct xs → Subset xs ys → length xs ≤ length ys
  length-le_of_Subset [] ys d s = omega arith
  length-le_of_Subset (x ∷ xs) ys d s =
      let inside = s x (ground (arith, e.equal_iff x x)) in
      let rest = length-le_of_Subset xs (without x ys) d.1 (λ b hb.
        elem-without x b ys (λ q. ground (arith, d.0, hb, q)) (s b (ground (arith, hb)))) in
      omega (arith, rest, length-without x ys inside)

  pub append-Distinct :
      (xs ys : List A)
      → Distinct xs
      → Distinct ys
      → ((b : A) → elem b xs ≡ true → elem b ys ≡ false)
      → Distinct (xs ++ ys)
  append-Distinct [] ys dx dy apart = dy
  append-Distinct (x ∷ xs) ys dx dy apart =
      let rest = append-Distinct xs ys dx.1 dy (λ b hb. apart b (ground (arith, hb))) in
      ground (arith, rest, elem-append x xs ys, apart x, e.equal_iff x x)

  -- `xs` splits into what lies in `ys` and what does not.
  length-inter-minus : (xs ys : List A) → length (inter xs ys) + length (minus xs ys) ≡ length xs
  length-inter-minus [] ys = omega arith
  length-inter-minus (x ∷ xs) ys = ground (arith, length-inter-minus xs ys)

  length-minus-append :
      (xs ys zs : List A)
      → Distinct xs
      → Distinct ys
      → Subset xs zs
      → Subset ys zs
      → length (minus xs ys) + length ys ≤ length zs
  length-minus-append xs ys zs dx dy sx sy =
      let parts = minus xs ys ++ ys in
      let bound =
        length-le_of_Subset parts zs
          (append-Distinct (minus xs ys) ys (keep-Distinct (λ x. not (elem x ys)) xs dx) dy
            (λ b hb. ground (arith, elem-keep (λ x. not (elem x ys)) b xs, hb)))
          (λ b hb. ground (
            arith,
            elem-append b (minus xs ys) ys,
            elem-keep (λ x. not (elem x ys)) b xs,
            hb,
            sx b,
            sy b,
          )) in
      omega (arith, bound, length-append (minus xs ys) ys)

  -- Two subsets of `zs` share at least as many elements as their sizes exceed its size by.
  pub length-inter-ge :
      (xs ys zs : List A)
      → Distinct xs
      → Distinct ys
      → Subset xs zs
      → Subset ys zs
      → length xs + length ys ≤ length zs + length (inter xs ys)
  length-inter-ge xs ys zs dx dy sx sy =
      omega (arith, length-inter-minus xs ys, length-minus-append xs ys zs dx dy sx sy)
