-- ===== src/Base/Order.antt =====
-- Strict total orders, the order of texts, and `sorted`.
use Prim.Native.Nat.{ℕ, suc, Ordering}
use Prim.Native.String.compare
use Prim.Native.String.{String, compare}
use mathlib.Core.Path.{◌≡◌, refl, sym}
use mathlib.Core.Logic.{inl, inr}
use mathlib.Core.Bool.{Bool, true, false, ◌||◌}
use mathlib.Core.List.{List, [], ◌∷◌}
use native.Mathlib.Omega.{arith}
use text.Mathlib.TextEquality.{path_by_compare}
use text.Mathlib.Text.{is_lt}
use hs_fob.Base.Tests.{ltb, Eq, ◌==◌, nat_eq, string_eq, if◌then◌else◌, Bool-cases}
use hs_fob.Base.Lists.{length}
use hs_fob.Base.Int.{ℤ, ltb_ℤ}
use hs_fob.Base.Sets.{elem, Distinct}
use hs_fob.Base.Count.{without, elem-without, Subset}

-- A type whose `<` is a strict total order.
pub record Ord {ℓ} (A : Type ℓ) : Type ℓ where
  pub less : A → A → Bool
  pub less_irrefl : (a : A) → less a a ≡ false
  pub less_trans : (a b c : A) → less a b ≡ true → less b c ≡ true → less a c ≡ true
  pub less_total : (a b : A) → less a b ≡ false → less b a ≡ false → a ≡ b

text_trans :
    (s t u : String)
    → compare s t ≡ Ordering.lt
    → compare t u ≡ Ordering.lt
    → compare s u ≡ Ordering.lt
text_trans String.[] String.[] u p q = cc
text_trans String.[] (String.◌∷◌ d t) String.[] p q = cc (compare.cons-nil d t)
text_trans String.[] (String.◌∷◌ d t) (String.◌∷◌ f u) p q = compare.nil-cons f u
text_trans (String.◌∷◌ c s) String.[] u p q = cc (compare.cons-nil c s)
text_trans (String.◌∷◌ c s) (String.◌∷◌ d t) String.[] p q = cc (compare.cons-nil d t)
text_trans (String.◌∷◌ c s) (String.◌∷◌ d t) (String.◌∷◌ f u) p q = ground (
  arith,
  compare.cons-cons c d s t,
  compare.cons-cons d f t u,
  compare.cons-cons c f s u,
  text_trans s t u,
)

text_refl : (s : String) → compare s s ≡ Ordering.eq
text_refl String.[] = compare.nil-nil
text_refl (String.◌∷◌ c s) = ground (arith, compare.cons-cons c c s s, text_refl s)

text_flip : (s t : String) → compare s t ≡ Ordering.gt → compare t s ≡ Ordering.lt
text_flip String.[] String.[] p = cc
text_flip String.[] (String.◌∷◌ d t) p = cc (compare.nil-cons d t)
text_flip (String.◌∷◌ c s) String.[] p = compare.nil-cons c s
text_flip (String.◌∷◌ c s) (String.◌∷◌ d t) p =
    ground (arith, compare.cons-cons c d s t, compare.cons-cons d c t s, text_flip s t)

-- `s < t` on Python texts: by code points, lexicographically.
abbrev pub text_less : String → String → Bool
text_less s t = is_lt (compare s t)

pub text_less_irrefl : (s : String) → text_less s s ≡ false
text_less_irrefl s = rw text_refl

pub text_less_trans :
    (s t u : String) → text_less s t ≡ true → text_less t u ≡ true → text_less s u ≡ true
text_less_trans s t u p q = ground (arith, text_trans s t u)

pub text_less_total : (s t : String) → text_less s t ≡ false → text_less t s ≡ false → s ≡ t
text_less_total s t p q = path_by_compare s t (ground (arith, text_flip s t))

instance abbrev pub string_ord : Ord String
string_ord = record {
  less = text_less;
  less_irrefl = text_less_irrefl;
  less_trans = text_less_trans;
  less_total = text_less_total;
}

pub nat_less_irrefl : (a : ℕ) → ltb a a ≡ false
nat_less_irrefl a = ground arith

pub nat_less_trans : (a b c : ℕ) → ltb a b ≡ true → ltb b c ≡ true → ltb a c ≡ true
nat_less_trans a b c p q = ground arith

pub nat_less_total : (a b : ℕ) → ltb a b ≡ false → ltb b a ≡ false → a ≡ b
nat_less_total a b p q = ground arith

instance abbrev pub nat_ord : Ord ℕ
nat_ord = record {
  less = ltb;
  less_irrefl = nat_less_irrefl;
  less_trans = nat_less_trans;
  less_total = nat_less_total;
}

pub int_less_irrefl : (a : ℤ) → ltb_ℤ a a ≡ false
int_less_irrefl a = ground arith

pub int_less_trans : (a b c : ℤ) → ltb_ℤ a b ≡ true → ltb_ℤ b c ≡ true → ltb_ℤ a c ≡ true
int_less_trans a b c p q = ground arith

pub int_less_total : (a b : ℤ) → ltb_ℤ a b ≡ false → ltb_ℤ b a ≡ false → a ≡ b
int_less_total (ℤ.pos a) (ℤ.pos b) p q = ground arith
int_less_total (ℤ.pos a) (ℤ.negsuc b) p q = ground arith
int_less_total (ℤ.negsuc a) (ℤ.pos b) p q = ground arith
int_less_total (ℤ.negsuc a) (ℤ.negsuc b) p q = ground arith

instance abbrev pub int_ord : Ord ℤ
int_ord = record {
  less = ltb_ℤ;
  less_irrefl = int_less_irrefl;
  less_trans = int_less_trans;
  less_total = int_less_total;
}

module _ {ℓ} {A : Type ℓ} ⦃e : Eq A⦄ ⦃o : Ord A⦄ where
  abbrev pub insert_sorted : A → List A → List A
  insert_sorted a [] = a ∷ []
  insert_sorted a (x ∷ xs) = if o.less x a then x ∷ insert_sorted a xs else a ∷ x ∷ xs

  -- `sorted(xs)`, without repetitions in mind: the order of equal elements does not show
  abbrev pub sorted : List A → List A
  sorted [] = []
  sorted (x ∷ xs) = insert_sorted x (sorted xs)

  elem-insert_sorted : (a b : A) (xs : List A) → elem b (insert_sorted a xs) ≡ (b == a || elem b xs)
  elem-insert_sorted a b [] = refl
  elem-insert_sorted a b (x ∷ xs) = ground (arith, elem-insert_sorted a b xs)

  pub elem-sorted : (a : A) (xs : List A) → elem a (sorted xs) ≡ elem a xs
  elem-sorted a [] = refl
  elem-sorted a (x ∷ xs) = rw (elem-insert_sorted x a (sorted xs), elem-sorted a xs) refl

  length-insert_sorted : (a : A) (xs : List A) → length (insert_sorted a xs) ≡ suc (length xs)
  length-insert_sorted a [] = refl
  length-insert_sorted a (x ∷ xs) = ground (arith, length-insert_sorted a xs)

  pub length-sorted : (xs : List A) → length (sorted xs) ≡ length xs
  length-sorted [] = refl
  length-sorted (x ∷ xs) = rw (length-insert_sorted x (sorted xs), length-sorted xs) refl

  insert_sorted_comm :
      (a b : A) (xs : List A)
      → insert_sorted a (insert_sorted b xs) ≡ insert_sorted b (insert_sorted a xs)
  insert_sorted_comm a b [] = ground (arith, o.less_irrefl a, o.less_trans a b a, o.less_total a b)
  insert_sorted_comm a b (x ∷ xs) = ground (
    arith,
    insert_sorted_comm a b xs,
    o.less_irrefl a,
    o.less_trans a b a,
    o.less_total a b,
    o.less_trans a x b,
    o.less_trans b x a,
    o.less_trans x a b,
    o.less_trans x b a,
    o.less_total x a,
    o.less_total x b,
  )

  sorted-insert_sorted :
      (a : A) (xs : List A) → sorted (insert_sorted a xs) ≡ insert_sorted a (sorted xs)
  sorted-insert_sorted a [] = refl
  sorted-insert_sorted a (x ∷ xs) = elim (Bool-cases (o.less x a)) [
    | inl before ↦ rw (before, sorted-insert_sorted a xs) (insert_sorted_comm x a (sorted xs))
    | inr after ↦ rw after refl
  ]

  -- Sorting twice is sorting once.
  pub sorted-sorted : (xs : List A) → sorted (sorted xs) ≡ sorted xs
  sorted-sorted [] = refl
  sorted-sorted (x ∷ xs) = rw (sorted-insert_sorted x (sorted xs), sorted-sorted xs) refl

  sorted-without :
      (y : A) (ys : List A) → elem y ys ≡ true → sorted ys ≡ insert_sorted y (sorted (without y ys))
  unfolding without
  sorted-without y [] h = ground arith
  sorted-without y (x ∷ xs) h = elim (Bool-cases (y == x)) [
    | inl same ↦ ground (arith, e.equal_iff y x)
    | inr other ↦
        rw (other, sorted-without y xs (ground arith))
          (insert_sorted_comm x y (sorted (without y xs)))
  ]

  elem-without_self : (y : A) (ys : List A) → Distinct ys → elem y (without y ys) ≡ false
  unfolding without
  elem-without_self y [] d = refl
  elem-without_self y (x ∷ xs) d = ground (arith, e.equal_iff y x, elem-without_self y xs d.1)

  elem-without_sub : (b y : A) (ys : List A) → elem b (without y ys) ≡ true → elem b ys ≡ true
  unfolding without
  elem-without_sub b y [] h = h
  elem-without_sub b y (x ∷ xs) h = ground (arith, elem-without_sub b y xs)

  without-Distinct : (y : A) (ys : List A) → Distinct ys → Distinct (without y ys)
  unfolding without
  without-Distinct y [] d = tt
  without-Distinct y (x ∷ xs) d = ground (arith, without-Distinct y xs d.1, elem-without_sub x y xs)

  -- Sorting forgets the order in which a set is listed.
  pub sorted-eq :
      (xs ys : List A)
      → Distinct xs
      → Distinct ys
      → Subset xs ys
      → Subset ys xs
      → sorted xs ≡ sorted ys
  sorted-eq [] [] dx dy sx sy = refl
  sorted-eq [] (y ∷ ys) dx dy sx sy = ground (arith, sy y, e.equal_iff y y)
  sorted-eq (x ∷ xs) ys dx dy sx sy =
      let inside = sx x (ground (arith, e.equal_iff x x)) in
      let ih =
        sorted-eq xs (without x ys) dx.1 (without-Distinct x ys dy)
          (λ b hb.
            elem-without x b ys (λ q. ground (arith, dx.0, hb, q)) (sx b (ground (arith, hb))))
          (λ b hb. ground (
            arith,
            e.equal_iff b x,
            elem-without_self x ys dy,
            hb,
            sy b (elem-without_sub b x ys hb),
          )) in
      rw ih (sym (sorted-without x ys inside))
