-- ===== src/Base/Digits.antt =====
-- Numbers in positional notation, most significant digit first, and texts of digits converted from
-- one base to another, leading zeros kept.
use Prim.Native.Nat.{◌-◌, ℕ, zero, suc, ◌+◌, ◌*◌, ◌/◌, ◌%◌, ◌<◌, ◌≤◌}
use mathlib.Core.Path.{◌≡◌, refl, sym, ap, ◌∙◌}
use mathlib.Core.Logic.{◌⊎◌, inl, inr}
use mathlib.Core.Bool.{Bool, true, false}
use mathlib.Core.List.{List, [], ◌∷◌, ◌++◌, append-nil}
use native.Mathlib.Omega.{arith}
use hs_fob.Base.Tests.{nat_beq, ltb, if◌then◌else◌, Bool-cases, Eq, nat_eq, ◌==◌}
use hs_fob.Base.Lists.{length, all, length-append}

-- What the division by a base does.
pub record IsBase (b : ℕ) : Type 0 where
  pub below : (n : ℕ) → n % b < b
  pub divmod : (n : ℕ) → n / b * b + n % b ≡ n
  pub shrink : (n : ℕ) → 0 < n → n / b < n
  pub grow : (n : ℕ) → 0 < n → 0 < n * b
  pub div_digit : (m d : ℕ) → d < b → (m * b + d) / b ≡ m
  pub mod_digit : (m d : ℕ) → d < b → (m * b + d) % b ≡ d

pub IsBase-58 : IsBase 58
IsBase-58 = record {
  below = λ n. omega arith;
  divmod = λ n. omega arith;
  shrink = λ n h. omega arith;
  grow = λ n h. omega arith;
  div_digit = λ m d h. omega arith;
  mod_digit = λ m d h. omega arith;
}

pub IsBase-256 : IsBase 256
IsBase-256 = record {
  below = λ n. omega arith;
  divmod = λ n. omega arith;
  shrink = λ n h. omega arith;
  grow = λ n h. omega arith;
  div_digit = λ m d h. omega arith;
  mod_digit = λ m d h. omega arith;
}

module _ (b : ℕ) where
  -- The number that the digits `ds`, after the number `n`, stand for.
  unfoldable pub value : ℕ → List ℕ → ℕ
  value n [] = n
  value n (d ∷ ds) = value (n * b + d) ds

  -- The digits of `n` in front of `ds`, on fuel.
  unfoldable pub digits : ℕ → ℕ → List ℕ → List ℕ
  digits zero n ds = ds
  digits (suc f) n ds = elim (nat_beq n 0) [ true ↦ ds | false ↦ digits f (n / b) (n % b ∷ ds) ]

  abbrev pub AreDigits : List ℕ → Type 0
  AreDigits ds = all (λ d. ltb d b) ds ≡ true

-- `xs.lstrip(a)`
abbrev pub lstrip {ℓ} : {A : Type ℓ} ⦃e : Eq A⦄ → A → List A → List A
lstrip a [] = []
lstrip a (x ∷ xs) = if x == a then lstrip a xs else x ∷ xs

-- `[a] * n`
abbrev pub repeat {ℓ} : {A : Type ℓ} → ℕ → A → List A
repeat zero a = []
repeat (suc n) a = a ∷ repeat n a

-- How many times `a` stands at the front: `len(xs) - len(xs.lstrip(a))`.
abbrev pub leading {ℓ} : {A : Type ℓ} ⦃e : Eq A⦄ → A → List A → ℕ
leading a xs = length xs - length (lstrip a xs)

-- The digits in base `c` of what `ds` is in base `b`, with the same zeros in front.
unfoldable pub convert : (b c : ℕ) → List ℕ → List ℕ
convert b c ds = let n = value b 0 ds in repeat (leading 0 ds) 0 ++ digits c n n []

abbrev pub starts_zero : List ℕ → Bool
starts_zero [] = false
starts_zero (d ∷ ds) = d == 0

zero_or_pos : (n : ℕ) → (n ≡ 0) ⊎ (0 < n)
zero_or_pos zero = inl refl
zero_or_pos (suc n) = inr (omega arith)

module _ {b : ℕ} (h : IsBase b) where
  pub digits-fuel : (f g n : ℕ) (ds : List ℕ) → n ≤ f → n ≤ g → digits b f n ds ≡ digits b g n ds
  unfolding digits
  digits-fuel zero zero n ds p q = refl
  digits-fuel zero (suc g) n ds p q = ground arith
  digits-fuel (suc f) zero n ds p q = ground arith
  digits-fuel (suc f) (suc g) n ds p q =
      elim (nat_beq n 0)
          as (λ z.
            (nat_beq n 0 ≡ z)
            → elim z as (λ _. List ℕ) [ true ↦ ds | false ↦ digits b f (n / b) (n % b ∷ ds) ]
              ≡ elim z as (λ _. List ℕ) [ true ↦ ds | false ↦ digits b g (n / b) (n % b ∷ ds) ]) [
                | true ↦ λ _. refl
                | false ↦ λ e.
                    digits-fuel f g (n / b) (n % b ∷ ds) (ground (arith, h.shrink n))
                      (ground (arith, h.shrink n))
              ]
        refl

  pub digits-append : (f n : ℕ) (ds es : List ℕ) → digits b f n (ds ++ es) ≡ digits b f n ds ++ es
  unfolding digits
  digits-append zero n ds es = refl
  digits-append (suc f) n ds es = ground (arith, digits-append f (n / b) (n % b ∷ ds) es)

  pub value-digits : (f n : ℕ) (ds : List ℕ) → n ≤ f → value b 0 (digits b f n ds) ≡ value b n ds
  unfolding digits value
  value-digits zero n ds p = ap (λ m. value b m ds) (omega arith)
  value-digits (suc f) n ds p =
      ground (arith, h.shrink n, h.divmod n, value-digits f (n / b) (n % b ∷ ds))

  digits_more :
      (f n : ℕ) (ds : List ℕ) → 0 < n → digits b (suc f) n ds ≡ digits b f (n / b) (n % b ∷ ds)
  unfolding digits
  digits_more f n ds p = ground arith

  pub digits_step :
      (n : ℕ) (ds : List ℕ) → 0 < n → digits b n n ds ≡ digits b (n / b) (n / b) (n % b ∷ ds)
  digits_step zero ds p = ground arith
  digits_step (suc n) ds p =
      digits_more n (suc n) ds p
      ∙ digits-fuel n (suc n / b) (suc n / b) (suc n % b ∷ ds) (omega (arith, h.shrink (suc n)))
          (omega arith)

  pub digits-digit :
      (m d : ℕ) (ds : List ℕ)
      → d < b
      → 0 < m * b + d
      → digits b (m * b + d) (m * b + d) ds ≡ digits b m m (d ∷ ds)
  digits-digit m d ds p q =
      digits_step (m * b + d) ds q ∙ rw (h.div_digit m d p, h.mod_digit m d p) refl

  pub digits-value :
      (f m : ℕ) (ds acc : List ℕ)
      → 0 < m
      → AreDigits b ds
      → value b m ds ≤ f
      → digits b f (value b m ds) acc ≡ digits b m m (ds ++ acc)
  unfolding value
  digits-value f m [] acc p q r = digits-fuel f m m acc r (omega arith)
  digits-value f m (d ∷ ds) acc p q r =
      digits-value f (m * b + d) ds acc (omega (arith, h.grow m p)) (ground (arith, q)) r
      ∙ digits-digit m d (ds ++ acc) (ground (arith, q)) (omega (arith, h.grow m p))

  pub value-pos : (m : ℕ) (ds : List ℕ) → 0 < m → 0 < value b m ds
  unfolding value
  value-pos m [] p = p
  value-pos m (d ∷ ds) p = value-pos (m * b + d) ds (omega (arith, h.grow m p))

  digits_zero : (f : ℕ) (ds : List ℕ) → digits b f 0 ds ≡ ds
  unfolding digits
  digits_zero zero ds = refl
  digits_zero (suc f) ds = refl

  pub digits-starts_zero :
      (f n : ℕ) (ds : List ℕ) → n ≤ f → 0 < n → starts_zero (digits b f n ds) ≡ false
  digits-starts_zero zero n ds p q = ground arith
  digits-starts_zero (suc f) n ds p q =
      ap starts_zero (digits_more f n ds q) ∙ elim (zero_or_pos (n / b)) [
        | inl e ↦ rw (e, digits_zero f (n % b ∷ ds)) (ground (arith, h.divmod n))
        | inr e ↦ digits-starts_zero f (n / b) (n % b ∷ ds) (omega (arith, h.shrink n q)) e
      ]

  -- Digits without a leading zero are those of their value.
  pub digits-of_value :
      (ds : List ℕ)
      → starts_zero ds ≡ false
      → AreDigits b ds
      → digits b (value b 0 ds) (value b 0 ds) [] ≡ ds
  unfolding value
  digits-of_value [] p q = digits_zero 0 []
  digits-of_value (d ∷ ds) p q =
      let above : 0 < d = ground (arith, p) in
      let below : d < b = ground (arith, q) in
      let same : 0 * b + d ≡ d = omega arith in
      ap (λ m. digits b (value b m ds) (value b m ds) []) same
      ∙ digits-value (value b d ds) d ds [] above (ground (arith, q)) (omega arith)
      ∙ ap (digits b d d) (append-nil ds)
      ∙ ap (λ m. digits b m m ds) (sym same)
      ∙ digits-digit 0 d ds below (omega (arith, above))
      ∙ digits_zero 0 (d ∷ ds)

  pub digits-AreDigits :
      (f n : ℕ) (ds : List ℕ) → n ≤ f → AreDigits b ds → AreDigits b (digits b f n ds)
  unfolding digits
  digits-AreDigits zero n ds p q = q
  digits-AreDigits (suc f) n ds p q =
      ground (arith, h.below n, h.shrink n, digits-AreDigits f (n / b) (n % b ∷ ds))

pub starts_zero-digits : {b : ℕ} (h : IsBase b) (n : ℕ) → starts_zero (digits b n n []) ≡ false
unfolding digits
starts_zero-digits {b} h n = elim (zero_or_pos n) [
  | inl e ↦ ap (λ m. starts_zero (digits b m m [])) e
  | inr e ↦ digits-starts_zero h n n [] (omega arith) e
]

pub lstrip-starts_zero : (ds : List ℕ) → starts_zero (lstrip 0 ds) ≡ false
lstrip-starts_zero [] = refl
lstrip-starts_zero (d ∷ ds) = ground (arith, lstrip-starts_zero ds)

pub length-lstrip {ℓ} :
    {A : Type ℓ} ⦃e : Eq A⦄ (a : A) (xs : List A) → length (lstrip a xs) ≤ length xs
length-lstrip a [] = omega arith
length-lstrip a (x ∷ xs) = ground (arith, length-lstrip a xs)

pub leading-lstrip {ℓ} :
    {A : Type ℓ} ⦃e : Eq A⦄ (a : A) (xs : List A) → repeat (leading a xs) a ++ lstrip a xs ≡ xs
leading-lstrip a [] = refl
leading-lstrip ⦃e⦄ a (x ∷ xs) =
    let more : suc (length xs) - length (lstrip a xs) ≡ suc (leading a xs) =
      omega (arith, length-lstrip a xs) in
    let none_off : suc (length xs) - suc (length xs) ≡ 0 = omega arith in
    elim (Bool-cases (x == a)) [
      | inl q ↦ rw (q, more) (cc ((e.equal_iff x a).0 q, leading-lstrip a xs))
      | inr q ↦ rw (q, none_off) refl
    ]

pub lstrip-AreDigits : (b : ℕ) (ds : List ℕ) → AreDigits b ds → AreDigits b (lstrip 0 ds)
lstrip-AreDigits b [] p = p
lstrip-AreDigits b (d ∷ ds) p = ground (arith, lstrip-AreDigits b ds)

pub lstrip-repeat :
    (n : ℕ) (ds : List ℕ) → starts_zero ds ≡ false → lstrip 0 (repeat n 0 ++ ds) ≡ ds
lstrip-repeat zero [] p = refl
lstrip-repeat zero (d ∷ ds) p = ground (arith, p)
lstrip-repeat (suc n) ds p = lstrip-repeat n ds p

pub value-repeat : (b n : ℕ) (ds : List ℕ) → value b 0 (repeat n 0 ++ ds) ≡ value b 0 ds
unfolding value
value-repeat b zero ds = refl
value-repeat b (suc n) ds =
    ap (λ m. value b m (repeat n 0 ++ ds)) (omega arith) ∙ value-repeat b n ds

pub length-repeat {ℓ} : {A : Type ℓ} (n : ℕ) (a : A) → length (repeat n a) ≡ n
length-repeat zero a = refl
length-repeat (suc n) a = ap suc (length-repeat n a)

pub leading-repeat :
    (n : ℕ) (ds : List ℕ) → starts_zero ds ≡ false → leading 0 (repeat n 0 ++ ds) ≡ n
leading-repeat n ds p =
    rw (lstrip-repeat n ds p, length-append (repeat n 0) ds, length-repeat {A = ℕ} n 0)
      (omega arith)

-- Converting to another base and back gives the digits that one started with.
pub convert-convert :
    {b c : ℕ}
    → IsBase b
    → IsBase c
    → (ds : List ℕ) → AreDigits b ds
    → convert c b (convert b c ds) ≡ ds
unfolding convert value
convert-convert {b} {c} h k ds p =
    let z = leading 0 ds in
    let rest = lstrip 0 ds in
    let n = value b 0 ds in
    let r = digits c n n [] in
    let whole : repeat z 0 ++ rest ≡ ds = leading-lstrip 0 ds in
    let same : n ≡ value b 0 rest = ap (value b 0) (sym whole) ∙ value-repeat b z rest in
    let back : value c 0 (repeat z 0 ++ r) ≡ n =
      value-repeat c z r ∙ value-digits k n n [] (omega arith) in
    ap (λ x. repeat x 0 ++ digits b (value c 0 (repeat z 0 ++ r)) (value c 0 (repeat z 0 ++ r)) [])
      (leading-repeat z r (starts_zero-digits k n))
    ∙ ap (λ m. repeat z 0 ++ digits b m m []) (back ∙ same)
    ∙ ap (◌++◌ (repeat z 0))
        (digits-of_value h rest (lstrip-starts_zero ds) (lstrip-AreDigits b ds p))
    ∙ whole

repeat-AreDigits :
    {b : ℕ} → IsBase b → (n : ℕ) (ds : List ℕ) → AreDigits b ds → AreDigits b (repeat n 0 ++ ds)
repeat-AreDigits h zero ds p = p
repeat-AreDigits h (suc n) ds p = ground (arith, h.below 0, repeat-AreDigits h n ds p)

pub convert-AreDigits : (b : ℕ) {c : ℕ} → IsBase c → (ds : List ℕ) → AreDigits c (convert b c ds)
unfolding convert
convert-AreDigits b h ds =
    let n = value b 0 ds in
    repeat-AreDigits h (leading 0 ds) (digits _ n n [])
      (digits-AreDigits h n n [] (omega arith) refl)
