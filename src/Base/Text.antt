-- ===== src/Base/Text.antt =====
-- Texts as lists of characters, and prefixes of texts.
use Prim.Native.Char.{Char, code}
use text.Mathlib.TextEquality.{Char-path}
use mathlib.Core.Path.{◌≡◌, refl, ap}
use mathlib.Core.Logic.{◌↔◌, inl, inr}
use mathlib.Core.Bool.{true}
use mathlib.Core.List.{List, [], ◌∷◌, ◌++◌}
use mathlib.Core.Option.{Option, none, some, none-ne-some, some-injective}
use Prim.Native.String.{String}
use native.Mathlib.Omega.{arith}
use hs_fob.Base.Tests.{
  Eq, ==-refl, Bool-cases, ◌==◌, nat_beq, nat_beq_iff, string_eq, if◌then◌else◌,
}

pub char_beq_iff : (a b : Char) → (nat_beq (code a) (code b) ≡ true) ↔ (a ≡ b)
char_beq_iff a b = (
  λ h. Char-path a b ((nat_beq_iff (code a) (code b)).0 h),
  λ h. (nat_beq_iff (code a) (code b)).1 (ap code h),
)

instance abbrev pub char_eq : Eq Char
char_eq = record { equal = λ a b. nat_beq (code a) (code b); equal_iff = char_beq_iff }

abbrev pub chars : String → List Char
chars String.[] = []
chars (String.◌∷◌ c s) = c ∷ chars s

abbrev pub joined : List Char → String
joined [] = ""
joined (c ∷ cs) = String.◌∷◌ c (joined cs)

pub chars-joined : (cs : List Char) → chars (joined cs) ≡ cs
chars-joined [] = refl
chars-joined (c ∷ cs) = ap (◌∷◌ c) (chars-joined cs)

pub joined-chars : (s : String) → joined (chars s) ≡ s
joined-chars String.[] = refl
joined-chars (String.◌∷◌ c s) = ap (String.◌∷◌ c) (joined-chars s)

-- `s[len(prefix):]` if `s.startswith(prefix)`
abbrev pub after {ℓ} : {A : Type ℓ} ⦃e : Eq A⦄ → List A → List A → Option (List A)
after [] s = some s
after (p ∷ ps) [] = none
after (p ∷ ps) (a ∷ s) = let rest = after ps s in if a == p then rest else none

module _ {ℓ} {A : Type ℓ} ⦃e : Eq A⦄ where
  pub after-append : (p s : List A) → after p (p ++ s) ≡ some s
  after-append [] s = refl
  after-append (a ∷ p) s = rw (==-refl a) (after-append p s)

  pub after-some : (p s r : List A) → after p s ≡ some r → s ≡ p ++ r
  after-some [] s r h = some-injective _ _ h
  after-some (a ∷ p) [] r h = elim (none-ne-some _ h) [ ]
  after-some (a ∷ p) (b ∷ s) r h = elim (Bool-cases (b == a)) [
    | inl q ↦ cc ((e.equal_iff b a).0 q, after-some p s r (ground (arith, h, q)))
    | inr q ↦ elim (none-ne-some r (ground (arith, h, q))) [ ]
  ]
