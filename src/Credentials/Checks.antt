-- ===== src/Credentials/Checks.antt =====
-- credentials: the result of checking a credential or a presentation. There is one refusal for
-- each `return False, …`, in the place of its message.
use mathlib.Core.Path.{◌≡◌, refl}
use mathlib.Core.Bool.{Bool, true, false}
use mathlib.Core.Option.{Option, none, some}
use hs_fob.Credentials.Dates.{Outcome, returns, raises}

pub data Refusal : Type 0 where
  not_an_object missing_context wrong_type untrusted_issuer unusable_issuer : Refusal
  missing_subject subject_not_text unusable_subject wrong_role no_domains bad_domains : Refusal
  bad_valid_from not_yet_valid bad_valid_until expired : Refusal
  missing_proof wrong_suite wrong_purpose wrong_method missing_value bad_value : Refusal
  bad_signature : Refusal
  missing_presentation missing_challenge missing_possession : Refusal
  unusable_holder wrong_key no_possession domain_not_granted : Refusal

-- A check goes on, refuses, or raises an exception.
pub data Check {ℓ} (A : Type ℓ) : Type ℓ where
  ok : A → Check A
  refused : Refusal → Check A
  raised : Check A

infixl 5 ◌>>=◌ ◌>>◌
abbrev pub ◌>>=◌ {ℓ κ} : {A : Type ℓ} {B : Type κ} → Check A → (A → Check B) → Check B
ok a >>= f = f a
refused r >>= f = refused r
raised >>= f = raised

abbrev pub ◌>>◌ {ℓ} : {B : Type ℓ} → Check (Unit {0}) → Check B → Check B
m >> k = m >>= λ _. k

-- `if not test: return False, …`
abbrev pub require : Bool → Refusal → Check (Unit {0})
require true r = ok tt
require false r = refused r

-- A value, or the refusal that its absence is
abbrev pub have {ℓ} : {A : Type ℓ} → Option A → Refusal → Check A
have none r = refused r
have (some a) r = ok a

-- A call that may raise
abbrev pub call {ℓ} : {A : Type ℓ} → Outcome A → Check A
call (returns a) = ok a
call raises = raised

-- A call whose exception is not caught
abbrev pub total {ℓ} : {A : Type ℓ} → Option A → Check A
total none = raised
total (some a) = ok a

pub bind-ok {ℓ κ} :
    {A : Type ℓ} {B : Type κ} (m : Check A) (f : A → Check B) {b : B}
    → (m >>= f) ≡ ok b
    → (a : A) × (m ≡ ok a) × (f a ≡ ok b)
bind-ok (ok a) f h = (a, refl, h)
bind-ok (refused r) f h = cc
bind-ok raised f h = cc

pub require_last : (t : Bool) (r : Refusal) → require t r ≡ ok tt → t ≡ true
require_last true r h = refl
require_last false r h = cc

pub require-ok {ℓ} :
    {B : Type ℓ} (t : Bool) (r : Refusal) (k : Check B) {b : B}
    → (require t r >> k) ≡ ok b
    → (t ≡ true) × (k ≡ ok b)
require-ok true r k h = (refl, h)
require-ok false r k h = cc

module _ {ℓ κ} {A : Type ℓ} {B : Type κ} where
  pub have-ok :
      (o : Option A) (r : Refusal) (f : A → Check B) {b : B}
      → (have o r >>= f) ≡ ok b
      → (a : A) × (o ≡ some a) × (f a ≡ ok b)
  have-ok none r f h = cc
  have-ok (some a) r f h = (a, refl, h)

  pub total-ok :
      (o : Option A) (f : A → Check B) {b : B}
      → (total o >>= f) ≡ ok b
      → (a : A) × (o ≡ some a) × (f a ≡ ok b)
  total-ok none f h = cc
  total-ok (some a) f h = (a, refl, h)

  pub call-ok :
      (o : Outcome A) (f : A → Check B) {b : B}
      → (call o >>= f) ≡ ok b
      → (a : A) × (o ≡ returns a) × (f a ≡ ok b)
  call-ok raises f h = cc
  call-ok (returns a) f h = (a, refl, h)
