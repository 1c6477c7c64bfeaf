-- ===== src/Slashing/Conflict.antt =====
-- When two attestations conflict (reputation/slashing.py, `_conflicting_attestations`).
use hs_fob.Base.{
  ◌≡◌, ◌≢◌, refl, ap, sym, ◌∙◌, inl, inr, Bool, true, false, not, Option, none, some, String,
  string_eq, eq_iff, arith, Bool-cases, &&-true, &&-intro, Bool-eq_of_iff,
}
use hs_fob.Base.Int.{int_eq, int_beq_iff}
use hs_fob.Values.{Value, null, bool, int, float, str, list, dict, end, get_field, text_at, int_at}
use hs_fob.Crypto.{Platform}
use hs_fob.Transaction
use hs_fob.Transaction.{Transaction}
use hs_fob.Attestation.{is_attestation, is_abstain, fields, lacks_verdict}
use hs_fob.Slashing.{bool_of, opposite, conflicting_attestations}

opposite_comm : (a b : Option Bool) → opposite a b ≡ opposite b a
opposite_comm none none = refl
opposite_comm none (some true) = refl
opposite_comm none (some false) = refl
opposite_comm (some true) none = refl
opposite_comm (some false) none = refl
opposite_comm (some true) (some true) = refl
opposite_comm (some true) (some false) = refl
opposite_comm (some false) (some true) = refl
opposite_comm (some false) (some false) = refl

-- The two verdicts of a conflict, as facts.
pub record IsConflict (p : Platform) (offender domain : String) (a b : Transaction) : Type 0 where
  pub attests_a : is_attestation a ≡ true
  pub attests_b : is_attestation b ≡ true
  pub sender_a : a.sender ≡ offender
  pub sender_b : b.sender ≡ offender
  pub signed_a : Transaction.verify_signature p a ≡ true
  pub signed_b : Transaction.verify_signature p b ≡ true
  pub domain_a : text_at "domain" (fields a) ≡ domain
  pub domain_b : text_at "domain" (fields b) ≡ domain
  pub subject : text_at "subject" (fields a) ≡ text_at "subject" (fields b)
  pub rubric_root : text_at "rubric_root" (fields a) ≡ text_at "rubric_root" (fields b)
  pub item_index : int_at "item_index" (fields a) ≡ int_at "item_index" (fields b)
  pub verdicts :
      (v : Bool) × (get_field "verdict" (fields a) ≡ some (bool v))
      × (get_field "verdict" (fields b) ≡ some (bool (not v)))

bool_of-some : (o : Option Value) (b : Bool) → bool_of o ≡ some b → o ≡ some (bool b)
bool_of-some (some (bool x)) b h = ground arith
bool_of-some _ b h = absurd (cc)

opposite-some :
    (x y : Option Bool) → opposite x y ≡ true → (v : Bool) × (x ≡ some v) × (y ≡ some (not v))
opposite-some (some true) (some false) h = (true, refl, refl)
opposite-some (some false) (some true) h = (false, refl, refl)
opposite-some (some true) none h = absurd (cc)
opposite-some (some false) none h = absurd (cc)
opposite-some (some true) (some true) h = absurd (cc)
opposite-some (some false) (some false) h = absurd (cc)
opposite-some none y h = absurd (cc)

opposite-bools :
    (a b : Option Value)
    → opposite (bool_of a) (bool_of b) ≡ true
    → (v : Bool) × (a ≡ some (bool v)) × (b ≡ some (bool (not v)))
opposite-bools a b h =
    let (v, ea, eb) = opposite-some (bool_of a) (bool_of b) h in
    (v, bool_of-some a v ea, bool_of-some b (not v) eb)

pub conflicting-IsConflict :
    (p : Platform) (a b : Transaction) (offender domain : String)
    → conflicting_attestations p a b offender domain ≡ true
    → IsConflict p offender domain a b
unfolding conflicting_attestations
conflicting-IsConflict p a b offender domain h =
    let c11 = &&-true _ _ h in
    let c10 = &&-true _ _ c11.0 in
    let c9 = &&-true _ _ c10.0 in
    let c8 = &&-true _ _ c9.0 in
    let c7 = &&-true _ _ c8.0 in
    let c6 = &&-true _ _ c7.0 in
    let c5 = &&-true _ _ c6.0 in
    let c4 = &&-true _ _ c5.0 in
    let c3 = &&-true _ _ c4.0 in
    let c2 = &&-true _ _ c3.0 in
    let c1 = &&-true _ _ c2.0 in
    record {
      attests_a = c1.0;
      attests_b = c1.1;
      sender_a = (eq_iff a.sender offender).0 c2.1;
      sender_b = (eq_iff b.sender offender).0 c3.1;
      signed_a = c4.1;
      signed_b = c5.1;
      domain_a = (eq_iff (text_at "domain" (fields a)) domain).0 c6.1;
      domain_b = (eq_iff (text_at "domain" (fields b)) domain).0 c7.1;
      subject = (eq_iff (text_at "subject" (fields a)) (text_at "subject" (fields b))).0 c8.1;
      rubric_root =
          (eq_iff (text_at "rubric_root" (fields a)) (text_at "rubric_root" (fields b))).0 c9.1;
      item_index =
          (int_beq_iff (int_at "item_index" (fields a)) (int_at "item_index" (fields b))).0 c10.1;
      verdicts =
          opposite-bools (get_field "verdict" (fields a)) (get_field "verdict" (fields b)) c11.1;
    }

IsConflict-swap :
    {p : Platform} {offender domain : String} {a b : Transaction}
    → IsConflict p offender domain a b
    → IsConflict p offender domain b a
IsConflict-swap c = record {
  attests_a = c.attests_b;
  attests_b = c.attests_a;
  sender_a = c.sender_b;
  sender_b = c.sender_a;
  signed_a = c.signed_b;
  signed_b = c.signed_a;
  domain_a = c.domain_b;
  domain_b = c.domain_a;
  subject = sym c.subject;
  rubric_root = sym c.rubric_root;
  item_index = sym c.item_index;
  verdicts =
      let (v, ea, eb) = c.verdicts in
      (not v, eb, ea ∙ ap (λ (x : Bool). some (bool x)) (sym (not-not v)));
}
  where
    not-not : (v : Bool) → not (not v) ≡ v
    not-not true = refl
    not-not false = refl

IsConflict-conflicting :
    {p : Platform} {offender domain : String} {a b : Transaction}
    → IsConflict p offender domain a b
    → conflicting_attestations p a b offender domain ≡ true
unfolding conflicting_attestations
IsConflict-conflicting {p} {offender} {domain} {a} {b} c =
    &&-intro
      (&&-intro
        (&&-intro
          (&&-intro
            (&&-intro
              (&&-intro
                (&&-intro
                  (&&-intro
                    (&&-intro
                      (&&-intro (&&-intro c.attests_a c.attests_b) ((eq_iff _ _).1 c.sender_a))
                      ((eq_iff _ _).1 c.sender_b))
                    c.signed_a)
                  c.signed_b)
                ((eq_iff _ _).1 c.domain_a))
              ((eq_iff _ _).1 c.domain_b))
            ((eq_iff _ _).1 c.subject))
          ((eq_iff _ _).1 c.rubric_root))
        ((int_beq_iff _ _).1 c.item_index))
      (differ c.verdicts.0 (get_field "verdict" (fields a)) (get_field "verdict" (fields b))
        c.verdicts.1 c.verdicts.2)
  where
    differ :
        (v : Bool) (x y : Option Value)
        → x ≡ some (bool v)
        → y ≡ some (bool (not v))
        → opposite (bool_of x) (bool_of y) ≡ true
    differ true x y ex ey = rw (ex, ey)
    differ false x y ex ey = rw (ex, ey)

-- It does not matter which of the two attestations is named first.
pub conflicting_attestations_comm :
    (p : Platform) (a b : Transaction) (offender domain : String)
    → conflicting_attestations p a b offender domain
      ≡ conflicting_attestations p b a offender domain
conflicting_attestations_comm p a b offender domain =
    Bool-eq_of_iff _ _
      (λ h.
        IsConflict-conflicting (IsConflict-swap (conflicting-IsConflict p a b offender domain h)))
      (λ h.
        IsConflict-conflicting (IsConflict-swap (conflicting-IsConflict p b a offender domain h)))

-- An attestation that abstains is never half of a conflict, whoever signed the other half.
pub abstain-no-conflict :
    (p : Platform) (a b : Transaction) (offender domain : String)
    → is_abstain a.payload ≡ true
    → (conflicting_attestations p a b offender domain ≡ false)
      × (conflicting_attestations p b a offender domain ≡ false)
unfolding is_abstain
abstain-no-conflict p a b offender domain h =
    (never, sym (conflicting_attestations_comm p a b offender domain) ∙ never)
  where
    no_verdict :
        (v : Value) (x : Bool)
        → is_abstain v ≡ true
        → get_field "verdict" (elim v [ dict fs ↦ fs | _ ↦ end ]) ≢ some (bool x)
    no_verdict (dict fs) x abst e = cc (ap lacks_verdict e, abst)
    no_verdict null x abst e = absurd (cc)
    no_verdict (bool _) x abst e = absurd (cc)
    no_verdict (int _) x abst e = absurd (cc)
    no_verdict (float _) x abst e = absurd (cc)
    no_verdict (str _) x abst e = absurd (cc)
    no_verdict (list _) x abst e = absurd (cc)

    never : conflicting_attestations p a b offender domain ≡ false
    never = elim (Bool-cases (conflicting_attestations p a b offender domain)) [
      | inr e ↦ e
      | inl e ↦
          let c = conflicting-IsConflict p a b offender domain e in
          absurd (no_verdict a.payload c.verdicts.0 h c.verdicts.1)
    ]
