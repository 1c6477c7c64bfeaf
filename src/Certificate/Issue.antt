-- ===== src/Certificate/Issue.antt =====
-- Certificates that are issued and certificates that consensus accepts (attestation/aggregator.py) are the
-- same ones.
use mathlib.Core.Option.{some-injective}
use hs_fob.Base.{
  ◌≡◌, refl, sym, ap, ◌∙◌, Bool, true, false, ◌&&◌, Option, none, some, List, [], ◌∷◌, String,
  string_eq, ==-refl, if◌then◌else◌, arith,
}
use hs_fob.Base.Int.{ℤ, ◌≤ℤ◌, ltb_ℤ, leb_ℤ, int_eq}
use hs_fob.Base.Sets.{to_set, elem-to_set, to_set-Distinct}
use hs_fob.Base.Order.{sorted, string_ord, int_ord, sorted-sorted, sorted-eq, elem-sorted}
use hs_fob.Values.{Value, str, list, of_texts}
use hs_fob.Crypto.{Platform}
use hs_fob.Transaction.{Transaction}
use hs_fob.Block.{Block}
use hs_fob.Attestation.{fields}
use hs_fob.Registry.{ReputationRegistry, weight}
use hs_fob.Tally.{Scope, positive_attesters, capped_support}
use hs_fob.Certificate.{
  certificate_threshold, make_certificate, of_ints, credited, certify, validate_certificate,
  required_items_covered, texts_of, texts_beq, grants,
}

texts_of-of_texts : (xs : List String) → texts_of (of_texts xs) ≡ some xs
texts_of-of_texts [] = refl
texts_of-of_texts (x ∷ xs) = rw (texts_of-of_texts xs) refl

texts_beq_refl : (xs : List String) → texts_beq xs xs ≡ true
texts_beq_refl [] = refl
texts_beq_refl (x ∷ xs) = ground (arith, ==-refl x, texts_beq_refl xs)

-- A list of items that has been sorted and rid of repetitions stays as it is.
canonical : (r : List ℤ) → sorted (to_set (sorted (to_set r))) ≡ sorted (to_set r)
canonical r =
    sorted-eq (to_set (sorted (to_set r))) (to_set r) (to_set-Distinct (sorted (to_set r)))
      (to_set-Distinct r)
      (λ n h. sym (elem-sorted n (to_set r)) ∙ sym (elem-to_set n (sorted (to_set r))) ∙ h)
      (λ n h. elem-to_set n (sorted (to_set r)) ∙ elem-sorted n (to_set r) ∙ h)

grants-sorted :
    (granted names : List String)
    → grants (some (list (of_texts (sorted granted)))) (sorted names)
      ≡ texts_beq (sorted granted) (sorted names)
grants-sorted granted names =
    ap
      (λ (o : Option (List String)). elim o [
        | none ↦ false
        | some ss ↦ texts_beq (sorted ss) (sorted names)
      ])
      (texts_of-of_texts (sorted granted))
    ∙ ap (λ (l : List String). texts_beq l (sorted names)) (sorted-sorted granted)

module _ (p : Platform) (blocks : List Block) (registry : ReputationRegistry)
    (subject rubric_root domain submission : String) where
  abbrev scope : Scope
  scope = record {
    subject = str subject;
    rubric_root = str rubric_root;
    domain = str domain;
    submission = str submission;
  }

  abbrev weights : String → ℤ
  weights a = weight registry a domain

  -- who has to be credited
  abbrev names : List String
  names = credited weights (positive_attesters blocks scope)

  support : ℤ
  support = capped_support blocks (positive_attesters blocks scope) weights

  -- what a made certificate has to pass
  validate-make :
      (granted : List String) (required : List ℤ) (issuer : String) (now : Value)
      → validate_certificate p blocks registry (
          fields
            (make_certificate subject rubric_root domain submission granted required issuer now))
        ≡ (leb_ℤ certificate_threshold support
            && required_items_covered p blocks scope (of_ints (sorted (to_set required))) weights
            && texts_beq (sorted granted) (sorted names))
  unfolding validate_certificate make_certificate support
  validate-make granted required issuer now = rw (grants-sorted granted names) refl

  -- What `certify` issues at the protocol's threshold or above, consensus accepts.
  pub certify-validate :
      (threshold : ℤ) (required : List ℤ) (issuer : String) (now : Value) {tx : Transaction}
      → certificate_threshold ≤ℤ threshold
      → certify p blocks registry subject rubric_root domain submission threshold required issuer
          now
        ≡ some tx
      → validate_certificate p blocks registry (fields tx) ≡ true
  unfolding certify support
  certify-validate threshold required issuer now {tx} high e =
      of (ltb_ℤ support threshold)
        (required_items_covered p blocks scope (of_ints (sorted (to_set required))) weights) refl
        refl e
    where
      of :
          (low covered : Bool)
          → ltb_ℤ support threshold ≡ low
          → required_items_covered p blocks scope (of_ints (sorted (to_set required))) weights
            ≡ covered
          → (if low
              then none
              else if covered
              then some (
                  make_certificate subject rubric_root domain submission names
                    (sorted (to_set required))
                    issuer
                    now)
              else none)
            ≡ some tx
          → validate_certificate p blocks registry (fields tx) ≡ true
      of true covered l c q = absurd (cc)
      of false false l c q = absurd (cc)
      of false true l c q =
          ap (λ (t : Transaction). validate_certificate p blocks registry (fields t))
            (sym (some-injective _ _ q))
          ∙ validate-make names (sorted (to_set required)) issuer now
          ∙ rw (canonical required, c, texts_beq_refl (sorted names)) (ground (arith, l, high))
