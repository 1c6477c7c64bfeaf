-- ===== src/Certificate.antt =====
-- attestation/aggregator.py: when attestations earn a certificate, and when consensus accepts one.
-- `validate_certificate` and what it calls are modelled as whether they return True: a list that mixes
-- values which cannot be hashed or compared raises in the source, and is not accepted here.
pub mod Coverage
pub mod Issue
pub mod Statuses
pub mod Contested
use hs_fob.Base.{
  Bool, true, false, ◌&&◌, Option, none, some, List, [], ◌∷◌, String, string_eq, ◌==◌,
  if◌then◌else◌, keep, any, all, map,
}
use hs_fob.Base.Int.{ℤ, pos, negsuc, ltb_ℤ, leb_ℤ, int_eq}
use hs_fob.Base.Dict.{Dict, lookup, lookup_or}
use hs_fob.Base.Sets.{elem, to_set}
use hs_fob.Base.Order.{sorted, string_ord, int_ord}
use hs_fob.Values.{
  Value, null, bool, int, float, str, list, dict, Items, nil, cons, Fields, end, field, get_field,
  text_of, of_texts,
}
use hs_fob.Crypto.{Platform}
use hs_fob.Transaction.{Transaction}
use hs_fob.Block.{Block}
use hs_fob.Registry.{ReputationRegistry, weight}
use hs_fob.Tally.{Scope, positive_attesters, positive_attesters_by_item, capped_support}
use hs_fob.Derive.{certificate_type}

-- `DEFAULT_ISSUER`, `CERTIFICATE_THRESHOLD`
abbrev pub default_issuer : String
default_issuer = "certifier"

abbrev pub certificate_threshold : ℤ
certificate_threshold = pos 250

abbrev pub of_ints : List ℤ → Items
of_ints [] = nil
of_ints (n ∷ ns) = cons (int n) (of_ints ns)

-- `make_certificate`; the time is read from the clock, and no list of items is the empty one
unfoldable pub make_certificate :
    String → String → String → String → List String → List ℤ → String → Value → Transaction
make_certificate subject rubric_root domain submission granted_by required_items issuer now =
    record {
      sender = issuer;
      payload = dict (
          field "type" (str certificate_type) (
            field "subject" (str subject) (
              field "rubric_root" (str rubric_root) (
                field "domain" (str domain) (
                  field "submission_tx_hash" (str submission) (
                    field "granted_by" (list (of_texts (sorted granted_by))) (
                      field "required_items" (list (of_ints (sorted (to_set required_items))))
                        end)))))));
      timestamp = now;
      signature = none;
    }

-- `any(weights.get(attester, 0) > 0 for attester in coverers)`
abbrev pub carries_weight : (String → ℤ) → List String → Bool
carries_weight w coverers = any (λ a. ltb_ℤ (pos 0) (w a)) coverers

-- The key of `by_item` that a value equals, if there is one. In Python `True == 1` and `1.0 == 1`.
abbrev pub item_key : Platform → Value → Option ℤ
item_key p (int n) = some n
item_key p (bool true) = some (pos 1)
item_key p (bool false) = some (pos 0)
item_key p (float repr) = p.integral repr
item_key p _ = none

-- the body of the loop in `_required_items_covered`, for one item
unfoldable pub item_covered : Platform → Dict ℤ (List String) → (String → ℤ) → Value → Bool
item_covered p by_item w item = elim (item_key p item) [
  | none ↦ false
  | some n ↦ carries_weight w (lookup_or [] n by_item)
]

abbrev pub all_covered : Platform → Dict ℤ (List String) → (String → ℤ) → Items → Bool
all_covered p by_item w nil = true
all_covered p by_item w (cons v vs) = item_covered p by_item w v && all_covered p by_item w vs

-- `_required_items_covered`. `w` is `weights.get(…, 0)`: every coverer is an attester of the scope.
unfoldable pub required_items_covered : Platform → List Block → Scope → Items → (String → ℤ) → Bool
unfolding item_covered
required_items_covered p blocks scope required w =
    all_covered p (positive_attesters_by_item blocks scope) w required

-- `[attester for attester, w in weights.items() if w > 0]`
abbrev pub credited : (String → ℤ) → List String → List String
credited w attesters = keep (λ a. ltb_ℤ (pos 0) (w a)) attesters

-- `certify`; no list of required items is the empty one
unfoldable pub certify :
    Platform
    → List Block
    → ReputationRegistry
    → String
    → String
    → String
    → String
    → ℤ
    → List ℤ
    → String
    → Value
    → Option Transaction
unfolding required_items_covered
certify p blocks registry subject rubric_root domain submission threshold required_items issuer
      now =
    let scope : Scope = record {
      subject = str subject;
      rubric_root = str rubric_root;
      domain = str domain;
      submission = str submission;
    } in
    let attesters = positive_attesters blocks scope in
    let w = λ (a : String). weight registry a domain in
    if ltb_ℤ (capped_support blocks attesters w) threshold
    then none
    else if required_items_covered p blocks scope (of_ints (sorted (to_set required_items))) w
    then some (
        make_certificate subject rubric_root domain submission (credited w attesters)
          (sorted (to_set required_items)) issuer now)
    else none

-- `payload.get(key)`
abbrev pub value_at : String → Fields → Value
value_at key fs = elim (get_field key fs) [ none ↦ null | some v ↦ v ]

abbrev pub scope_of : Fields → Scope
scope_of fs = record {
  subject = value_at "subject" fs;
  rubric_root = value_at "rubric_root" fs;
  domain = value_at "domain" fs;
  submission = value_at "submission_tx_hash" fs;
}

-- `payload.get("required_items", [])`, where only a list passes
abbrev pub required_of : Option Value → Option Items
required_of none = some nil
required_of (some (list vs)) = some vs
required_of (some _) = none

-- the texts of a list that holds nothing else
abbrev pub texts_of : Items → Option (List String)
texts_of nil = some []
texts_of (cons (str s) vs) = elim (texts_of vs) [ none ↦ none | some ss ↦ some (s ∷ ss) ]
texts_of (cons _ vs) = none

abbrev pub texts_beq : List String → List String → Bool
texts_beq [] [] = true
texts_beq (x ∷ xs) (y ∷ ys) = x == y && texts_beq xs ys
texts_beq _ _ = false

-- `isinstance(granted_by, list)` and `sorted(granted_by) == credited`
abbrev pub grants : Option Value → List String → Bool
grants (some (list vs)) names = elim (texts_of vs) [
  | none ↦ false
  | some ss ↦ texts_beq (sorted ss) names
]
grants _ names = false

-- `validate_certificate`. An attester is only found where the domain is a text, so the weights are those
-- of `text_of`.
unfoldable pub validate_certificate : Platform → List Block → ReputationRegistry → Fields → Bool
unfolding required_items_covered
validate_certificate p blocks registry fs =
    let scope = scope_of fs in
    let attesters = positive_attesters blocks scope in
    let w = λ (a : String). weight registry a (text_of (get_field "domain" fs)) in
    leb_ℤ certificate_threshold (capped_support blocks attesters w)
    && elim (required_of (get_field "required_items" fs)) [
      | none ↦ false
      | some required ↦ required_items_covered p blocks scope required w
    ]
    && grants (get_field "granted_by" fs) (sorted (credited w attesters))

-- `certificate_id`
unfoldable pub certificate_id : Platform → Fields → String
certificate_id p fs = p.sha256 (
    p.dumps_in_order (
      list (
        cons (value_at "subject" fs) (
          cons (value_at "rubric_root" fs)
            (cons (value_at "domain" fs) (cons (value_at "submission_tx_hash" fs) nil))))))
