-- ===== src/Attestation.antt =====
-- attestation/attestation.py: attestations as transactions, their factory and their validator.
pub mod Shape
use Prim.Native.Char.{code}
use hs_fob.Base.{
  ℕ, ◌≡◌, Bool, true, false, ◌&&◌, ◌||◌, not, Option, none, some, List, [], ◌∷◌, String, leb, all,
  ◌==◌, string_eq, if◌then◌else◌,
}
use hs_fob.Base.Int.{ℤ, pos, int_beq, leb_ℤ, int_eq}
use hs_fob.Values.{
  Value, null, bool, int, str, dict, Fields, end, field, get_field, same_keys, is_str, is_text,
  equals_str, is_int, field_is, int_of, text_at, int_at,
}
use hs_fob.Transaction.{Transaction}

-- the characters of a text, as code points
abbrev pub codes : String → List ℕ
codes String.[] = []
codes (String.◌∷◌ c s) = code c ∷ codes s

-- `c in string.hexdigits`
abbrev pub is_hexdigit : ℕ → Bool
is_hexdigit c = leb b'0' c && leb c b'9' || leb b'a' c && leb c b'f' || leb b'A' c && leb c b'F'

-- a non-empty text of hex digits
unfoldable pub is_hex_text : Value → Bool
is_hex_text (str s) = is_text (str s) && all is_hexdigit (codes s)
is_hex_text _ = false

-- `ATTESTATION_TYPE`, `DEFAULT_DOMAIN`
abbrev pub attestation_type : String
attestation_type = "attestation"

abbrev pub default_domain : String
default_domain = "general"

-- `_REQUIRED_KEYS`
abbrev pub required_keys : List String
required_keys =
    "type" ∷ "subject" ∷ "rubric_root" ∷ "domain" ∷ "submission_tx_hash" ∷ "item_index" ∷ "verdict"
    ∷ "stake" ∷ []

-- a verdict as a payload holds it: `True`, `False`, or `None` to abstain
abbrev pub verdict_value : Option Bool → Value
verdict_value none = null
verdict_value (some b) = bool b

-- `make_attestation`; the time is read from the clock
unfoldable pub make_attestation :
    String → String → String → ℤ → Option Bool → ℤ → String → String → Value → Transaction
make_attestation attester subject rubric_root item_index verdict stake submission domain now =
    record {
      sender = attester;
      payload = dict (
          field "type" (str attestation_type) (
            field "subject" (str subject) (
              field "rubric_root" (str rubric_root) (
                field "domain" (str domain) (
                  field "submission_tx_hash" (str submission) (
                    field "item_index" (int item_index) (
                      field "verdict" (verdict_value verdict) (
                        field "stake" (int (elim verdict [ none ↦ pos 0 | some _ ↦ stake ]))
                          end))))))));
      timestamp = now;
      signature = none;
    }

-- `verdict is None or isinstance(verdict, bool)`
abbrev pub is_verdict : Value → Bool
is_verdict null = true
is_verdict (bool b) = true
is_verdict _ = false

-- `verdict is None`
abbrev pub is_null : Value → Bool
is_null null = true
is_null _ = false

-- a stake is a non-negative integer, and 0 beside an abstain
abbrev pub is_stake : Bool → Value → Bool
is_stake abstains (int n) = leb_ℤ (pos 0) n && (not abstains || n == pos 0)
is_stake abstains _ = false

-- the tests on the fields, in the source's order
unfoldable pub attestation_fields : Fields → Bool
unfolding is_hex_text
attestation_fields fs =
    same_keys required_keys fs
    && field_is (equals_str attestation_type) "type" fs
    && field_is is_str "subject" fs
    && field_is is_str "rubric_root" fs
    && field_is is_text "domain" fs
    && field_is is_hex_text "submission_tx_hash" fs
    && field_is is_int "item_index" fs
    && field_is is_verdict "verdict" fs
    && field_is (is_stake (field_is is_null "verdict" fs)) "stake" fs

-- `is_attestation`
unfoldable pub is_attestation : Transaction → Bool
is_attestation tx = elim tx.payload [ dict fs ↦ attestation_fields fs | _ ↦ false ]

-- `payload.get("verdict") is None`
abbrev pub lacks_verdict : Option Value → Bool
lacks_verdict none = true
lacks_verdict (some v) = is_null v

-- `is_abstain`, on a payload
unfoldable pub is_abstain : Value → Bool
is_abstain (dict fs) = lacks_verdict (get_field "verdict" fs)
is_abstain _ = false

-- the fields of a payload, none of a payload that is no dict
abbrev pub fields : Transaction → Fields
fields tx = elim tx.payload [ dict fs ↦ fs | _ ↦ end ]
