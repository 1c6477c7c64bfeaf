-- ===== src/Promotion.antt =====
-- blockchain/promotion.py and `Blockchain._promotion_ok`: how a participant becomes a validator.
pub mod Gates
use hs_fob.Base.{
  ℕ, ◌+◌, ◌*◌, Bool, true, false, ◌&&◌, not, Option, none, some, List, [], ◌∷◌, String, string_eq,
  leb, length,
}
use hs_fob.Base.Int.{ℤ, pos, leb_ℤ}
use hs_fob.Base.Dict.{Dict}
use hs_fob.Base.Sets.{elem}
use hs_fob.Values.{
  Value, str, dict, Fields, end, field, get_field, equals_str, is_str, is_dict, field_is, text_at,
  fields_of,
}
use hs_fob.Crypto
use hs_fob.Crypto.{Platform}
use hs_fob.Transaction.{Transaction}
use hs_fob.Block.{text_fields}
use hs_fob.Registry.{ReputationRegistry, weight}
use hs_fob.Slashing.{approvers, approved}

-- `PROMOTION_TYPE`
abbrev pub promotion_type : String
promotion_type = "promotion"

-- `PROMOTION_THRESHOLD`, `MAX_NEW_VALIDATORS_PER_WINDOW`, `PROMOTION_WINDOW`
abbrev pub promotion_threshold : ℤ
promotion_threshold = pos 100

abbrev pub max_new_validators_per_window : ℕ
max_new_validators_per_window = 2

abbrev pub promotion_window : ℕ
promotion_window = 5

-- `make_promotion`, with the time read from the clock
unfoldable pub make_promotion : String → String → Dict String String → Value → Transaction
make_promotion candidate domain approvals now = record {
  sender = candidate;
  payload = dict (
      field "type" (str promotion_type) (
        field "candidate" (str candidate)
          (field "domain" (str domain) (field "approvals" (dict (text_fields approvals)) end))));
  timestamp = now;
  signature = none;
}

unfoldable pub promotion_fields : Fields → Bool
promotion_fields fs =
    field_is (equals_str promotion_type) "type" fs
    && field_is is_str "candidate" fs
    && field_is is_str "domain" fs
    && field_is is_dict "approvals" fs

-- `is_promotion`, on a payload
unfoldable pub is_promotion : Value → Bool
is_promotion payload = elim payload [ dict fs ↦ promotion_fields fs | _ ↦ false ]

module _ (p : Platform) where
  -- `promotion_signing_bytes`
  unfoldable pub promotion_signing_bytes : String → String → String
  promotion_signing_bytes candidate domain = p.dumps (
      dict (
        field "type" (str promotion_type)
          (field "candidate" (str candidate) (field "domain" (str domain) end))))

  -- `approve_promotion`
  unfoldable pub approve_promotion : String → String → String → String × String
  approve_promotion key candidate domain =
      (Crypto.public_hex p key, Crypto.sign p key (promotion_signing_bytes candidate domain))

  abbrev pub promotion_message : Fields → String
  promotion_message fs = promotion_signing_bytes (text_at "candidate" fs) (text_at "domain" fs)

  -- the gates of `_promotion_ok`, for a payload that is a dict
  unfoldable pub promotion_gates : Fields → List String → ReputationRegistry → ℕ → Bool
  promotion_gates fs validators registry fresh =
      promotion_fields fs
      && not (elem (text_at "candidate" fs) validators)
      && leb_ℤ promotion_threshold (weight registry (text_at "candidate" fs) (text_at "domain" fs))
      && approved p (promotion_message fs) validators (fields_of (get_field "approvals" fs))
      && leb (fresh + 1) max_new_validators_per_window
      && leb (3 * (fresh + 1)) (length validators + 1)

  -- `_promotion_ok`
  unfoldable pub promotion_ok : Value → List String → ReputationRegistry → ℕ → Bool
  unfolding promotion_gates
  promotion_ok payload validators registry fresh = elim payload [
    | dict fs ↦ promotion_gates fs validators registry fresh
    | _ ↦ false
  ]
