-- ===== src/Submission.antt =====
-- attestation/submission.py: submissions as transactions, their factory and their validator.
pub mod Form
use hs_fob.Base.{Bool, true, false, ◌&&◌, Option, none, some, List, [], ◌∷◌, String}
use hs_fob.Values.{
  Value, str, dict, Fields, end, field, same_keys, is_str, is_text, equals_str, field_is,
}
use hs_fob.Transaction.{Transaction}

-- `SUBMISSION_TYPE`
abbrev pub submission_type : String
submission_type = "submission"

-- `_REQUIRED_KEYS`
abbrev pub required_keys : List String
required_keys =
    "type" ∷ "subject" ∷ "domain" ∷ "rubric_root" ∷ "title" ∷ "artifact_hash" ∷ "artifact_name" ∷ []

-- `make_submission`; the time is read from the clock
unfoldable pub make_submission :
    String → String → String → String → String → String → Value → Transaction
make_submission subject domain rubric_root title artifact_hash artifact_name now = record {
  sender = subject;
  payload = dict (
      field "type" (str submission_type) (
        field "subject" (str subject) (
          field "domain" (str domain) (
            field "rubric_root" (str rubric_root) (
              field "title" (str title) (
                field "artifact_hash" (str artifact_hash)
                  (field "artifact_name" (str artifact_name) end)))))));
  timestamp = now;
  signature = none;
}

-- the tests on the fields, in the source's order
unfoldable pub submission_fields : Fields → Bool
submission_fields fs =
    same_keys required_keys fs
    && field_is (equals_str submission_type) "type" fs
    && field_is is_text "subject" fs
    && field_is is_text "domain" fs
    && field_is is_text "rubric_root" fs
    && field_is is_text "title" fs
    && field_is is_text "artifact_hash" fs
    && field_is is_str "artifact_name" fs

-- `is_submission`
unfoldable pub is_submission : Transaction → Bool
is_submission tx = elim tx.payload [ dict fs ↦ submission_fields fs | _ ↦ false ]
