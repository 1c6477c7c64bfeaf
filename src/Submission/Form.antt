-- ===== src/Submission/Form.antt =====
-- What the validator of submissions (attestation/submission.py) lets through, and which policy they fall
-- under (blockchain/tx_signing.py).
use hs_fob.Base.{◌≡◌, ◌&&◌, String, arith, string_eq}
use hs_fob.Values.{Value, str, is_text}
use hs_fob.Submission.{make_submission, is_submission, submission_fields}

-- A made submission passes the validator exactly when its subject, domain, rubric root, title and artifact
-- hash are not empty, whatever its artifact name is.
pub is_submission-make_submission :
    (subject domain rubric_root title artifact_hash artifact_name : String) (now : Value)
    → is_submission
        (make_submission subject domain rubric_root title artifact_hash artifact_name now)
      ≡ (is_text (str subject)
          && is_text (str domain)
          && is_text (str rubric_root)
          && is_text (str title)
          && is_text (str artifact_hash))
unfolding is_submission make_submission submission_fields
is_submission-make_submission subject domain rubric_root title artifact_hash artifact_name now =
    ground arith
