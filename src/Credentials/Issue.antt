-- ===== src/Credentials/Issue.antt =====
-- credentials/vc.py, `issue_reviewer_credential`.
use hs_fob.Base.{
  ℕ, ◌*◌, true, false, Option, none, some, List, [], ◌∷◌, String, string_eq, all, if◌then◌else◌,
}
use hs_fob.Base.Int.{ℤ, ◌+ℤ◌, ltb_ℤ}
use hs_fob.Base.Order.{sorted, string_ord}
use hs_fob.Base.Sets.{to_set}
use hs_fob.Base.Errors.{◌>>=◌, ◌>>◌, guard}
use hs_fob.Values.{Value, Fields, str, list, dict, end, field, of_texts, is_text, text_of}
use hs_fob.Crypto.{sign}
use hs_fob.Did.Hex.{from_hex}
use hs_fob.Did.Keys.{did_key_to_public_hex, did_key_verification_method, multibase_encode}
use hs_fob.Credentials.Dates.{end_of_time}
use hs_fob.Credentials.Verify.{
  Office, vc_context_v2, graded_context, credential_type, reviewer_credential_type, reviewer_role,
  proof_type, cryptosuite, proof_purpose, as_items, credential_signing_bytes,
}

-- `DEFAULT_VALIDITY_DAYS`
abbrev pub default_validity_days : ℕ
default_validity_days = 365

-- The texts of a list, each of which a test before has shown to be one
abbrev pub texts : List Value → List String
texts [] = []
texts (v ∷ vs) = text_of (some v) ∷ texts vs

-- The document before it is signed
abbrev pub unsigned :
    (issuer_did subject_did valid_from valid_until : String) (domains : Value) → Fields
unsigned issuer_did subject_did valid_from valid_until domains =
    field "@context" (list (of_texts (vc_context_v2 ∷ graded_context ∷ []))) (
      field "type" (list (of_texts (credential_type ∷ reviewer_credential_type ∷ []))) (
        field "issuer" (str issuer_did) (
          field "validFrom" (str valid_from) (
            field "validUntil" (str valid_until) (
              field "credentialSubject"
                (dict (
                  field "id" (str subject_did)
                    (field "role" (str reviewer_role) (field "domains" domains end))))
                end)))))

abbrev pub proof_options : (created verification_method : String) → Fields
proof_options created verification_method = field "type" (str proof_type) (
    field "cryptosuite" (str cryptosuite) (
      field "created" (str created) (
        field "verificationMethod" (str verification_method)
          (field "proofPurpose" (str proof_purpose) end))))

-- A key that the dict does not hold is put at its end.
abbrev pub append_field : String → Value → Fields → Fields
append_field k v end = field k v end
append_field k v (field j w fs) = field j w (append_field k v fs)

module _ (o : Office) where
  -- `valid_until or (start + timedelta(days=validity_days))`; `none` is an OverflowError.
  unfoldable pub end_of_validity : ℤ → ℕ → Option ℤ → Option ℤ
  end_of_validity start validity_days (some t) = some t
  end_of_validity start validity_days none =
      let finish = start +ℤ ℤ.pos (validity_days * 86400000000) in
      if ltb_ℤ finish end_of_time then some finish else none

  -- The document with the issuer's proof
  unfoldable pub secure : (issuer_private_key issuer_did created : String) → Fields → Option Fields
  secure issuer_private_key issuer_did created credential = do
    let options = proof_options created (did_key_verification_method issuer_did)
    message ← credential_signing_bytes o credential options
    signature ← from_hex (sign o.platform issuer_private_key message)
    let proof = append_field "proofValue" (str (multibase_encode signature)) options
    some (append_field "proof" (dict proof) credential)

  -- `issue_reviewer_credential`, where `start` is `valid_from` or the time of the call; `none` is
  -- a ValueError.
  unfoldable pub issue_reviewer_credential :
      (subject_did : String) (domains : Value) (issuer_private_key issuer_did : String)
      (validity_days : ℕ) (start : ℤ) (valid_until : Option ℤ)
      → Option Fields
  issue_reviewer_credential subject_did domains key issuer_did validity_days start valid_until = do
    subject_key ← did_key_to_public_hex subject_did
    given ← as_items domains
    guard (elim given [ [] ↦ false | ◌∷◌ d ds ↦ true ])
    guard (all is_text given)
    finish ← end_of_validity start validity_days valid_until
    secure key issuer_did (o.calendar.iso start) (
        unsigned issuer_did subject_did (o.calendar.iso start) (o.calendar.iso finish)
          (list (of_texts (sorted (to_set (texts given))))))
