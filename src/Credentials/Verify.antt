-- ===== src/Credentials/Verify.antt =====
-- credentials/vc.py: the reviewer credential, the bytes that its proof signs, and its verification.
use mathlib.Core.List.{◌++◌}
use hs_fob.Base.{
  Bool, true, false, ◌&&◌, not, Option, none, some, List, [], ◌∷◌, String, ◌==◌, string_eq,
  if◌then◌else◌, all, any,
}
use hs_fob.Base.Int.{ℤ, ltb_ℤ}
use hs_fob.Base.Sets.{elem}
use hs_fob.Base.Text.{chars, joined}
use hs_fob.Values.{
  Value, Fields, null, str, list, dict, end, field, get_field, to_list, equals_str, is_text,
}
use hs_fob.Crypto.{Platform, verify}
use hs_fob.Did.Hex.{to_hex}
use hs_fob.Did.Keys.{did_key_to_public_hex, did_key_verification_method, multibase_decode}
use hs_fob.Jcs.{Encoder, canonicalize}
use hs_fob.Credentials.Dates.{Calendar, parse_iso}
use hs_fob.Credentials.Checks.{
  ok, ◌>>=◌, ◌>>◌, Check, require, have, call, total, not_an_object, missing_context, wrong_type,
  untrusted_issuer, unusable_issuer, missing_subject, subject_not_text, unusable_subject,
  wrong_role, no_domains, bad_domains, bad_valid_from, not_yet_valid, bad_valid_until, expired,
  missing_proof, wrong_suite, wrong_purpose, wrong_method, missing_value, bad_value, bad_signature,
}

abbrev pub vc_context_v2 : String
vc_context_v2 = "https://www.w3.org/ns/credentials/v2"

abbrev pub graded_context : String
graded_context = "urn:graded:credentials:v1"

abbrev pub credential_type : String
credential_type = "VerifiableCredential"

abbrev pub reviewer_credential_type : String
reviewer_credential_type = "GradEDReviewerCredential"

abbrev pub reviewer_role : String
reviewer_role = "reviewer"

abbrev pub proof_type : String
proof_type = "DataIntegrityProof"

abbrev pub cryptosuite : String
cryptosuite = "eddsa-jcs-2022"

abbrev pub proof_purpose : String
proof_purpose = "assertionMethod"

-- What stands below the credentials: signatures and hashes, JSON, dates, and the text that stands
-- for the bytes of a hexadecimal text as a message to sign.
pub record Office : Type 0 where
  pub platform : Platform
  pub encoder : Encoder
  pub calendar : Calendar
  pub raw : String → String

-- `d.get(k)`, where a missing key gives `None`
abbrev pub get : String → Fields → Value
get k fs = elim (get_field k fs) [ none ↦ null | some v ↦ v ]

-- `{k: v for k, v in d.items() if k != name}`
abbrev pub drop_key : String → Fields → Fields
drop_key name end = end
drop_key name (field k v fs) =
    let rest = drop_key name fs in if k == name then rest else field k v rest

abbrev pub as_dict : Value → Option Fields
as_dict (dict fs) = some fs
as_dict _ = none

abbrev pub as_items : Value → Option (List Value)
as_items (list vs) = some (to_list vs)
as_items _ = none

abbrev pub as_str : Value → Option String
as_str (str s) = some s
as_str _ = none

-- Whether `set(…)` accepts the value: a list or a dict cannot be hashed.
abbrev pub is_hashable : Value → Bool
is_hashable (list vs) = false
is_hashable (dict fs) = false
is_hashable _ = true

-- `set(values)`; `none` is the TypeError
abbrev pub hashed : List Value → Option (List Value)
hashed vs = if all is_hashable vs then some vs else none

-- `text in values`
abbrev pub holds : String → List Value → Bool
holds s vs = any (equals_str s) vs

-- `credential_domains`
unfoldable pub credential_domains : Fields → List Value
credential_domains credential = elim (as_dict (get "credentialSubject" credential)) [
  | none ↦ []
  | some subject ↦ elim (as_items (get "domains" subject)) [ none ↦ [] | some domains ↦ domains ]
]

-- `credential_subject_did`
unfoldable pub credential_subject_did : Fields → Option String
credential_subject_did credential = elim (as_dict (get "credentialSubject" credential)) [
  | none ↦ none
  | some subject ↦ as_str (get "id" subject)
]

module _ (o : Office) where
  -- `credential_signing_bytes`; `none` is the TypeError of a float.
  unfoldable pub credential_signing_bytes : Fields → Fields → Option String
  credential_signing_bytes credential proof_options =
      elim (canonicalize o.encoder (dict (drop_key "proofValue" proof_options))) [
        | none ↦ none
        | some options ↦ elim (canonicalize o.encoder (dict (drop_key "proof" credential))) [
          | none ↦ none
          | some unsecured ↦ some (
              o.raw
                (joined (chars (o.platform.sha256 options) ++ chars (o.platform.sha256 unsecured))))
        ]
      ]

  -- The first two checks: the context and the types.
  unfoldable pub check_shape : Fields → Check (Unit {0})
  check_shape credential = do
    context ← have (as_items (get "@context" credential)) missing_context
    require (holds vc_context_v2 context) missing_context
    types ← have (as_items (get "type" credential)) wrong_type
    names ← total (hashed types)
    require (holds credential_type names && holds reviewer_credential_type names) wrong_type

  -- The issuer, and the key inside its identifier.
  unfoldable pub check_issuer : List String → Fields → Check (String × String)
  check_issuer trusted_issuers credential = do
    issuer ← have (as_str (get "issuer" credential)) untrusted_issuer
    require (elem issuer trusted_issuers) untrusted_issuer
    issuer_public_hex ← have (did_key_to_public_hex issuer) unusable_issuer
    ok (issuer, issuer_public_hex)

  unfoldable pub check_subject : Fields → Check (Unit {0})
  check_subject credential = do
    subject ← have (as_dict (get "credentialSubject" credential)) missing_subject
    subject_did ← have (as_str (get "id" subject)) subject_not_text
    key ← have (did_key_to_public_hex subject_did) unusable_subject
    require (equals_str reviewer_role (get "role" subject)) wrong_role
    domains ← have (as_items (get "domains" subject)) no_domains
    require (elim domains [ [] ↦ false | ◌∷◌ d ds ↦ true ]) no_domains
    require (all is_text domains) bad_domains

  unfoldable pub check_window : ℤ → Fields → Check (Unit {0})
  check_window moment credential = do
    start ← call (parse_iso o.calendar (get "validFrom" credential))
    valid_from ← have start bad_valid_from
    require (not (ltb_ℤ moment valid_from)) not_yet_valid
    finish ← call (parse_iso o.calendar (get "validUntil" credential))
    valid_until ← have finish bad_valid_until
    require (not (ltb_ℤ valid_until moment)) expired

  -- The proof's own members, and the signature that it carries.
  unfoldable pub check_proof : String → String → Fields → Check (Unit {0})
  check_proof issuer issuer_public_hex credential = do
    proof ← have (as_dict (get "proof" credential)) missing_proof
    require
        (equals_str proof_type (get "type" proof)
          && equals_str cryptosuite (get "cryptosuite" proof))
        wrong_suite
    require (equals_str proof_purpose (get "proofPurpose" proof)) wrong_purpose
    require (equals_str (did_key_verification_method issuer) (get "verificationMethod" proof))
        wrong_method
    proof_value ← have (as_str (get "proofValue" proof)) missing_value
    signature ← have (multibase_decode proof_value) bad_value
    message ← total (credential_signing_bytes credential proof)
    require (verify o.platform issuer_public_hex message (to_hex signature)) bad_signature

  -- `verify_credential`, at the time `moment`
  unfoldable pub verify_credential : List String → ℤ → Value → Check (Unit {0})
  verify_credential trusted_issuers moment credential = do
    fields ← have (as_dict credential) not_an_object
    shape ← check_shape fields
    issuer ← check_issuer trusted_issuers fields
    subject ← check_subject fields
    window ← check_window moment fields
    check_proof issuer.0 issuer.1 fields
