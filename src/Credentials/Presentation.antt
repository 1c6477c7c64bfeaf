-- ===== src/Credentials/Presentation.antt =====
-- credentials/presentation.py: proof of possession.
use mathlib.Core.List.{◌++◌}
use hs_fob.Base.{true, false, Option, none, some, List, String, ◌==◌, string_eq}
use hs_fob.Base.Int.{ℤ}
use hs_fob.Base.Text.{chars, joined}
use hs_fob.Values.{Value, Fields, str, dict, end, field}
use hs_fob.Crypto.{Platform, sign, verify, public_hex}
use hs_fob.Did.Keys.{did_key_to_public_hex, public_key_to_did_key}
use hs_fob.Credentials.Checks.{
  ◌>>=◌, ◌>>◌, Check, require, have, not_an_object, missing_presentation, missing_challenge,
  missing_possession, wrong_key, unusable_holder, no_possession, domain_not_granted,
}
use hs_fob.Credentials.Verify.{
  Office, get, as_dict, as_str, holds, credential_domains, credential_subject_did,
  verify_credential,
}

abbrev pub pop_context : String
pop_context = "GradED-Reviewer-PoP-v1"

-- `pop_signing_bytes`
unfoldable pub pop_signing_bytes : String → String → String
pop_signing_bytes challenge holder_did =
    joined (chars pop_context ++ chars "|" ++ chars challenge ++ chars "|" ++ chars holder_did)

-- A text that is not empty
abbrev pub as_text : Value → Option String
as_text v = elim (as_str v) [
  | none ↦ none
  | some s ↦ elim (s == "") [ true ↦ none | false ↦ some s ]
]

module _ (p : Platform) where
  -- `sign_challenge`; `none` is the ValueError of a key that is not 32 bytes. An empty DID is
  -- replaced by the key's own.
  unfoldable pub sign_challenge : String → String → Option String → Option String
  sign_challenge private_key challenge holder_did =
      let own = public_key_to_did_key (public_hex p private_key) in
      let did : Option String = elim holder_did [
        | none ↦ own
        | some d ↦ elim (d == "") [ true ↦ own | false ↦ some d ]
      ] in
      elim did [ none ↦ none | some d ↦ some (sign p private_key (pop_signing_bytes challenge d)) ]

  -- `make_presentation`
  unfoldable pub make_presentation : String → Fields → String → Option Value
  make_presentation private_key credential challenge =
      let subject_did : String = elim (credential_subject_did credential) [
        | none ↦ ""
        | some did ↦ did
      ] in
      elim (sign_challenge private_key challenge (some subject_did)) [
        | none ↦ none
        | some signature ↦ some (
            dict (
              field "credential" (dict credential) (
                field "challenge" (str challenge)
                  (field "challenge_signature" (str signature) end))))
      ]

module _ (o : Office) where
  -- What `verify_presentation` asks of a presentation whose credential is good.
  unfoldable pub check_possession : String → String → Fields → Fields → Check (Unit {0})
  check_possession attester_public_hex domain presentation credential = do
    challenge ← have (as_text (get "challenge" presentation)) missing_challenge
    signature ← have (as_text (get "challenge_signature" presentation)) missing_possession
    subject_did ← have (credential_subject_did credential) unusable_holder
    subject_public_hex ← have (did_key_to_public_hex subject_did) unusable_holder
    require (subject_public_hex == attester_public_hex) wrong_key
    require
        (verify o.platform subject_public_hex (pop_signing_bytes challenge subject_did) signature)
        no_possession
    require (holds domain (credential_domains credential)) domain_not_granted

  -- `verify_presentation`, at the time `moment`
  unfoldable pub verify_presentation : List String → ℤ → Value → String → String → Check (Unit {0})
  verify_presentation trusted_issuers moment presentation attester_public_hex domain = do
    fields ← have (as_dict presentation) missing_presentation
    let credential = get "credential" fields
    verified ← verify_credential o trusted_issuers moment credential
    members ← have (as_dict credential) not_an_object
    check_possession attester_public_hex domain fields members
