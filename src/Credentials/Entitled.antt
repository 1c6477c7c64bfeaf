-- ===== src/Credentials/Entitled.antt =====
-- credentials: what an accepted credential and an accepted presentation prove.
use mathlib.Core.Path.{subst}
use mathlib.Core.Option.{some-injective}
use hs_fob.Base.{
  Bool, true, false, not, Option, none, some, List, String, ◌==◌, string_eq, ◌≡◌, sym, ap, ◌∙◌,
  arith, eq_iff,
}
use hs_fob.Base.Int.{ℤ, ltb_ℤ}
use hs_fob.Base.Sets.{elem}
use hs_fob.Values.{Value, Fields, dict}
use hs_fob.Crypto.{verify}
use hs_fob.Did.Hex.{to_hex}
use hs_fob.Did.Keys.{did_key_to_public_hex, multibase_decode}
use hs_fob.Credentials.Dates.{parse_iso, returns}
use hs_fob.Credentials.Checks.{
  ok, bind-ok, require-ok, have-ok, total-ok, call-ok, not_an_object, untrusted_issuer,
  unusable_issuer, bad_valid_from, not_yet_valid, bad_valid_until, missing_proof, wrong_suite,
  wrong_purpose, wrong_method, missing_value, bad_value, missing_challenge, missing_possession,
  unusable_holder, wrong_key, no_possession, require_last,
}
use hs_fob.Credentials.Verify.{
  Office, get, as_dict, as_str, holds, credential_domains, credential_subject_did,
  verify_credential, credential_signing_bytes, check_shape, check_issuer, check_subject,
  check_window, check_proof,
}
use hs_fob.Credentials.Presentation.{
  pop_signing_bytes, verify_presentation, check_possession, as_text,
}

module _ (o : Office) where
  -- A trusted issuer's key has signed the credential, which is in force.
  pub record IsVouched (trusted_issuers : List String) (moment : ℤ) (c : Fields) : Type 0 where
    pub issuer : String
    pub issuer_key : String
    pub proof : Fields
    pub message : String
    pub signature : String
    pub valid_from : ℤ
    pub valid_until : ℤ
    pub names_issuer : as_str (get "issuer" c) ≡ some issuer
    pub trusted : elem issuer trusted_issuers ≡ true
    pub issuer_key_inside : did_key_to_public_hex issuer ≡ some issuer_key
    pub starts : parse_iso o.calendar (get "validFrom" c) ≡ returns (some valid_from)
    pub ends : parse_iso o.calendar (get "validUntil" c) ≡ returns (some valid_until)
    pub started : ltb_ℤ moment valid_from ≡ false
    pub unexpired : ltb_ℤ valid_until moment ≡ false
    pub carries_proof : as_dict (get "proof" c) ≡ some proof
    pub covers : credential_signing_bytes o c proof ≡ some message
    pub signed : verify o.platform issuer_key message signature ≡ true

  not-true : (b : Bool) → not b ≡ true → b ≡ false
  not-true b h = ground (arith, h)

  check_issuer-ok :
      (trusted_issuers : List String) (c : Fields) (r : String × String)
      → check_issuer o trusted_issuers c ≡ ok r
      → (as_str (get "issuer" c) ≡ some r.0)
        × (elem r.0 trusted_issuers ≡ true)
        × (did_key_to_public_hex r.0 ≡ some r.1)
  unfolding check_issuer
  check_issuer-ok trusted c r h =
      let (issuer, a, h1) = have-ok (as_str (get "issuer" c)) untrusted_issuer _ h in
      let (b, h2) = require-ok (elem issuer trusted) untrusted_issuer _ h1 in
      let (key, d, h3) = have-ok (did_key_to_public_hex issuer) unusable_issuer _ h2 in
      let same : r ≡ (issuer, key) = cc h3 in rw same (a, b, d)

  check_window-ok :
      (moment : ℤ) (c : Fields)
      → check_window o moment c ≡ ok tt
      → (start : ℤ) × (finish : ℤ) × (parse_iso o.calendar (get "validFrom" c)
          ≡ returns (some start))
        × (parse_iso o.calendar (get "validUntil" c) ≡ returns (some finish))
        × (ltb_ℤ moment start ≡ false)
        × (ltb_ℤ finish moment ≡ false)
  unfolding check_window
  check_window-ok moment c h =
      let (from, a, h1) = call-ok (parse_iso o.calendar (get "validFrom" c)) _ h in
      let (start, b, h2) = have-ok from bad_valid_from _ h1 in
      let (d, h3) = require-ok (not (ltb_ℤ moment start)) not_yet_valid _ h2 in
      let (until, e, h4) = call-ok (parse_iso o.calendar (get "validUntil" c)) _ h3 in
      let (finish, f, h5) = have-ok until bad_valid_until _ h4 in
      (
        start,
        finish,
        a ∙ ap returns b,
        e ∙ ap returns f,
        not-true (ltb_ℤ moment start) d,
        not-true (ltb_ℤ finish moment) (require_last _ _ h5),
      )

  check_proof-ok :
      (issuer issuer_key : String) (c : Fields)
      → check_proof o issuer issuer_key c ≡ ok tt
      → (proof : Fields) × (message : String) × (signature : String) × (as_dict (get "proof" c)
          ≡ some proof)
        × (credential_signing_bytes o c proof ≡ some message)
        × (verify o.platform issuer_key message signature ≡ true)
  unfolding check_proof
  check_proof-ok issuer issuer_key c h =
      let (proof, a, h1) = have-ok (as_dict (get "proof" c)) missing_proof _ h in
      let (_, h2) = require-ok _ wrong_suite _ h1 in
      let (_, h3) = require-ok _ wrong_purpose _ h2 in
      let (_, h4) = require-ok _ wrong_method _ h3 in
      let (value, b, h5) = have-ok (as_str (get "proofValue" proof)) missing_value _ h4 in
      let (signature, d, h6) = have-ok (multibase_decode value) bad_value _ h5 in
      let (message, e, h7) = total-ok (credential_signing_bytes o c proof) _ h6 in
      (proof, message, to_hex signature, a, e, require_last _ _ h7)

  verify_credential-IsVouched :
      (trusted_issuers : List String) (moment : ℤ) (v : Value) (c : Fields)
      → as_dict v ≡ some c
      → verify_credential o trusted_issuers moment v ≡ ok tt
      → IsVouched trusted_issuers moment c
  unfolding verify_credential
  verify_credential-IsVouched trusted moment v c e h =
      let (fields, a, h1) = have-ok (as_dict v) not_an_object _ h in
      let same : fields ≡ c = some-injective _ _ (sym a ∙ e) in
      let (_, _, h2) = bind-ok (check_shape o fields) _ h1 in
      let (issuer, b, h3) = bind-ok (check_issuer o trusted fields) _ h2 in
      let (_, _, h4) = bind-ok (check_subject o fields) _ h3 in
      let (_, w, h5) = bind-ok (check_window o moment fields) _ h4 in
      let (names, known, inside) = check_issuer-ok trusted fields issuer b in
      let (start, finish, p, q, r, s) = check_window-ok moment fields w in
      let (proof, message, signature, x, y, z) = check_proof-ok issuer.0 issuer.1 fields h5 in
      subst (IsVouched trusted moment) same (record {
        issuer = issuer.0;
        issuer_key = issuer.1;
        proof = proof;
        message = message;
        signature = signature;
        valid_from = start;
        valid_until = finish;
        names_issuer = names;
        trusted = known;
        issuer_key_inside = inside;
        starts = p;
        ends = q;
        started = r;
        unexpired = s;
        carries_proof = x;
        covers = y;
        signed = z;
      })

  -- What an attestation's presentation has to show.
  pub record IsEntitled (trusted_issuers : List String) (moment : ℤ) (presentation : Fields)
      (attester domain : String) : Type 0 where
    pub credential : Fields
    pub subject_did : String
    pub challenge : String
    pub signature : String
    pub carries : as_dict (get "credential" presentation) ≡ some credential
    pub vouched : IsVouched trusted_issuers moment credential
    pub names_subject : credential_subject_did credential ≡ some subject_did
    pub subject_is_attester : did_key_to_public_hex subject_did ≡ some attester
    pub challenged : as_str (get "challenge" presentation) ≡ some challenge
    pub answered : as_str (get "challenge_signature" presentation) ≡ some signature
    pub possessed :
        verify o.platform attester (pop_signing_bytes challenge subject_did) signature ≡ true
    pub granted : holds domain (credential_domains credential) ≡ true

  as_text-some : (v : Value) (s : String) → as_text v ≡ some s → as_str v ≡ some s
  as_text-some v s h = of (as_str v) h
    where
      of :
          (x : Option String)
          → elim x [ none ↦ none | some s ↦ elim (s == "") [ true ↦ none | false ↦ some s ] ]
            ≡ some s
          → x ≡ some s
      of none h = h
      of (some t) h = ground (arith, h)

  -- A presentation is accepted only if a trusted issuer's key has signed its credential, which is
  -- in force, the key that the credential names is the attester's and has signed the challenge,
  -- and the credential grants the domain.
  pub verify_presentation-IsEntitled :
      (trusted_issuers : List String) (moment : ℤ) (presentation : Fields)
      (attester domain : String)
      → verify_presentation o trusted_issuers moment (dict presentation) attester domain ≡ ok tt
      → IsEntitled trusted_issuers moment presentation attester domain
  unfolding verify_presentation check_possession
  verify_presentation-IsEntitled trusted moment presentation attester domain h =
      let credential = get "credential" presentation in
      let (_, v, h1) = bind-ok (verify_credential o trusted moment credential) _ h in
      let (c, a, h2) = have-ok (as_dict credential) not_an_object _ h1 in
      let (challenge, b, h3) =
        have-ok (as_text (get "challenge" presentation)) missing_challenge _ h2 in
      let (signature, d, h4) =
        have-ok (as_text (get "challenge_signature" presentation)) missing_possession _ h3 in
      let (did, e, h5) = have-ok (credential_subject_did c) unusable_holder _ h4 in
      let (key, f, h6) = have-ok (did_key_to_public_hex did) unusable_holder _ h5 in
      let (same, h7) = require-ok (key == attester) wrong_key _ h6 in
      let (possessed, h8) =
        require-ok (verify o.platform key (pop_signing_bytes challenge did) signature) no_possession
          _ h7 in
      let exact : key ≡ attester = (eq_iff key attester).0 same in
      record {
        credential = c;
        subject_did = did;
        challenge = challenge;
        signature = signature;
        carries = a;
        vouched = verify_credential-IsVouched trusted moment credential c a v;
        names_subject = e;
        subject_is_attester = f ∙ ap some exact;
        challenged = as_text-some _ challenge b;
        answered = as_text-some _ signature d;
        possessed =
            ap (λ k. verify o.platform k (pop_signing_bytes challenge did) signature) (sym exact)
            ∙ possessed;
        granted = require_last _ _ h8;
      }
