-- ===== src/Credentials/Accepted.antt =====
-- credentials: what the authority issues and its holder presents, a node accepts.
use text.Mathlib.TextLemmas.{cons≢nil}
use mathlib.Core.Option.{none-ne-some}
use hs_fob.Base.{
  ℕ, Bool, true, false, Option, some, List, [], ◌∷◌, String, ◌==◌, string_eq, ◌≡◌, refl, sym, ap,
  ◌∙◌, all, arith, length, if◌then◌else◌, Bool-cases, inl, inr, eq_iff, ==-refl,
}
use hs_fob.Base.Int.{ℤ, ltb_ℤ}
use hs_fob.Base.Sets.{elem, to_set, elem-to_set}
use hs_fob.Base.Order.{sorted, string_ord, elem-sorted}
use hs_fob.Values.{Value, Fields, field, end, str, list, dict, of_texts, to_list}
use hs_fob.Crypto.{sign, verify, public_hex, IsCorrect}
use hs_fob.Did.Hex.{to_hex, from_hex-to_hex}
use hs_fob.Did.Keys.{
  did_key_to_public_hex, did_key_to_public_key, did_key_verification_method, multibase_encode,
}
use hs_fob.Credentials.Dates.{parse_iso, returns}
use hs_fob.Credentials.Checks.{ok, refused, domain_not_granted, require}
use hs_fob.Credentials.Verify.{
  Office, verify_credential, credential_domains, credential_subject_did, holds,
}
use hs_fob.Credentials.Issue.{secure, issue_reviewer_credential, end_of_validity}
use hs_fob.Credentials.Presentation.{
  pop_signing_bytes, sign_challenge, make_presentation, verify_presentation, check_possession,
  as_text,
}
use hs_fob.Credentials.Issued.{
  HexSignatures, is_full, all-elem, elem-all, texts-of_texts, all_text-of_texts, signing_bytes-some,
  sealed, document, options, sealed-shape, sealed-issuer, sealed-subject, sealed-window,
  sealed-proof,
}

-- The circumstances in which a credential is issued and checked: the issuer's key, the holder's
-- key, and the dates as the credential states them.
pub record IsInForce (o : Office) (trusted_issuers : List String)
    (key issuer holder subject : String) (moment start finish : ℤ) : Type 0 where
  pub correct : IsCorrect o.platform
  pub hexes : HexSignatures o.platform
  pub named : did_key_to_public_hex issuer ≡ some (public_hex o.platform key)
  pub known : elem issuer trusted_issuers ≡ true
  pub owned : did_key_to_public_hex subject ≡ some (public_hex o.platform holder)
  pub read_start : ℤ
  pub read_finish : ℤ
  pub starts : parse_iso o.calendar (str (o.calendar.iso start)) ≡ returns (some read_start)
  pub ends : parse_iso o.calendar (str (o.calendar.iso finish)) ≡ returns (some read_finish)
  pub started : ltb_ℤ moment read_start ≡ false
  pub unexpired : ltb_ℤ read_finish moment ≡ false

abbrev granted : List String → List String
granted ds = sorted (to_set ds)

holds-of_texts : (x : String) (ds : List String) → holds x (to_list (of_texts ds)) ≡ elem x ds
holds-of_texts x [] = refl
holds-of_texts x (d ∷ ds) = ground (arith, holds-of_texts x ds, eq_iff x d, eq_iff d x)

filled :
    (x : String) (ds : List String)
    → elem x ds ≡ true
    → elim ds [ [] ↦ false | ◌∷◌ e es ↦ true ] ≡ true
filled x [] h = cc
filled x (d ∷ ds) h = refl

granted-some :
    (d : String) (ds : List String)
    → elim (granted (d ∷ ds)) [ [] ↦ false | ◌∷◌ e es ↦ true ] ≡ true
granted-some d ds =
    filled d (granted (d ∷ ds))
      (elem-sorted d (to_set (d ∷ ds)) ∙ elem-to_set d (d ∷ ds) ∙ rw (==-refl d) refl)

elem-granted : (x : String) (ds : List String) → elem x (granted ds) ≡ elem x ds
elem-granted x ds = elem-sorted x (to_set ds) ∙ elem-to_set x ds

of_bytes : (bytes : List ℕ) → length bytes ≡ 64 → (to_hex bytes == "") ≡ false
unfolding to_hex
of_bytes [] h = ground (arith, h)
of_bytes (b ∷ bs) h = elim (Bool-cases (to_hex (b ∷ bs) == "")) [
  | inl e ↦ elim (cons≢nil ((eq_iff (to_hex (b ∷ bs)) "").0 e)) [ ]
  | inr e ↦ e
]

did-full : (did key : String) → did_key_to_public_hex did ≡ some key → (did == "") ≡ false
unfolding did_key_to_public_hex did_key_to_public_key
did-full did key h = elim (Bool-cases (did == "")) [
  | inl e ↦ elim (none-ne-some _ (ap did_key_to_public_hex (sym ((eq_iff did "").0 e)) ∙ h)) [ ]
  | inr e ↦ e
]

granted-full : (ds : List String) → all is_full ds ≡ true → all is_full (granted ds) ≡ true
granted-full ds h =
    all-elem is_full (granted ds) (λ x q.
      elem-all is_full x ds h (sym (elem-to_set x ds) ∙ sym (elem-sorted x (to_set ds)) ∙ q))

module _ {o : Office} {trusted_issuers : List String} {key issuer holder subject : String}
    {moment start finish : ℤ}
    (f : IsInForce o trusted_issuers key issuer holder subject moment start finish) where
  -- The authority signs what it is asked for, and the result verifies.
  secure-verifies :
      (ds : List String)
      → elim ds [ [] ↦ false | ◌∷◌ d es ↦ true ] ≡ true
      → all is_full ds ≡ true
      → (value : String) × (secure o key issuer
            (o.calendar.iso start)
            (document o issuer subject (o.calendar.iso start) (o.calendar.iso finish) ds)
          ≡ some (
              sealed o value
                (options o issuer subject (o.calendar.iso start) (o.calendar.iso finish) ds)
                (document o issuer subject (o.calendar.iso start) (o.calendar.iso finish) ds)))
        × (verify_credential o trusted_issuers moment (
              dict (
                sealed o value
                  (options o issuer subject (o.calendar.iso start) (o.calendar.iso finish) ds)
                  (document o issuer subject (o.calendar.iso start) (o.calendar.iso finish) ds)))
            ≡ ok tt)
  unfolding secure verify_credential
  secure-verifies ds some_domain full =
      let from = o.calendar.iso start in
      let until = o.calendar.iso finish in
      let (message, signed) =
        signing_bytes-some o issuer subject from until from (did_key_verification_method issuer)
          ds in
      let (bytes, small, wide, hex) = f.hexes key message in
      let genuine : verify o.platform (public_hex o.platform key) message (to_hex bytes) ≡ true =
        ap (verify o.platform (public_hex o.platform key) message) (sym hex)
        ∙ f.correct.verify-sign key message in
      (
        multibase_encode bytes,
        rw (signed, hex, from_hex-to_hex bytes small) refl,
        rw
            (
              sealed-shape o issuer subject from until ds (multibase_encode bytes),
              sealed-issuer o issuer subject from until ds (multibase_encode bytes)
                  (public_hex o.platform key) trusted_issuers f.known f.named,
              sealed-subject o issuer subject from until ds (multibase_encode bytes)
                  (public_hex o.platform holder) f.owned some_domain full,
              sealed-window o issuer subject from until ds (multibase_encode bytes) moment
                  f.read_start f.read_finish f.starts f.ends f.started f.unexpired,
            )
            (sealed-proof o issuer subject from until ds (public_hex o.platform key) message bytes
              small signed genuine),
      )

  abbrev credential_of : List String → String → Fields
  credential_of ds value =
      let from = o.calendar.iso start in
      let until = o.calendar.iso finish in
      sealed o value (options o issuer subject from until ds)
        (document o issuer subject from until ds)

  as_text-full : (s : String) → (s == "") ≡ false → as_text (str s) ≡ some s
  as_text-full s h = rw (as_text, h) refl

  outcome :
      (b : Bool) → require b domain_not_granted ≡ (if b then ok tt else refused domain_not_granted)
  outcome true = refl
  outcome false = refl

  abbrev presentation_of : Fields → String → Fields
  presentation_of c challenge = field "credential" (dict c) (
      field "challenge" (str challenge) (
        field "challenge_signature"
          (str (sign o.platform holder (pop_signing_bytes challenge subject))) end))

  -- The holder has signed the challenge: what is left to ask is the domain.
  possession-verifies :
      (c : Fields) (challenge x : String)
      → credential_subject_did c ≡ some subject
      → (challenge == "") ≡ false
      → check_possession o (public_hex o.platform holder) x (presentation_of c challenge) c
        ≡ (if holds x (credential_domains c) then ok tt else refused domain_not_granted)
  unfolding check_possession
  possession-verifies c challenge x names fresh =
      let message = pop_signing_bytes challenge subject in
      let signature = sign o.platform holder message in
      let (bytes, small, wide, hex) = f.hexes holder message in
      let visible : (signature == "") ≡ false = ap (λ s. s == "") hex ∙ of_bytes bytes wide in
      rw
        (
          check_possession,
          as_text-full challenge fresh,
          as_text-full signature visible,
          names,
          f.owned,
          ==-refl (public_hex o.platform holder),
          f.correct.verify-sign holder message,
        )
        (outcome (holds x (credential_domains c)))

  -- The holder's presentation of a verified credential is accepted for what the credential grants.
  present-verifies :
      (ds : List String) (value challenge : String)
      → verify_credential o trusted_issuers moment (dict (credential_of ds value)) ≡ ok tt
      → (challenge == "") ≡ false
      → (presentation : Value) × (make_presentation o.platform holder
            (credential_of ds value)
            challenge
          ≡ some presentation)
        × ((x : String)
            → verify_presentation o trusted_issuers moment presentation
                (public_hex o.platform holder)
                x
              ≡ (if elem x ds then ok tt else refused domain_not_granted))
  unfolding make_presentation sign_challenge verify_presentation check_possession
      credential_subject_did credential_domains
  present-verifies ds value challenge verified fresh =
      let message = pop_signing_bytes challenge subject in
      let signature = sign o.platform holder message in
      let (bytes, small, wide, hex) = f.hexes holder message in
      let visible : (signature == "") ≡ false = ap (λ s. s == "") hex ∙ of_bytes bytes wide in
      let whole = did-full subject (public_hex o.platform holder) f.owned in
      (
        dict (
            field "credential" (dict (credential_of ds value)) (
              field "challenge" (str challenge) (field "challenge_signature" (str signature) end))),
        rw (make_presentation, sign_challenge, whole) refl,
        λ x. rw verified (
            possession-verifies (credential_of ds value) challenge x refl fresh
            ∙ ap (λ b. if b then ok tt else refused domain_not_granted) (holds-of_texts x ds)),
      )

  -- What the authority issues to a holder, in force, the holder can present with any challenge,
  -- and a node accepts it for the domains that were asked for and for no other.
  pub issue_reviewer_credential-accepted :
      (d : String) (ds : List String) (validity_days : ℕ) (valid_until : Option ℤ)
      (challenge : String)
      → all is_full (d ∷ ds) ≡ true
      → end_of_validity o start validity_days valid_until ≡ some finish
      → (challenge == "") ≡ false
      → (c : Fields) × (issue_reviewer_credential o subject
            (list (of_texts (d ∷ ds)))
            key
            issuer
            validity_days
            start
            valid_until
          ≡ some c)
        × (presentation : Value) × (make_presentation o.platform holder c challenge
            ≡ some presentation)
        × ((x : String)
            → verify_presentation o trusted_issuers moment presentation
                (public_hex o.platform holder)
                x
              ≡ (if elem x (d ∷ ds) then ok tt else refused domain_not_granted))
  unfolding issue_reviewer_credential
  issue_reviewer_credential-accepted d ds days valid_until challenge full lasts fresh =
      let (value, secured, verified) =
        secure-verifies (granted (d ∷ ds)) (granted-some d ds) (granted-full (d ∷ ds) full) in
      let (presentation, made, judged) =
        present-verifies (granted (d ∷ ds)) value challenge verified fresh in
      (
        credential_of (granted (d ∷ ds)) value,
        rw (f.owned, all_text-of_texts (d ∷ ds), full, lasts, texts-of_texts ds) secured,
        presentation,
        made,
        λ x.
            judged x
            ∙ ap (λ b. if b then ok tt else refused domain_not_granted) (elem-granted x (d ∷ ds)),
      )
