-- ===== src/Credentials/Issued.antt =====
-- credentials/vc.py: an issued credential verifies.
use Prim.Native.Char.{Char}
use hs_fob.Base.Text.{chars}
use hs_fob.Base.{
  if◌then◌else◌, inl, inr, eq_iff, ==-refl, Bool-cases, length, ℕ, Bool, true, false, Option, none,
  some, List, [], ◌∷◌, String, ◌==◌, string_eq, ◌≡◌, refl, ap, all, arith,
}
use hs_fob.Base.Int.{ℤ, ltb_ℤ}
use hs_fob.Base.Sets.{elem}
use hs_fob.Base.Order.{string_ord}
use hs_fob.Base.Digits.{AreDigits}
use hs_fob.Values.{Fields, str, list, dict, of_texts, to_list, is_text}
use hs_fob.Jcs.{Encoder, canonicalize, canonical_items, canonical_fields}
use hs_fob.Crypto.{Platform, sign, verify}
use hs_fob.Did.Hex.{to_hex}
use hs_fob.Did.Keys.{did_key_to_public_hex, did_key_verification_method, multibase_encode}
use hs_fob.Did.Identity.{multibase_decode-multibase_encode}
use hs_fob.Credentials.Dates.{parse_iso, returns}
use hs_fob.Credentials.Checks.{ok, ◌>>◌, require, no_domains, bad_domains}
use hs_fob.Credentials.Verify.{
  Office, credential_signing_bytes, check_shape, check_issuer, check_subject, check_window,
  check_proof,
}
use hs_fob.Credentials.Issue.{unsigned, proof_options, append_field, texts}

-- `sign` returns the `.hex()` of a signature's 64 bytes.
abbrev pub HexSignatures : Platform → Type 0
HexSignatures p =
    (key message : String)
    → (bytes : List ℕ) × AreDigits 256 bytes
      × (length bytes ≡ 64)
      × (sign p key message ≡ to_hex bytes)

canonical_items-of_texts :
    (e : Encoder) (ts : List String)
    → (out : List (List Char)) × (canonical_items e (of_texts ts) ≡ some out)
unfolding canonical_items canonicalize
canonical_items-of_texts e [] = ([], refl)
canonical_items-of_texts e (t ∷ ts) =
    let (out, h) = canonical_items-of_texts e ts in (chars (e.quote t) ∷ out, rw h refl)

abbrev is_some {ℓ} : {A : Type ℓ} → Option A → Bool
is_some none = false
is_some (some a) = true

is_some-some {ℓ} : {A : Type ℓ} (x : Option A) → is_some x ≡ true → (a : A) × (x ≡ some a)
is_some-some none h = cc
is_some-some (some a) h = (a, refl)

pub all-elem :
    (p : String → Bool) (xs : List String)
    → ((x : String) → elem x xs ≡ true → p x ≡ true)
    → all p xs ≡ true
all-elem p [] h = refl
all-elem p (x ∷ xs) h =
    ground (arith, h x (rw (==-refl x) refl), all-elem p xs (λ y q. h y (ground (arith, q))))

pub elem-all :
    (p : String → Bool) (x : String) (xs : List String)
    → all p xs ≡ true
    → elem x xs ≡ true
    → p x ≡ true
elem-all p x [] h q = cc
elem-all p x (y ∷ ys) h q = elim (Bool-cases (x == y)) [
  | inl e ↦ rw ((eq_iff x y).0 e) (ground (arith, h))
  | inr e ↦ elem-all p x ys (ground (arith, h)) (ground (arith, q, e))
]

abbrev pub is_full : String → Bool
is_full s = if s == "" then false else true

pub texts-of_texts : (ts : List String) → texts (to_list (of_texts ts)) ≡ ts
texts-of_texts [] = refl
texts-of_texts (t ∷ ts) = ap (◌∷◌ t) (texts-of_texts ts)

pub all_text-of_texts : (ts : List String) → all is_text (to_list (of_texts ts)) ≡ all is_full ts
all_text-of_texts [] = refl
all_text-of_texts (t ∷ ts) = rw (all_text-of_texts ts) refl

module _ (o : Office) where
  pub signing_bytes-some :
      (issuer subject start finish created method : String) (ds : List String)
      → (m : String) × (credential_signing_bytes o
            (unsigned issuer subject start finish (list (of_texts ds)))
            (proof_options created method)
          ≡ some m)
  unfolding credential_signing_bytes canonicalize canonical_items canonical_fields
  signing_bytes-some issuer subject start finish created method ds =
      let (out, h) = canonical_items-of_texts o.encoder ds in is_some-some _ (rw (is_some, h) refl)

  abbrev pub sealed : String → Fields → Fields → Fields
  sealed value options credential =
      append_field "proof" (dict (append_field "proofValue" (str value) options)) credential

  module _ (issuer subject start finish : String) (ds : List String) where
    abbrev pub document : Fields
    document = unsigned issuer subject start finish (list (of_texts ds))

    abbrev pub options : Fields
    options = proof_options start (did_key_verification_method issuer)

    sealed-signing_bytes :
        (value : String)
        → credential_signing_bytes o
            (sealed value options document)
            (append_field "proofValue" (str value) options)
          ≡ credential_signing_bytes o document options
    unfolding credential_signing_bytes
    sealed-signing_bytes value = refl

    pub sealed-shape : (value : String) → check_shape o (sealed value options document) ≡ ok tt
    unfolding check_shape
    sealed-shape value = refl

    pub sealed-issuer :
        (value key : String) (trusted_issuers : List String)
        → elem issuer trusted_issuers ≡ true
        → did_key_to_public_hex issuer ≡ some key
        → check_issuer o trusted_issuers (sealed value options document) ≡ ok (issuer, key)
    unfolding check_issuer
    sealed-issuer value key trusted known named = rw (known, named) refl

    pub sealed-subject :
        (value key : String)
        → did_key_to_public_hex subject ≡ some key
        → elim ds [ [] ↦ false | ◌∷◌ d es ↦ true ] ≡ true
        → all is_full ds ≡ true
        → check_subject o (sealed value options document) ≡ ok tt
    unfolding check_subject
    sealed-subject value key real some_domain full = rw (real) (ends ds some_domain full)
      where
        ends :
            (ds : List String)
            → elim ds [ [] ↦ false | ◌∷◌ d es ↦ true ] ≡ true
            → all is_full ds ≡ true
            → (do
              require (elim (to_list (of_texts ds)) [ [] ↦ false | ◌∷◌ d es ↦ true ]) no_domains
              require (all is_text (to_list (of_texts ds))) bad_domains)
              ≡ ok tt
        ends [] p q = cc
        ends (d ∷ ds) p q = rw (all_text-of_texts (d ∷ ds), q) refl

    pub sealed-window :
        (value : String) (moment read_start read_finish : ℤ)
        → parse_iso o.calendar (str start) ≡ returns (some read_start)
        → parse_iso o.calendar (str finish) ≡ returns (some read_finish)
        → ltb_ℤ moment read_start ≡ false
        → ltb_ℤ read_finish moment ≡ false
        → check_window o moment (sealed value options document) ≡ ok tt
    unfolding check_window
    sealed-window value moment s f p q r t = rw (p, r, q, t) refl

    pub sealed-proof :
        (key message : String) (bytes : List ℕ)
        → AreDigits 256 bytes
        → credential_signing_bytes o document options ≡ some message
        → verify o.platform key message (to_hex bytes) ≡ true
        → check_proof o issuer key (sealed (multibase_encode bytes) options document) ≡ ok tt
    unfolding check_proof
    sealed-proof key message bytes h m v =
        rw
          (
            ==-refl (did_key_verification_method issuer),
            multibase_decode-multibase_encode bytes h,
            sealed-signing_bytes (multibase_encode bytes),
            m,
            v,
          )
          refl
