-- ===== src/Did/Identity.antt =====
-- crypto/did.py: a key has one `did:key`, and the `did:key` gives the key back.
use hs_fob.Base.{
  ℕ, true, Option, some, List, [], ◌∷◌, ◌++◌, String, arith, ◌==◌, nat_eq, length, ◌≡◌, refl, ap,
  ◌∙◌, sym,
}
use mathlib.Core.Path.{subst}
use mathlib.Core.Option.{some-injective}
use hs_fob.Base.Errors.{◌>>=◌, ◌>>◌, guard, bind-some, guard-some}
use hs_fob.Base.Digits.{AreDigits}
use hs_fob.Base.Text.{chars, joined, char_eq, after, after-some, chars-joined, joined-chars}
use hs_fob.Did.Base58.{b58encode, b58decode}
use hs_fob.Did.RoundTrip.{b58decode-b58encode, b58encode-b58decode}
use hs_fob.Did.Hex.{to_hex, from_hex, from_hex-to_hex, from_hex-AreDigits}
use hs_fob.Did.Keys.{
  multicodec_prefix, did_key_prefix, base58btc, public_key_len, multibase_encode, multibase_decode,
  public_key_to_did_key, did_key_to_public_key, did_key_to_public_hex,
}

reread : (t : String) → joined (chars (joined (chars t))) ≡ t
reread t = joined-chars (joined (chars t)) ∙ joined-chars t

-- The steps of `did_key_to_public_key` after the prefixes.
key_of : String → Option (List ℕ)
key_of encoded = do
  payload ← b58decode encoded
  key_bytes ← after multicodec_prefix payload
  guard (length key_bytes == public_key_len)
  some key_bytes

key_of-b58encode :
    (key : List ℕ)
    → AreDigits 256 key
    → (length key == public_key_len) ≡ true
    → key_of (b58encode (multicodec_prefix ++ key)) ≡ some key
unfolding key_of
key_of-b58encode key h wide = rw (b58decode-b58encode (multicodec_prefix ++ key) h, wide) refl

-- Every sequence of bytes survives `multibase_encode` and `multibase_decode`.
pub multibase_decode-multibase_encode :
    (bytes : List ℕ) → AreDigits 256 bytes → multibase_decode (multibase_encode bytes) ≡ some bytes
unfolding multibase_decode multibase_encode
multibase_decode-multibase_encode bytes h =
    ap b58decode (reread (b58encode bytes)) ∙ b58decode-b58encode bytes h

all_after : (p ds : List ℕ) → AreDigits 256 (p ++ ds) → AreDigits 256 ds
all_after [] ds h = h
all_after (d ∷ p) ds h = all_after p ds (ground (arith, h))

-- The `did:key` of a public key gives the key's bytes back.
pub did_key_to_public_key-public_key_to_did_key :
    (public_key_hex did : String)
    → public_key_to_did_key public_key_hex ≡ some did
    → did_key_to_public_key did ≡ from_hex public_key_hex
unfolding public_key_to_did_key did_key_to_public_key key_of
did_key_to_public_key-public_key_to_did_key hex did h =
    let (key, p, q) = bind-some (from_hex hex) _ h in
    let (wide, r) = guard-some (length key == public_key_len) _ q in
    ap did_key_to_public_key (sym (some-injective _ _ r))
    ∙ ap key_of (reread (b58encode (multicodec_prefix ++ key)))
    ∙ key_of-b58encode key (from_hex-AreDigits hex key p) wide
    ∙ sym p

record IsKeyOf (did : String) (key : List ℕ) : Type 0 where
  bytes : AreDigits 256 key
  wide : (length key == public_key_len) ≡ true
  spelt : chars did ≡ did_key_prefix ++ base58btc ++ chars (b58encode (multicodec_prefix ++ key))

did_key_to_public_key-some :
    (did : String) (key : List ℕ) → did_key_to_public_key did ≡ some key → IsKeyOf did key
unfolding did_key_to_public_key
did_key_to_public_key-some did key o =
    let (body, starts, q) = bind-some (after did_key_prefix (chars did)) _ o in
    let (encoded, based, r) = bind-some (after base58btc body) _ q in
    let (payload, decoded, s) = bind-some (b58decode (joined encoded)) _ r in
    let (tail, coded, t) = bind-some (after multicodec_prefix payload) _ s in
    let (wide, u) = guard-some (length tail == public_key_len) _ t in
    let (small, same) = b58encode-b58decode (joined encoded) payload decoded in
    let whole : payload ≡ multicodec_prefix ++ tail =
      after-some multicodec_prefix payload tail coded in
    let exact : tail ≡ key = some-injective _ _ u in
    let again : chars (b58encode (multicodec_prefix ++ key)) ≡ encoded =
      ap (λ k. chars (b58encode (multicodec_prefix ++ k))) (sym exact)
      ∙ ap (λ x. chars (b58encode x)) (sym whole)
      ∙ ap chars same
      ∙ chars-joined encoded in
    record {
      bytes =
          subst (AreDigits 256) exact
            (all_after multicodec_prefix tail (subst (AreDigits 256) whole small));
      wide = rw (sym exact) wide;
      spelt =
          after-some did_key_prefix (chars did) body starts
          ∙ ap (◌++◌ did_key_prefix) (after-some base58btc body encoded based)
          ∙ ap (λ x. did_key_prefix ++ base58btc ++ x) (sym again);
    }

-- A text that `did_key_to_public_hex` accepts is the one `did:key` of the key that it gives.
pub public_key_to_did_key-did_key_to_public_hex :
    (did public_key_hex : String)
    → did_key_to_public_hex did ≡ some public_key_hex
    → public_key_to_did_key public_key_hex ≡ some did
unfolding public_key_to_did_key did_key_to_public_hex
public_key_to_did_key-did_key_to_public_hex did hex h =
    let (key, o, p) = bind-some (did_key_to_public_key did) (λ k. some (to_hex k)) h in
    let k = did_key_to_public_key-some did key o in
    ap public_key_to_did_key (sym (some-injective _ _ p))
    ∙ rw (from_hex-to_hex key k.bytes, k.wide)
        (ap (λ x. some (joined x)) (sym k.spelt) ∙ ap some (joined-chars did))
