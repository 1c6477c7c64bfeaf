-- ===== src/Crypto.antt =====
-- crypto/keys.py: Ed25519 keys, signing and verification, and what stands below it. The
-- `cryptography` package, SHA-256 and the canonical JSON encoder are not the repository's: they are
-- the fields of `Platform`. A private key is its 32-byte seed, which Ed25519 identifies it with.
use hs_fob.Base.{◌≡◌, Bool, true, false, Option, none, some, String}
use hs_fob.Base.Int.{ℤ}
use hs_fob.Values.{Value}

pub record Platform : Type 0 where
  -- `hashlib.sha256(text.encode("utf-8")).hexdigest()`
  pub sha256 : String → String
  -- `json.dumps(value, sort_keys=True, separators=(",", ":"))`
  pub dumps : Value → String
  -- `json.dumps(value, separators=(",", ":"))`, which keeps the order of keys
  pub dumps_in_order : Value → String
  -- the integer that a float, given by its `repr`, compares equal to, if there is one
  pub integral : String → Option ℤ
  -- `private_key.public_key().public_bytes_raw().hex()`
  pub public_bytes : String → String
  -- `private_key.sign(message).hex()`
  pub sign_bytes : String → String → String
  -- `Ed25519PublicKey.from_public_bytes(bytes.fromhex(text))`; `none` is a ValueError
  pub parse_key : String → Option String
  -- `bytes.fromhex(text)`; `none` is a ValueError
  pub parse_signature : String → Option String
  -- `public_key.verify(signature, message)`; `false` is an InvalidSignature
  pub check : String → String → String → Bool

module _ (p : Platform) where
  -- `public_hex`
  unfoldable pub public_hex : String → String
  public_hex key = p.public_bytes key

  -- `sign`
  unfoldable pub sign : String → String → String
  sign key message = p.sign_bytes key message

  -- `verify`: the exceptions of a malformed key, a malformed signature and a wrong one are `False`.
  unfoldable pub verify : String → String → String → Bool
  verify public_key_hex message signature_hex = elim (p.parse_key public_key_hex) [
    | none ↦ false
    | some key ↦ elim (p.parse_signature signature_hex) [
      | none ↦ false
      | some signature ↦ p.check key signature message
    ]
  ]

  -- What is relied on of Ed25519: a signature that a key has made verifies under its public key.
  pub record IsCorrect : Type 0 where
    pub verify-sign :
        (key message : String) → verify (public_hex key) message (sign key message) ≡ true
