-- ===== src/Did/Keys.antt =====
-- crypto/did.py: multibase texts and `did:key` identifiers. `none` is a ValueError.
use Prim.Native.Char.{Char}
use hs_fob.Base.{ℕ, Option, none, some, List, [], ◌∷◌, ◌++◌, String, ◌==◌, nat_eq, length}
use hs_fob.Base.Errors.{◌>>=◌, ◌>>◌, guard}
use hs_fob.Base.Text.{chars, joined, char_eq, after}
use hs_fob.Did.Base58.{b58encode, b58decode}
use hs_fob.Did.Hex.{to_hex, from_hex}

-- `ED25519_MULTICODEC_PREFIX`
abbrev pub multicodec_prefix : List ℕ
multicodec_prefix = 237 ∷ 1 ∷ []

-- `DID_KEY_PREFIX`
abbrev pub did_key_prefix : List Char
did_key_prefix = chars "did:key:"

-- `MULTIBASE_BASE58BTC`
abbrev pub base58btc : List Char
base58btc = chars "z"

-- `_ED25519_PUBLIC_KEY_LEN`
abbrev pub public_key_len : ℕ
public_key_len = 32

-- `multibase_encode`
unfoldable pub multibase_encode : List ℕ → String
multibase_encode bytes = joined (base58btc ++ chars (b58encode bytes))

-- `multibase_decode` of a text
unfoldable pub multibase_decode : String → Option (List ℕ)
multibase_decode t = do body ← after base58btc (chars t); b58decode (joined body)

-- `did_key_verification_method`
unfoldable pub did_key_verification_method : String → String
did_key_verification_method did =
    let body : List Char = elim (after did_key_prefix (chars did)) [
      | none ↦ chars did
      | some body ↦ body
    ] in
    joined (chars did ++ chars "#" ++ body)

-- `public_key_to_did_key`
unfoldable pub public_key_to_did_key : String → Option String
public_key_to_did_key public_key_hex = do
  key_bytes ← from_hex public_key_hex
  guard (length key_bytes == public_key_len)
  let payload = multicodec_prefix ++ key_bytes
  some (joined (did_key_prefix ++ base58btc ++ chars (b58encode payload)))

-- `did_key_to_public_key` of a text
unfoldable pub did_key_to_public_key : String → Option (List ℕ)
did_key_to_public_key did = do
  body ← after did_key_prefix (chars did)
  encoded ← after base58btc body
  payload ← b58decode (joined encoded)
  key_bytes ← after multicodec_prefix payload
  guard (length key_bytes == public_key_len)
  some key_bytes

-- `did_key_to_public_hex`
unfoldable pub did_key_to_public_hex : String → Option String
did_key_to_public_hex did = do key_bytes ← did_key_to_public_key did; some (to_hex key_bytes)

-- `try_public_key_to_did_key` of a text
unfoldable pub try_public_key_to_did_key : String → Option String
try_public_key_to_did_key value = public_key_to_did_key value
