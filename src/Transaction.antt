-- ===== src/Transaction.antt =====
-- blockchain/transaction.py: the signed, content-addressed transaction.
use hs_fob.Base.{Bool, true, false, Option, none, some, String}
use hs_fob.Values.{Value, str, null, dict, Fields, end, field}
use hs_fob.Crypto
use hs_fob.Crypto.{Platform}

-- `Transaction`. The timestamp is a float; a decoder may also leave another JSON value there.
pub record Transaction : Type 0 where
  pub sender : String
  pub payload : Value
  pub timestamp : Value
  pub signature : Option String

-- `_signable_content`
unfoldable pub signable_content : Transaction → Fields
signable_content tx =
    field "sender" (str tx.sender) (field "payload" tx.payload (field "timestamp" tx.timestamp end))

-- a `str | None` attribute as JSON
abbrev pub nullable : Option String → Value
nullable none = null
nullable (some s) = str s

-- `is_signed`
unfoldable pub is_signed : Transaction → Bool
is_signed tx = elim tx.signature [ none ↦ false | some _ ↦ true ]

-- `to_dict`
unfoldable pub to_dict : Transaction → Value
to_dict tx = dict (
    field "sender" (str tx.sender) (
      field "payload" tx.payload
        (field "timestamp" tx.timestamp (field "signature" (nullable tx.signature) end))))

module _ (p : Platform) where
  -- `signing_bytes`
  unfoldable pub signing_bytes : Transaction → String
  signing_bytes tx = p.dumps (dict (signable_content tx))

  -- `hash`
  unfoldable pub hash : Transaction → String
  hash tx = p.sha256 (signing_bytes tx)

  -- `sign`, in place
  unfoldable pub sign : String → Transaction → Transaction
  sign private_key tx = record tx {
    signature = some (Crypto.sign p private_key (signing_bytes tx));
  }

  -- `verify_signature`
  unfoldable pub verify_signature : Transaction → Bool
  verify_signature tx = elim tx.signature [
    | none ↦ false
    | some signature ↦ Crypto.verify p tx.sender (signing_bytes tx) signature
  ]
