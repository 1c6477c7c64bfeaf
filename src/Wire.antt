-- ===== src/Wire.antt =====
-- network/wire.py: what stands on the wire, and the decoders of votes and presentations. `json.loads` is a
-- parameter, where `none` is a JSONDecodeError; `none` of a decoder is its ValueError. The decoders of
-- transactions and blocks are left out: they let attributes of any JSON type through.
pub mod Votes
use hs_fob.Base.{
  Bool, true, false, Option, none, some, List, [], ◌∷◌, ◌++◌, String, string_eq, ◌==◌,
  if◌then◌else◌,
}
use hs_fob.Base.Int.{ℤ}
use hs_fob.Values.{Value, int, str, list, dict, Items, nil, cons, Fields, end, field, get_field}
use hs_fob.Crypto.{Platform}
use hs_fob.Transaction
use hs_fob.Transaction.{Transaction}
use hs_fob.Block
use hs_fob.Block.{Block}
use hs_fob.Community.{Slot}

-- `PRESENTATION_KEY`
abbrev pub presentation_key : String
presentation_key = "credential_presentation"

abbrev pub put_last : String → Value → Fields → Fields
put_last k v end = field k v end
put_last k v (field j w fs) = field j w (put_last k v fs)

-- `{**data, k: v}` of a dict that has no such key
abbrev pub with_entry : String → Value → Value → Value
with_entry k v (dict fs) = dict (put_last k v fs)
with_entry k v other = other

abbrev pub blocks_json : Platform → List Block → Items
blocks_json p [] = nil
blocks_json p (b ∷ blocks) = cons (Block.to_dict p b) (blocks_json p blocks)

-- `data.get(key)` where only a text passes, and where only an int passes that is no bool
abbrev pub text_field : String → Fields → Option String
text_field key fs = elim (get_field key fs) [ some (str s) ↦ some s | _ ↦ none ]

abbrev pub int_field : String → Fields → Option ℤ
int_field key fs = elim (get_field key fs) [ some (int n) ↦ some n | _ ↦ none ]

abbrev pub commit_of :
    Option String → Option String → Option String → Option (String × (String × String))
commit_of (some block_hash) (some signer) (some signature) = some (block_hash, (signer, signature))
commit_of _ _ _ = none

abbrev pub view_change_of :
    Option ℤ → Option ℤ → Option String → Option String → Option (Slot × (String × String))
view_change_of (some height) (some view) (some signer) (some signature) =
    some (record { height = height; view = view }, (signer, signature))
view_change_of _ _ _ _ = none

-- the dict of `commit_to_wire`
abbrev pub commit_fields : String → String → String → Fields
commit_fields block_hash signer signature =
    field "block_hash" (str block_hash)
      (field "signer" (str signer) (field "signature" (str signature) end))

-- the dict of `view_change_to_wire`
abbrev pub view_change_fields : Slot → String → String → Fields
view_change_fields slot signer signature = field "height" (int slot.height) (
    field "view" (int slot.view)
      (field "signer" (str signer) (field "signature" (str signature) end)))

module _ (p : Platform) where
  -- `tx_to_wire`
  unfoldable pub tx_to_wire : Transaction → Option Value → String
  tx_to_wire tx none = p.dumps (Transaction.to_dict tx)
  tx_to_wire tx (some presentation) =
      p.dumps (with_entry presentation_key presentation (Transaction.to_dict tx))

  -- `block_to_wire`
  unfoldable pub block_to_wire : Block → String
  block_to_wire b = p.dumps (Block.to_dict p b)

  -- `chain_to_wire`
  unfoldable pub chain_to_wire : List Block → String
  chain_to_wire blocks = p.dumps (list (blocks_json p blocks))

  -- `commit_to_wire`
  unfoldable pub commit_to_wire : String → String → String → String
  commit_to_wire block_hash signer signature =
      p.dumps (dict (commit_fields block_hash signer signature))

  -- `view_change_to_wire`
  unfoldable pub view_change_to_wire : Slot → String → String → String
  view_change_to_wire slot signer signature =
      p.dumps (dict (view_change_fields slot signer signature))

module _ (loads : String → Option Value) where
  -- `wire_to_presentation`; the inner `none` is its None
  unfoldable pub wire_to_presentation : String → Option (Option Fields)
  wire_to_presentation s = elim (loads s) [
    | none ↦ none
    | some (dict fs) ↦
        some (elim (get_field presentation_key fs) [ some (dict gs) ↦ some gs | _ ↦ none ])
    | some _ ↦ some none
  ]

  -- `wire_to_commit`
  unfoldable pub wire_to_commit : String → Option (String × (String × String))
  wire_to_commit s = elim (loads s) [
    | some (dict fs) ↦
        commit_of (text_field "block_hash" fs) (text_field "signer" fs) (text_field "signature" fs)
    | _ ↦ none
  ]

  -- `wire_to_view_change`
  unfoldable pub wire_to_view_change : String → Option (Slot × (String × String))
  wire_to_view_change s = elim (loads s) [
    | some (dict fs) ↦
        view_change_of (int_field "height" fs) (int_field "view" fs) (text_field "signer" fs)
          (text_field "signature" fs)
    | _ ↦ none
  ]
