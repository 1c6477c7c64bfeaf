-- ===== src/Wire/Votes.antt =====
-- Votes survive the wire (network/wire.py).
use hs_fob.Base.{◌≡◌, refl, ap, Option, none, some, String, string_eq}
use hs_fob.Base.Int.{ℤ}
use hs_fob.Values.{Value, int, str, dict, Fields, get_field}
use hs_fob.Crypto.{Platform}
use hs_fob.Community.{Slot}
use hs_fob.Wire.{
  commit_fields, commit_to_wire, wire_to_commit, view_change_fields, view_change_to_wire,
  wire_to_view_change, text_field, int_field,
}

-- The same entries, in whatever order `json.loads` gives them.
abbrev pub SameEntries : Fields → Fields → Type 0
SameEntries fs gs = (key : String) → get_field key fs ≡ get_field key gs

text_field-same :
    (key : String) (fs gs : Fields) → SameEntries fs gs → text_field key fs ≡ text_field key gs
text_field-same key fs gs same =
    ap (λ (o : Option Value). elim o as (λ x. Option String) [ some (str s) ↦ some s | _ ↦ none ])
      (same key)

int_field-same :
    (key : String) (fs gs : Fields) → SameEntries fs gs → int_field key fs ≡ int_field key gs
int_field-same key fs gs same =
    ap (λ (o : Option Value). elim o as (λ x. Option ℤ) [ some (int n) ↦ some n | _ ↦ none ])
      (same key)

module _ (p : Platform) (loads : String → Option Value) where
  -- A commit vote survives the wire: if `json.loads` gives the entries that `json.dumps` wrote, in any order,
  -- then `wire_to_commit` gives back what `commit_to_wire` was given.
  pub wire_to_commit-commit_to_wire :
      (block_hash signer signature : String) (fs : Fields)
      → loads (commit_to_wire p block_hash signer signature) ≡ some (dict fs)
      → SameEntries fs (commit_fields block_hash signer signature)
      → wire_to_commit loads (commit_to_wire p block_hash signer signature)
        ≡ some (block_hash, (signer, signature))
  unfolding wire_to_commit
  wire_to_commit-commit_to_wire block_hash signer signature fs loaded same =
      let gs : Fields = commit_fields block_hash signer signature in
      rw
        (
          loaded,
          wire_to_commit,
          text_field-same "block_hash" fs gs same,
          text_field-same "signer" fs gs same,
          text_field-same "signature" fs gs same,
        )
        refl

  -- A view-change vote survives the wire: if `json.loads` gives the entries that `json.dumps` wrote, in any
  -- order, then `wire_to_view_change` gives back what `view_change_to_wire` was given.
  pub wire_to_view_change-view_change_to_wire :
      (slot : Slot) (signer signature : String) (fs : Fields)
      → loads (view_change_to_wire p slot signer signature) ≡ some (dict fs)
      → SameEntries fs (view_change_fields slot signer signature)
      → wire_to_view_change loads (view_change_to_wire p slot signer signature)
        ≡ some (slot, (signer, signature))
  unfolding wire_to_view_change
  wire_to_view_change-view_change_to_wire slot signer signature fs loaded same =
      let gs : Fields = view_change_fields slot signer signature in
      rw
        (
          loaded,
          wire_to_view_change,
          int_field-same "height" fs gs same,
          int_field-same "view" fs gs same,
          text_field-same "signer" fs gs same,
          text_field-same "signature" fs gs same,
        )
        refl
