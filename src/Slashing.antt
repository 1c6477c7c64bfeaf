-- ===== src/Slashing.antt =====
-- reputation/slashing.py: slashes, which carry two conflicting attestations as evidence and the
-- approvals of a quorum of validators.
pub mod Conflict
pub mod Evidence
pub mod Approvals
use hs_fob.Base.{
  ℕ, ◌≡◌, Bool, true, false, ◌&&◌, not, Option, none, some, List, [], ◌∷◌, map, String, string_eq,
  ◌==◌, if◌then◌else◌, leb, length, any,
}
use hs_fob.Base.Int.{ℤ, pos, leb_ℤ, int_eq}
use hs_fob.Base.Dict.{Dict}
use hs_fob.Base.Sets.{elem, to_set}
use hs_fob.Base.Order.{sorted, string_ord}
use hs_fob.Values.{
  Value, null, bool, int, str, list, dict, Items, nil, cons, Fields, end, field, get_field,
  equals_str, is_text, is_dict, field_is, text_of, text_at, int_at, fields_of, items_of, of_texts,
}
use hs_fob.Crypto
use hs_fob.Crypto.{Platform}
use hs_fob.Transaction
use hs_fob.Transaction.{Transaction}
use hs_fob.Block.{Block, text_fields}
use hs_fob.Attestation.{is_attestation, fields}
use hs_fob.Consensus.{quorum_size}

-- `SLASH_TYPE`, `DEFAULT_SLASH_PENALTY`, `MAX_SLASH`
abbrev pub slash_type : String
slash_type = "slash"

abbrev pub default_slash_penalty : ℤ
default_slash_penalty = pos 50

abbrev pub max_slash : ℤ
max_slash = pos 100

-- `make_slash`, without its clock; `issuer` may be left out
unfoldable pub make_slash :
    String → String → List String → Dict String String → ℤ → Option String → Value → Transaction
make_slash offender domain evidence approvals amount issuer now = record {
  sender = elim issuer [ none ↦ offender | some i ↦ i ];
  payload = dict (
      field "type" (str slash_type) (
        field "offender" (str offender) (
          field "domain" (str domain) (
            field "amount" (int amount) (
              field "evidence" (list (of_texts (sorted evidence)))
                (field "approvals" (dict (text_fields approvals)) end))))));
  timestamp = now;
  signature = none;
}

-- an integer that is not negative, and no bool
abbrev pub is_amount : Value → Bool
is_amount (int n) = leb_ℤ (pos 0) n
is_amount _ = false

-- a list of two distinct non-empty texts
abbrev pub is_evidence : Value → Bool
is_evidence (list (cons a (cons b nil))) =
    is_text a && is_text b && not (text_of (some a) == text_of (some b))
is_evidence _ = false

unfoldable pub slash_fields : Fields → Bool
slash_fields fs =
    field_is (equals_str slash_type) "type" fs
    && field_is is_text "offender" fs
    && field_is is_text "domain" fs
    && field_is is_amount "amount" fs
    && field_is is_evidence "evidence" fs
    && field_is is_dict "approvals" fs

-- `is_slash`, on a payload
unfoldable pub is_slash : Value → Bool
is_slash payload = elim payload [ dict fs ↦ slash_fields fs | _ ↦ false ]

-- `evidence[0]` and `evidence[1]` of a well-formed slash
abbrev pub first_text : Items → String
first_text nil = ""
first_text (cons v vs) = text_of (some v)

abbrev pub rest_items : Items → Items
rest_items nil = nil
rest_items (cons v vs) = vs

abbrev pub evidence_at : Fields → String × String
evidence_at fs =
    let items = items_of (get_field "evidence" fs) in
    (first_text items, first_text (rest_items items))

-- a verdict that is a real bool
abbrev pub bool_of : Option Value → Option Bool
bool_of (some (bool b)) = some b
bool_of _ = none

-- both verdicts are bools, and they differ
abbrev pub opposite : Option Bool → Option Bool → Bool
opposite (some true) (some false) = true
opposite (some false) (some true) = true
opposite _ _ = false

module _ (p : Platform) where
  -- `slash_signing_bytes`
  unfoldable pub slash_signing_bytes : String → String → ℤ → List String → String
  slash_signing_bytes offender domain amount evidence = p.dumps (
      dict (
        field "type" (str slash_type) (
          field "offender" (str offender) (
            field "domain" (str domain) (
              field "amount" (int amount)
                (field "evidence" (list (of_texts (sorted evidence))) end))))))

  -- `approve_slash`
  unfoldable pub approve_slash : String → String → String → ℤ → List String → String × String
  unfolding slash_signing_bytes
  approve_slash key offender domain amount evidence = (
    Crypto.public_hex p key,
    Crypto.sign p key (slash_signing_bytes offender domain amount evidence),
  )

  unfoldable pub find_in : List Transaction → String → Option Transaction
  find_in [] tx_hash = none
  find_in (tx ∷ txs) tx_hash =
      if Transaction.hash p tx == tx_hash then some tx else find_in txs tx_hash

  -- `_find_tx`
  unfoldable pub find_tx : List Block → String → Option Transaction
  unfolding find_in
  find_tx [] tx_hash = none
  find_tx (b ∷ blocks) tx_hash = elim (find_in b.transactions tx_hash) [
    | some tx ↦ some tx
    | none ↦ find_tx blocks tx_hash
  ]

  -- `_conflicting_attestations`
  unfoldable pub conflicting_attestations : Transaction → Transaction → String → String → Bool
  conflicting_attestations tx_a tx_b offender domain =
      is_attestation tx_a
      && is_attestation tx_b
      && tx_a.sender == offender
      && tx_b.sender == offender
      && Transaction.verify_signature p tx_a
      && Transaction.verify_signature p tx_b
      && text_at "domain" (fields tx_a) == domain
      && text_at "domain" (fields tx_b) == domain
      && text_at "subject" (fields tx_a) == text_at "subject" (fields tx_b)
      && text_at "rubric_root" (fields tx_a) == text_at "rubric_root" (fields tx_b)
      && int_at "item_index" (fields tx_a) == int_at "item_index" (fields tx_b)
      && opposite (bool_of (get_field "verdict" (fields tx_a)))
          (bool_of (get_field "verdict" (fields tx_b)))

  abbrev pub approver_list : String → List String → Fields → List String
  approver_list message validators end = []
  approver_list message validators (field approver (str signature) fs) =
      if elem approver validators && Crypto.verify p approver message signature
      then approver ∷ approver_list message validators fs
      else approver_list message validators fs
  approver_list message validators (field approver _ fs) = approver_list message validators fs

  -- The validators with a genuine signature of theirs over the message: the set comprehension that
  -- `validate_slash` and `_promotion_ok` share.
  abbrev pub approvers : String → List String → Fields → List String
  approvers message validators fs = to_set (approver_list message validators fs)

  abbrev pub approved : String → List String → Fields → Bool
  approved message validators fs =
      leb (quorum_size (length validators)) (length (approvers message validators fs))

  abbrev pub slash_message : Fields → String
  slash_message fs =
      let (e0, e1) = evidence_at fs in
      slash_signing_bytes (text_at "offender" fs) (text_at "domain" fs) (int_at "amount" fs)
        (e0 ∷ e1 ∷ [])

  -- the evidence half of `validate_slash`
  unfoldable pub evidence_holds : Fields → List Block → Bool
  unfolding find_tx conflicting_attestations
  evidence_holds fs prefix =
      let (e0, e1) = evidence_at fs in
      elim (find_tx prefix e0) [
        | none ↦ false
        | some tx_a ↦ elim (find_tx prefix e1) [
          | none ↦ false
          | some tx_b ↦
              conflicting_attestations tx_a tx_b (text_at "offender" fs) (text_at "domain" fs)
        ]
      ]

  -- `if not validators: return False`
  abbrev pub some_one : List String → Bool
  some_one [] = false
  some_one (v ∷ vs) = true

  unfoldable pub validate_fields : Fields → List Block → List String → Bool
  unfolding evidence_holds slash_signing_bytes
  validate_fields fs prefix validators =
      slash_fields fs
      && evidence_holds fs prefix
      && some_one validators
      && approved (slash_message fs) validators (fields_of (get_field "approvals" fs))

  -- `validate_slash`
  unfoldable pub validate_slash : Value → List Block → List String → Bool
  unfolding validate_fields
  validate_slash payload prefix validators = elim payload [
    | dict fs ↦ validate_fields fs prefix validators
    | _ ↦ false
  ]
