-- ===== src/TxSigning.antt =====
-- blockchain/tx_signing.py: which transactions their author must have signed.
use hs_fob.Base.{Bool, false, ◌||◌, Option, none, some}
use hs_fob.Values.{Value, list, dict, equals_str, get_field}
use hs_fob.Transaction.{Transaction}

-- `v in PARTICIPANT_SIGNED_TYPES`, where a list or a dict cannot be hashed and raises
abbrev pub is_participant_type : Value → Option Bool
is_participant_type (list vs) = none
is_participant_type (dict fs) = none
is_participant_type v = some (equals_str "attestation" v || equals_str "submission" v)

-- `requires_signature`; `none` is the TypeError
unfoldable pub requires_signature : Transaction → Option Bool
requires_signature tx = elim tx.payload [
  | dict fs ↦ elim (get_field "type" fs) [ none ↦ some false | some v ↦ is_participant_type v ]
  | _ ↦ some false
]
