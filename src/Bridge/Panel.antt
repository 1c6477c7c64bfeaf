-- ===== src/Bridge/Panel.antt =====
-- network/http_bridge.py, `_submissions_payload`: the review progress of every submission in the chain
-- or the pool. `none` is an exception. A submission's fields have been shown to be texts.
use hs_fob.Base.{
  Bool, true, false, not, Option, none, some, List, [], ◌∷◌, String, string_eq, if◌then◌else◌, ◌&&◌,
  ◌++◌, keep, length,
}
use hs_fob.Base.Int.{ℤ, pos, int_eq}
use hs_fob.Base.Dict.{Dict, lookup, lookup_or, insert, contains}
use hs_fob.Base.Sets.{elem, add}
use hs_fob.Base.Errors.{◌>>=◌}
use hs_fob.Values.{
  Value, null, bool, int, str, list, dict, Fields, end, field, field_is, equals_str, text_at,
}
use hs_fob.Transaction
use hs_fob.Transaction.{Transaction}
use hs_fob.Attestation.{fields}
use hs_fob.Submission.{is_submission}
use hs_fob.Block.{Block}
use hs_fob.Crypto.{Platform}
use hs_fob.Registry.{ReputationRegistry, weight}
use hs_fob.Tally.{Scope, positive_attesters, positive_attesters_by_item, capped_support}
use hs_fob.Derive.{certificate_type, derive_registry}
use hs_fob.Certificate.{certificate_id, certificate_threshold, carries_weight, of_ints}
use hs_fob.Certificate.Statuses.{certificate_statuses}
use hs_fob.Rubric.{Rubric}
use hs_fob.Community.{AttestationCommunity}
use hs_fob.Bridge.Payloads.{short_full}

-- What is known of a submission's required items: the rubric, if this node has published it
pub record Coverage : Type 0 where
  pub required : List ℤ
  pub covered : List ℤ
  pub uncovered : List ℤ
  pub rubric_known : Bool

-- `[item for item in required if …]` and its complement
unfoldable pub coverage : Option Rubric → Dict ℤ (List String) → (String → ℤ) → Coverage
coverage none by_item w = record {
  required = [];
  covered = [];
  uncovered = [];
  rubric_known = false;
}
coverage (some rubric) by_item w =
    let covered =
      keep (λ item. carries_weight w (lookup_or [] item by_item)) rubric.required_items in
    record {
      required = rubric.required_items;
      covered = covered;
      uncovered = keep (λ item. not (elem item covered)) rubric.required_items;
      rubric_known = true;
    }

-- The scope of a submission, and the payload that names its certificate
abbrev pub scope_for : Fields → String → Scope
scope_for fs submission = record {
  subject = str (text_at "subject" fs);
  rubric_root = str (text_at "rubric_root" fs);
  domain = str (text_at "domain" fs);
  submission = str submission;
}

abbrev pub identity_fields : Scope → Fields
identity_fields scope = field "subject" scope.subject (
    field "rubric_root" scope.rubric_root
      (field "domain" scope.domain (field "submission_tx_hash" scope.submission end)))

module _ (p : Platform) where
  -- `cert_by_scope.setdefault(certificate_id(payload), tx)` for a block's certificates
  unfoldable pub index_certificates :
      List Transaction → Dict String Transaction → Dict String Transaction
  index_certificates [] found = found
  index_certificates (tx ∷ txs) found =
      let cid = certificate_id p (fields tx) in
      let next =
        if field_is (equals_str certificate_type) "type" (fields tx)
        then (if contains cid found then found else insert cid tx found)
        else found in
      index_certificates txs next

  unfoldable pub cert_by_scope : List Block → Dict String Transaction → Dict String Transaction
  cert_by_scope [] found = found
  cert_by_scope (b ∷ blocks) found = cert_by_scope blocks (index_certificates b.transactions found)

  -- the entry `certificate`
  abbrev pub certificate_entry : Option Transaction → Dict String String → Fields
  certificate_entry none statuses =
      field "issued" (bool false) (field "tx_hash" null (field "status" null end))
  certificate_entry (some tx) statuses = field "issued" (bool true) (
      field "tx_hash" (str (Transaction.hash p tx)) (
        field "status"
          (elim (lookup (Transaction.hash p tx) statuses) [ none ↦ null | some s ↦ str s ]) end))

  module _ (blocks : List Block) (registry : ReputationRegistry) (rubrics : Dict String Rubric)
      (certificates : Dict String Transaction) (statuses : Dict String String) where
    -- `_summarise`
    unfoldable pub summarise : Transaction → String → Value → Value
    summarise tx place block_index =
        let fs = fields tx in
        let submission = Transaction.hash p tx in
        let scope = scope_for fs submission in
        let attesters = positive_attesters blocks scope in
        let w = λ (a : String). weight registry a (text_at "domain" fs) in
        let c =
          coverage (lookup (text_at "rubric_root" fs) rubrics)
            (positive_attesters_by_item blocks scope) w in
        let decided = lookup (certificate_id p (identity_fields scope)) certificates in
        dict (
          field "submission_tx_hash" (str submission) (
            field "where" (str place) (
              field "block_index" block_index (
                field "submitter" (short_full tx.sender) (
                  field "subject" scope.subject (
                    field "domain" scope.domain (
                      field "rubric_root" scope.rubric_root (
                        field "title" (str (text_at "title" fs)) (
                          field "artifact_hash" (str (text_at "artifact_hash" fs)) (
                            field "artifact_name" (str (text_at "artifact_name" fs)) (
                              field "support" (int (capped_support blocks attesters w)) (
                                field "threshold" (int certificate_threshold) (
                                  field "attester_count" (int (pos (length attesters))) (
                                    field "rubric_known" (bool c.rubric_known) (
                                      field "required_items" (list (of_ints c.required)) (
                                        field "covered_items" (list (of_ints c.covered)) (
                                          field "uncovered_items" (list (of_ints c.uncovered)) (
                                            field "certificate"
                                              (dict (certificate_entry decided statuses))
                                              end))))))))))))))))))

    -- the loop over the transactions of one place: the submissions that `seen` does not hold
    unfoldable pub summaries :
        String → Value → List Transaction → List String → List String × List Value
    summaries place block_index [] seen = (seen, [])
    summaries place block_index (tx ∷ txs) seen =
        let h = Transaction.hash p tx in
        let new = is_submission tx && not (elem h seen) in
        let (last, rest) = summaries place block_index txs (if new then add h seen else seen) in
        (last, if new then summarise tx place block_index ∷ rest else rest)

    unfoldable pub block_loop : List Block → List String → List String × List Value
    block_loop [] seen = (seen, [])
    block_loop (b ∷ rest) seen =
        let (s, here) = summaries "block" (int (pos b.index)) b.transactions seen in
        let (last, later) = block_loop rest s in (last, here ++ later)

  -- `_submissions_payload`
  unfoldable pub submissions_payload :
      AttestationCommunity → Dict String Rubric → Option (List Value)
  submissions_payload n rubrics = do
    let blocks = n.blockchain.blocks
    registry ← derive_registry p blocks (length blocks) n.blockchain.genesis
    statuses ← certificate_statuses p blocks n.blockchain.genesis
    let certificates = cert_by_scope blocks []
    let (seen, mined) = block_loop blocks registry rubrics certificates statuses blocks []
    let pooled =
        summaries blocks registry rubrics certificates statuses "mempool" null n.blockchain.mempool
          seen
    some (mined ++ pooled.1)
