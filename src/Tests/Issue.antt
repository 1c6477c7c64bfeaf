-- ===== src/Tests/Issue.antt =====
-- Examples for submissions and certificates.
use hs_fob.Base.{◌≡◌, refl, true, not, ◌&&◌, some, List, [], ◌∷◌, Option, String, arith}
use hs_fob.Base.Int.{ℤ, pos, ltb_ℤ}
use hs_fob.Values.{Value, str, int, list, float, Fields, field, end, of_texts}
use hs_fob.Transaction.{Transaction}
use hs_fob.Attestation.{fields}
use hs_fob.Block.{Block}
use hs_fob.Registry.{ReputationRegistry, weight}
use hs_fob.Tally.{Scope, positive_attesters, positive_attesters_by_item, capped_support}
use hs_fob.Rubric.{Rubric}
use hs_fob.Bridge.Panel.{coverage}
use hs_fob.Bridge.Panel.{submissions_payload, summarise}
use hs_fob.Bridge.Shown.{AreShown, submissions_payload-AreShown}
use hs_fob.Bridge.All.{covers, names, submissions_payload-covers}
use hs_fob.Submission.{make_submission}
use hs_fob.Derive.{derive_registry}
use hs_fob.Community.{AttestationCommunity}
use hs_fob.Community.Steps.{started}
use hs_fob.Tests.Forks.{anchor}
use hs_fob.Base.Dict.{Dict}
use hs_fob.Certificate.{
  certify, validate_certificate, make_certificate, certificate_threshold, of_ints,
}
use hs_fob.Certificate.Issue.{certify-validate}
use hs_fob.Tests.{toy, block_of, attest}

-- three reviewers of the same weight, each of them for the same item
abbrev reviewers : ReputationRegistry
reviewers = record {
  weights =
      ("pub-a", ("rust", pos 100) ∷ [])
      ∷ ("pub-b", ("rust", pos 100) ∷ [])
      ∷ ("pub-c", ("rust", pos 100) ∷ [])
      ∷ [];
}

abbrev reviews : List Block
reviews =
    block_of 0 []
    ∷ block_of 1 (attest "a" (some true) ∷ attest "b" (some true) ∷ attest "c" (some true) ∷ [])
    ∷ []

abbrev issued : Transaction
issued =
    make_certificate "alice" "root" "rust" "ab" ("pub-a" ∷ "pub-b" ∷ "pub-c" ∷ []) (pos 0 ∷ [])
      "certifier" (float "2.0")

enough_issued :
    certify toy reviews reviewers "alice" "root" "rust" "ab" certificate_threshold
      (pos 0 ∷ [])
      "certifier"
      (float "2.0")
    ≡ some issued
unfolding certify hs_fob.Tally.capped_support hs_fob.Tally.attester_clusters
    hs_fob.Tally.positive_attesters hs_fob.Attestation.is_attestation hs_fob.Transaction.sign
    hs_fob.Attestation.make_attestation hs_fob.Attestation.attestation_fields hs_fob.Base.Int.◌+ℤ◌
    hs_fob.Registry.weight hs_fob.Tally.positive_attesters_by_item
enough_issued = refl

certify-validate_example : validate_certificate toy reviews reviewers (fields issued) ≡ true
certify-validate_example =
    certify-validate toy reviews reviewers "alice" "root" "rust" "ab" certificate_threshold
      (pos 0 ∷ []) "certifier" (float "2.0") (omega arith) enough_issued

-- the same certificate from elsewhere: other keys, the names in another order, an item twice
abbrev foreign : Fields
foreign = field "note" (str "late") (
    field "granted_by" (list (of_texts ("pub-c" ∷ "pub-a" ∷ "pub-b" ∷ []))) (
      field "required_items" (list (of_ints (pos 0 ∷ pos 0 ∷ []))) (
        field "submission_tx_hash" (str "ab") (
          field "domain" (str "rust")
            (field "rubric_root" (str "root") (field "subject" (str "alice") end))))))

abbrev two_claims : Rubric
two_claims = record { claims = "correct" ∷ "clear" ∷ []; required_items = pos 0 ∷ pos 1 ∷ [] }

abbrev scope : Scope
scope = record {
  subject = str "alice";
  rubric_root = str "root";
  domain = str "rust";
  submission = str "ab";
}

abbrev standing : String → ℤ
standing a = weight reviewers a "rust"

still_uncovered :
    (coverage (some two_claims) (positive_attesters_by_item reviews scope) standing).uncovered
    ≡ pos 1 ∷ []
unfolding coverage hs_fob.Tally.positive_attesters_by_item hs_fob.Attestation.is_attestation
    hs_fob.Transaction.sign hs_fob.Attestation.make_attestation
    hs_fob.Attestation.attestation_fields hs_fob.Registry.weight hs_fob.Tally.supports
still_uncovered = refl

abbrev essay : Transaction
essay = make_submission "alice" "rust" "root" "essay" "ab" "" (float "1.0")

-- a node that knows the rubric of the one submission on its chain
abbrev library : AttestationCommunity
library =
    started
      (record {
        genesis = anchor;
        endowments = [];
        blocks = block_of 0 (essay ∷ []) ∷ [];
        mempool = [];
      })
      "v"

abbrev shelf : Dict String Rubric
shelf = ("root", two_claims) ∷ []

abbrev start : ReputationRegistry
start = record { weights = anchor }

registry_derived : derive_registry toy library.blockchain.blocks 1 anchor ≡ some start
unfolding derive_registry hs_fob.Derive.replay hs_fob.Derive.apply_block
    hs_fob.Derive.apply_transaction hs_fob.Derive.apply_fields hs_fob.Registry.new_registry
    make_submission
registry_derived = refl

abbrev panel : List Value
panel = summarise toy library.blockchain.blocks start shelf [] [] essay "block" (int (pos 0)) ∷ []

panel_shown : submissions_payload toy library shelf ≡ some panel
unfolding submissions_payload hs_fob.Bridge.Panel.summaries hs_fob.Bridge.Panel.block_loop
    hs_fob.Bridge.Panel.cert_by_scope hs_fob.Bridge.Panel.index_certificates
    hs_fob.Certificate.Statuses.certificate_statuses hs_fob.Certificate.Statuses.collect_slashes
    hs_fob.Certificate.Statuses.slashes_of hs_fob.Certificate.Statuses.all_statuses
    hs_fob.Certificate.Statuses.block_statuses hs_fob.Submission.is_submission
    hs_fob.Submission.submission_fields derive_registry hs_fob.Derive.replay
    hs_fob.Derive.apply_block hs_fob.Derive.apply_transaction hs_fob.Derive.apply_fields
    hs_fob.Registry.new_registry make_submission hs_fob.Transaction.hash
panel_shown = refl

submissions_payload-AreShown_example :
    AreShown toy library.blockchain.blocks start shelf certificate_threshold "certifier"
      (float "2.0")
      (essay ∷ [])
      panel
submissions_payload-AreShown_example =
    submissions_payload-AreShown toy library shelf certificate_threshold "certifier" (float "2.0")
      start panel registry_derived panel_shown

submissions_payload-covers_example : covers toy (names panel) (essay ∷ []) ≡ true
submissions_payload-covers_example = submissions_payload-covers toy library shelf panel panel_shown
