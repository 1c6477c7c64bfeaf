-- ===== src/Tests/Proposals.antt =====
-- Examples for slashes and promotions.
use hs_fob.Base.{
  ◌≡◌, refl, true, false, List, [], ◌∷◌, String, string_eq, none, some, arith, inl, inr, ap,
}
use hs_fob.Base.Sets.{elem}
use hs_fob.Base.Int.{pos}
use hs_fob.Values.{Value, str, dict, list, cons, nil, float, Fields, end}
use hs_fob.Crypto
use hs_fob.Transaction
use hs_fob.Transaction.{Transaction}
use hs_fob.Attestation.{is_attestation, attestation_fields, is_hex_text, make_attestation}
use hs_fob.Block.{Block}
use hs_fob.Registry.{
  ReputationRegistry, weight, credit, put_weight, new_registry, authorities_in_domain,
}
use hs_fob.Consensus.{quorum_size}
use hs_fob.Slashing.{
  make_slash, approve_slash, slash_signing_bytes, slash_fields, evidence_holds, find_in, find_tx,
  conflicting_attestations, validate_fields, validate_slash,
}
use hs_fob.Slashing.Evidence.{IsProven, validate_slash-IsProven}
use hs_fob.Promotion.{
  make_promotion, approve_promotion, promotion_signing_bytes, promotion_fields, promotion_gates,
  promotion_ok, promotion_message,
}
use hs_fob.Slashing.Approvals.{Signed}
use hs_fob.Promotion.Gates.{promotion-needs_quorum}
use hs_fob.Derive.{
  derive_registry, replay, apply_block, apply_transaction, apply_fields, credit_certificate,
  consensus_validators,
}
use hs_fob.Certificate.Statuses.{
  Slashed, certificate_contested, collect_slashes, slashes_of, block_slashes, evidence_submissions,
  status_of, is_contested, granted,
}
use hs_fob.Certificate.Contested.{IsContesting, status_of-IsContesting}
use hs_fob.Tests.Forks.{anchor}
use hs_fob.Tests.{toy, attest, block_of}

abbrev one_validator : List String
one_validator = "pub-v" ∷ []

abbrev yes : Transaction
yes = attest "eve" (some true)

abbrev no : Transaction
no = attest "eve" (some false)

abbrev evidence : List String
evidence = Transaction.hash toy yes ∷ Transaction.hash toy no ∷ []

abbrev slash : Transaction
slash =
    make_slash "pub-eve" "rust" evidence
      (approve_slash toy "v" "pub-eve" "rust" (pos 50) evidence ∷ []) (pos 50) none (float "1.0")

abbrev prefix : List Block
prefix = block_of 0 [] ∷ block_of 1 (yes ∷ no ∷ []) ∷ []

slash_holds : validate_slash toy slash.payload prefix one_validator ≡ true
unfolding validate_slash validate_fields evidence_holds find_tx find_in conflicting_attestations
    slash_fields slash_signing_bytes make_slash approve_slash is_attestation attestation_fields
    is_hex_text make_attestation Transaction.sign Transaction.hash Transaction.signing_bytes
    Transaction.signable_content Transaction.verify_signature Crypto.verify Crypto.sign
    Crypto.public_hex quorum_size
slash_holds = refl

validate_slash-IsProven_example :
    (fs : Fields) × (slash.payload ≡ dict fs) × IsProven toy fs prefix one_validator
validate_slash-IsProven_example =
    validate_slash-IsProven toy slash.payload prefix one_validator slash_holds

abbrev abstention : Transaction
abstention = attest "eve" none

abbrev three_validators : List String
three_validators = "pub-u" ∷ "pub-v" ∷ "pub-w" ∷ []

-- only `pub-v` has signed
abbrev lone_approval : Fields
lone_approval = Fields.field "pub-v" (str "pub-vm") end

abbrev seasoned : ReputationRegistry
seasoned = record { weights = ("alice", ("rust", pos 100) ∷ []) ∷ [] }

abbrev promotion : Transaction
promotion =
    make_promotion "alice" "rust"
      (approve_promotion toy "u" "alice" "rust"
        ∷ approve_promotion toy "v" "alice" "rust"
        ∷ approve_promotion toy "w" "alice" "rust"
        ∷ [])
      (float "1.0")

promotion_holds : promotion_ok toy promotion.payload three_validators seasoned 0 ≡ true
unfolding promotion_ok promotion_gates promotion_fields promotion_signing_bytes make_promotion
    approve_promotion weight quorum_size Crypto.verify Crypto.sign Crypto.public_hex
promotion_holds = refl

abbrev lone_promotion : Fields
lone_promotion = Fields.field "type" (str "promotion") (
    Fields.field "candidate" (str "alice")
      (Fields.field "domain" (str "rust") (Fields.field "approvals" (dict lone_approval) end)))

lone_signer :
    (message v : String) → Signed toy message v lone_approval → elem v ("pub-v" ∷ []) ≡ true
lone_signer message v s = elim s [
  | inl signed ↦ ap (λ (x : String). elem x ("pub-v" ∷ [])) signed.0
  | inr nobody ↦ elim nobody [ ]
]

promotion-needs_quorum_example :
    promotion_ok toy (dict lone_promotion) three_validators seasoned 0 ≡ false
promotion-needs_quorum_example =
    promotion-needs_quorum toy lone_promotion three_validators ("pub-v" ∷ []) seasoned 0
      (λ v h s. lone_signer (promotion_message toy lone_promotion) v s) (omega arith) (omega arith)

-- a certificate that credits `eve`
abbrev certified : Fields
certified = Fields.field "type" (str "certificate") (
    Fields.field "subject" (str "alice") (
      Fields.field "domain" (str "rust") (
        Fields.field "granted_by" (list (cons (str "pub-eve") nil))
          (Fields.field "submission_tx_hash" (str "ab") end))))

abbrev certificate : Transaction
certificate = record {
  sender = "certifier";
  payload = dict certified;
  timestamp = float "1.0";
  signature = none;
}

abbrev slashed_chain : List Block
slashed_chain =
    block_of 0 [] ∷ block_of 1 (yes ∷ no ∷ certificate ∷ []) ∷ block_of 2 (slash ∷ []) ∷ []

abbrev slashes : List Slashed
slashes = record { index = 2; offender = "pub-eve"; submissions = "ab" ∷ [] } ∷ []

slashes_collected : collect_slashes toy slashed_chain anchor slashed_chain ≡ some slashes
unfolding collect_slashes slashes_of block_slashes evidence_submissions derive_registry replay
    apply_block apply_transaction apply_fields credit_certificate consensus_validators credit
    put_weight weight new_registry authorities_in_domain validate_slash validate_fields
    evidence_holds find_tx find_in conflicting_attestations slash_fields slash_signing_bytes
    make_slash approve_slash is_attestation attestation_fields is_hex_text make_attestation
    Transaction.sign Transaction.hash Transaction.signing_bytes Transaction.signable_content
    Transaction.verify_signature Crypto.verify Crypto.sign Crypto.public_hex quorum_size
slashes_collected = refl

certificate_is_contested :
    status_of toy slashed_chain anchor slashes 1 certified ≡ some certificate_contested
unfolding status_of is_contested
certificate_is_contested = refl

status_of-IsContesting_example :
    (names : List Value) × (granted toy slashed_chain anchor certified ≡ some names)
    × IsContesting toy slashed_chain anchor 1 names (str "ab")
status_of-IsContesting_example =
    status_of-IsContesting toy slashed_chain anchor slashes 1 certified slashes_collected
      certificate_is_contested
