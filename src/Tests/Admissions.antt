-- ===== src/Tests/Admissions.antt =====
-- Examples for presentations and the admission of transactions.
use hs_fob.Base.{
  ◌≡◌, refl, Bool, true, false, Option, none, some, List, [], ◌∷◌, String, ◌⊎◌, arith, ◌==◌,
  string_eq,
}
use hs_fob.Base.Int.{ℤ, pos}
use hs_fob.Values.{Fields, null, str, list, dict, field, end, of_texts, float}
use hs_fob.Transaction
use hs_fob.Transaction.{Transaction}
use hs_fob.Attestation.{make_attestation}
use hs_fob.Chain.{new_chain, add_transaction}
use hs_fob.Community.{AttestationCommunity, already_seen}
use hs_fob.Community.Steps.{started}
use hs_fob.Community.Admission.{on_transaction, broadcast_transaction, transaction_rejection}
use hs_fob.Community.Pooled.{IsAdmissible, on_transaction-admits, on_transaction-again}
use hs_fob.Bridge.Submit.{
  Bridge, status, submit_transaction, spend_challenge, pool_new, pooled, stale_challenge,
}
use hs_fob.Bridge.Replay.{submit_transaction-once}
use hs_fob.Credentials.Challenges.{consume, purge}
use hs_fob.Credentials.Checks.{ok}
use hs_fob.Credentials.Issue.{unsigned, proof_options, append_field}
use hs_fob.Credentials.Presentation.{verify_presentation}
use hs_fob.Credentials.Entitled.{IsEntitled, verify_presentation-IsEntitled}
use hs_fob.Tests.Reviewers.{office, stamps, authority_did, holder, holder_did}

-- what the authority issues to the holder for "rust"
abbrev proof : Fields
proof =
    append_field "proofValue"
      (str
        "zTfv22j5V5gcoMpdk2NBRkmKiEat5Uxf2fqLPUKz9UJkusgsSGi6zp48mruQnRFYbFPBcsV2NDdh1qn1KmPwc9Ku")
      (proof_options "5"
        "did:key:z6MkgkW6TV5nSgbAraLxWj45jrnw7yRhK3bEgtaEpCVPKYkR#z6MkgkW6TV5nSgbAraLxWj45jrnw7yRhK3bEgtaEpCVPKYkR")

abbrev credential : Fields
credential =
    append_field "proof" (dict proof)
      (unsigned authority_did holder_did "5" "5" (list (of_texts ("rust" ∷ []))))

-- and what the holder presents of it
abbrev presented : Fields
presented = field "credential" (dict credential) (
    field "challenge" (str "challenge") (
      field "challenge_signature"
        (str
          "0e000000000000000000000000000000000000000000000000000000000000000000000000000000000000000000000000000000000000000000000000000000")
        end))

presented_ok :
    verify_presentation office (authority_did ∷ []) (pos 5) (dict presented) holder "rust" ≡ ok tt
unfolding verify_presentation hs_fob.Credentials.Verify.verify_credential
    hs_fob.Did.Keys.did_key_to_public_hex hs_fob.Did.Keys.did_key_to_public_key
    hs_fob.Did.Base58.b58decode hs_fob.Did.Base58.decode_chars hs_fob.Did.Base58.read_number
    hs_fob.Did.Base58.index hs_fob.Did.Base58.body_bytes hs_fob.Credentials.Dates.parse_iso
    hs_fob.Credentials.Dates.to_utc hs_fob.Credentials.Presentation.check_possession
    hs_fob.Credentials.Presentation.pop_signing_bytes hs_fob.Credentials.Verify.check_issuer
    hs_fob.Credentials.Verify.check_proof hs_fob.Credentials.Verify.check_shape
    hs_fob.Credentials.Verify.check_subject hs_fob.Credentials.Verify.check_window
    hs_fob.Credentials.Verify.credential_domains hs_fob.Credentials.Verify.credential_subject_did
    hs_fob.Credentials.Verify.credential_signing_bytes hs_fob.Crypto.verify
    hs_fob.Did.Base58.bit_length hs_fob.Did.Base58.bits hs_fob.Did.Base58.to_bytes
    hs_fob.Did.Hex.to_hex hs_fob.Did.Keys.did_key_verification_method
    hs_fob.Did.Keys.multibase_decode hs_fob.Jcs.canonicalize hs_fob.Jcs.sort_key
presented_ok = refl

verify_presentation-IsEntitled_example :
    IsEntitled office (authority_did ∷ []) (pos 5) presented holder "rust"
verify_presentation-IsEntitled_example =
    verify_presentation-IsEntitled office (authority_did ∷ []) (pos 5) presented holder "rust"
      presented_ok

abbrev review : Transaction
review =
    Transaction.sign stamps holder
      (make_attestation holder "alice" "root" (pos 0) (some true) (pos 3) "ab" "rust" (float "1.0"))

abbrev node : AttestationCommunity
node = started (new_chain [] ((holder, pos 50) ∷ [])) "v"

abbrev after_review : AttestationCommunity
after_review = record node { blockchain = add_transaction node.blockchain review }

review_pooled :
    on_transaction office (authority_did ∷ []) node (some (review, dict presented)) (pos 5)
    ≡ some after_review
unfolding on_transaction transaction_rejection hs_fob.Attestation.is_attestation
    hs_fob.Attestation.attestation_fields hs_fob.Attestation.is_hex_text make_attestation
    Transaction.sign Transaction.is_signed Transaction.verify_signature Transaction.signing_bytes
    hs_fob.Crypto.verify hs_fob.Crypto.sign hs_fob.Did.Hex.to_hex hs_fob.Economy.derive_balances
    hs_fob.Economy.settle_blocks hs_fob.Economy.settle_all hs_fob.Balances.new_ledger
    hs_fob.Balances.free hs_fob.Balances.total hs_fob.Balances.locked hs_fob.Base.Int.◌-ℤ◌
    already_seen Transaction.hash
review_pooled = rw (on_transaction, transaction_rejection, presented_ok) refl

-- without a presentation it is not pooled
review_dropped :
    on_transaction office (authority_did ∷ []) node (some (review, null)) (pos 5) ≡ some node
unfolding on_transaction transaction_rejection hs_fob.Attestation.is_attestation
    hs_fob.Attestation.attestation_fields hs_fob.Attestation.is_hex_text make_attestation
    Transaction.sign Transaction.is_signed Transaction.verify_signature Transaction.signing_bytes
    hs_fob.Crypto.verify hs_fob.Crypto.sign hs_fob.Did.Hex.to_hex verify_presentation
review_dropped = refl

on_transaction-admits_example :
    (after_review ≡ node)
    ⊎ ((after_review ≡ record node { blockchain = add_transaction node.blockchain review })
        × (already_seen stamps node review ≡ false)
        × IsAdmissible office (authority_did ∷ []) node review (dict presented) (pos 5))
on_transaction-admits_example =
    on_transaction-admits office (authority_did ∷ []) node after_review review (dict presented)
      (pos 5) review_pooled

on_transaction-again_example :
    on_transaction office (authority_did ∷ []) after_review (some (review, dict presented)) (pos 5)
    ≡ some after_review
on_transaction-again_example =
    on_transaction-again office (authority_did ∷ []) node after_review
      (some (review, dict presented)) (pos 5) review_pooled

-- over HTTP, the challenge admits it once
abbrev bridge : Bridge
bridge = record {
  community = node;
  challenges = record { ttl = 300; issued = ("challenge", 300) ∷ [] };
}

abbrev after_submit : Bridge
after_submit = record {
  community =
      (broadcast_transaction office (authority_did ∷ []) after_review review (dict presented) 2).0;
  challenges = record { ttl = 300; issued = [] };
}

review_submitted :
    submit_transaction office
      (authority_did ∷ [])
      bridge
      (some (review, dict presented))
      (pos 5)
      10
      2
    ≡ some (after_submit, pooled review 2)
unfolding submit_transaction spend_challenge pool_new broadcast_transaction consume purge
    on_transaction transaction_rejection hs_fob.Attestation.is_attestation
    hs_fob.Attestation.attestation_fields hs_fob.Attestation.is_hex_text make_attestation
    Transaction.sign Transaction.is_signed Transaction.verify_signature Transaction.signing_bytes
    hs_fob.Crypto.verify hs_fob.Crypto.sign hs_fob.Did.Hex.to_hex hs_fob.Economy.derive_balances
    hs_fob.Economy.settle_blocks hs_fob.Economy.settle_all hs_fob.Balances.new_ledger
    hs_fob.Balances.free hs_fob.Balances.total hs_fob.Balances.locked hs_fob.Base.Int.◌-ℤ◌
    already_seen Transaction.hash
review_submitted = rw (submit_transaction, transaction_rejection, presented_ok) refl

review_resubmitted :
    submit_transaction office
      (authority_did ∷ [])
      after_submit
      (some (review, dict presented))
      (pos 5)
      20
      2
    ≡ some (after_submit, stale_challenge)
unfolding submit_transaction spend_challenge pool_new broadcast_transaction consume purge
    on_transaction transaction_rejection hs_fob.Attestation.is_attestation
    hs_fob.Attestation.attestation_fields hs_fob.Attestation.is_hex_text make_attestation
    Transaction.sign Transaction.is_signed Transaction.verify_signature Transaction.signing_bytes
    hs_fob.Crypto.verify hs_fob.Crypto.sign hs_fob.Did.Hex.to_hex hs_fob.Economy.derive_balances
    hs_fob.Economy.settle_blocks hs_fob.Economy.settle_all hs_fob.Balances.new_ledger
    hs_fob.Balances.free hs_fob.Balances.total hs_fob.Balances.locked hs_fob.Base.Int.◌-ℤ◌
    already_seen Transaction.hash
review_resubmitted = rw (submit_transaction, transaction_rejection, presented_ok) refl

submit_transaction-once_example :
    (status stale_challenge ≡ 400) × (after_submit.community ≡ after_submit.community)
unfolding hs_fob.Attestation.is_attestation hs_fob.Attestation.attestation_fields
    hs_fob.Attestation.is_hex_text make_attestation Transaction.sign
submit_transaction-once_example =
    submit_transaction-once office (authority_did ∷ []) bridge after_submit after_submit review
      review (dict presented) (dict presented) "challenge" (pos 5) (pos 5) 10 20 2 2
      (pooled review 2) stale_challenge refl refl refl refl (omega arith) review_submitted refl
      review_resubmitted
