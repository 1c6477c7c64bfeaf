-- ===== src/Tests/Bonds.antt =====
-- Examples for the derived balances.
use hs_fob.Base.{◌≡◌, refl, true, false, none, some, List, [], ◌∷◌, string_eq}
use hs_fob.Base.Int.{pos, ◌+ℤ◌, ◌-ℤ◌}
use hs_fob.Values.{str, list, dict, float, cons, nil, end, field}
use hs_fob.Transaction
use hs_fob.Transaction.{Transaction}
use hs_fob.Block.{Block}
use hs_fob.Attestation.{make_attestation, is_attestation, attestation_fields, is_abstain}
use hs_fob.Balances.{new_ledger, locked, total, lock, release, reward}
use hs_fob.Economy.{
  Economy, bond_of, derive_balances, settle_blocks, settle_all, settle, settle_fields, post_bond,
  release_for_certificate, release_attesters, release_attester, contributes, pop_all, pop_release,
}
use hs_fob.Economy.Backing.{bonded}
use hs_fob.Economy.Whole.{derive_balances-IsBacked}
use hs_fob.Tests.{toy, attest, block_of}

abbrev certificate : Transaction
certificate = record {
  sender = "protocol";
  payload = dict (
      field "type" (str "certificate") (
        field "subject" (str "alice") (
          field "rubric_root" (str "root") (
            field "domain" (str "rust") (
              field "submission_tx_hash" (str "ab")
                (field "granted_by" (list (cons (str "pub-r") nil)) end))))));
  timestamp = float "2.0";
  signature = none;
}

-- r and q attest, and only r's attestation earns a certificate
abbrev chain : List Block
chain =
    block_of 0 []
    ∷ block_of 1 (attest "r" (some true) ∷ attest "q" (some false) ∷ [])
    ∷ block_of 2 (certificate ∷ [])
    ∷ []

abbrev settled : Economy
settled = record {
  ledger = record {
    totals = ("pub-r", pos 1005) ∷ [];
    bonds = ("pub-r", pos 0) ∷ ("pub-q", pos 3) ∷ [];
    baseline = pos 1000;
  };
  open_bonds =
      (Transaction.hash toy (attest "q" (some false)), bond_of (attest "q" (some false))) ∷ [];
}

chain_settles : derive_balances toy chain 3 [] [] ≡ some settled
unfolding derive_balances settle_blocks settle_all settle settle_fields post_bond
    release_for_certificate release_attesters release_attester contributes pop_all pop_release
    new_ledger lock release reward locked total is_attestation Transaction.sign make_attestation
    attestation_fields is_abstain Transaction.hash Transaction.signing_bytes
    Transaction.signable_content ◌+ℤ◌ ◌-ℤ◌
chain_settles = refl

derive_balances-IsBacked_example : locked settled.ledger "pub-q" ≡ bonded "pub-q" settled.open_bonds
unfolding make_attestation Transaction.sign Transaction.hash Transaction.signing_bytes
    Transaction.signable_content
derive_balances-IsBacked_example =
    derive_balances-IsBacked toy chain 3 [] [] "pub-q" (refl, (refl, (refl, tt))) chain_settles

-- The same attestation in two blocks: its stake is locked twice, for one open bond.
abbrev replayed : List Block
replayed =
    block_of 0 []
    ∷ block_of 1 (attest "r" (some true) ∷ [])
    ∷ block_of 2 (attest "r" (some true) ∷ [])
    ∷ []

abbrev locked_twice : Economy
locked_twice = record {
  ledger = record { totals = []; bonds = ("pub-r", pos 6) ∷ []; baseline = pos 1000 };
  open_bonds =
      (Transaction.hash toy (attest "r" (some true)), bond_of (attest "r" (some true))) ∷ [];
}

replayed_locks_twice : derive_balances toy replayed 3 [] [] ≡ some locked_twice
unfolding derive_balances settle_blocks settle_all settle post_bond new_ledger lock locked
    is_attestation Transaction.sign make_attestation attestation_fields is_abstain ◌+ℤ◌
    Transaction.hash Transaction.signing_bytes Transaction.signable_content
replayed_locks_twice = refl
