-- ===== src/Tests/Ledgers.antt =====
-- Examples for the token ledger, the reputation registry and capped support.
use hs_fob.Base.{◌≢◌, eq_iff, some, true, List, [], ◌∷◌, String, string_eq, arith}
use hs_fob.Base.Int.{ℤ, pos}
use hs_fob.Balances.{BalanceLedger, total, locked}
use hs_fob.Balances.Solvency.{IsSolvent}
use hs_fob.Registry.{ReputationRegistry}
use hs_fob.Block.{Block}
use hs_fob.Tests.{block_of}
use hs_fob.Attestation.{make_attestation}
use hs_fob.Transaction.{Transaction}
use hs_fob.Values.{float}

abbrev ledger : BalanceLedger
ledger = record { totals = ("a", pos 20) ∷ []; bonds = ("a", pos 8) ∷ []; baseline = pos 10 }

ledger-IsSolvent : IsSolvent ledger
unfolding total locked
ledger-IsSolvent = record { at = λ pk. (ground arith, ground arith) }

abbrev registry : ReputationRegistry
registry = record {
  weights = ("a", ("rust", pos 60) ∷ []) ∷ ("b", ("consensus", pos 50) ∷ ("rust", pos 4) ∷ []) ∷ [];
}

apart : ◌≢◌ {A = String} "consensus" "rust"
apart e = cc ((eq_iff "consensus" "rust").1 e)

abbrev voters : List String
voters = "pub-x" ∷ "pub-y" ∷ []

abbrev weight_four : String → ℤ
weight_four x = pos 4

-- x and y vouch for each other
abbrev vouch : String → String → Transaction
vouch attester subject =
    make_attestation attester subject "root" (pos 0) (some true) (pos 1) "ab" "rust" (float "1.0")

abbrev chain : List Block
chain = block_of 0 (vouch "pub-x" "pub-y" ∷ vouch "pub-y" "pub-x" ∷ []) ∷ []
