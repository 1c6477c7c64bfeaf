-- ===== src/Tests/Chains.antt =====
-- Examples for what is derived from a chain.
use hs_fob.Base.{◌≡◌, refl, true, Option, some, List, [], ◌∷◌, ◌++◌, String, string_eq, arith}
use hs_fob.Base.Int.{◌+ℤ◌, pos}
use hs_fob.Base.Sets.{elem}
use hs_fob.Values.{str, dict, float, end, field}
use hs_fob.Transaction.{Transaction}
use hs_fob.Attestation.{fields}
use hs_fob.Block.{Block}
use hs_fob.Registry.{ReputationRegistry, Weights, weight}
use hs_fob.Derive.{derive_registry, apply_block, consensus_validators}
use hs_fob.Derive.Authority.{certificates-make-validator}
use hs_fob.Derive.Prefix.{derive_registry-prefix}
use hs_fob.Chain.{validator_set}
use hs_fob.Chain.Prefix.{validator_set-prefix}
use hs_fob.Tests.{toy, block_of}

abbrev certificate : String → String → Transaction
certificate subject domain = record {
  sender = subject;
  payload = dict (
      field "type" (str "certificate")
        (field "subject" (str subject) (field "domain" (str domain) end)));
  timestamp = float "1.0";
  signature = Option.none;
}

abbrev shared : List Block
shared = block_of 0 [] ∷ block_of 1 (certificate "alice" "rust" ∷ []) ∷ []

derive_registry-prefix_example :
    derive_registry toy (shared ++ block_of 2 [] ∷ []) 2 []
    ≡ derive_registry toy (shared ++ block_of 2 (certificate "bob" "consensus" ∷ []) ∷ []) 2 []
derive_registry-prefix_example =
    derive_registry-prefix toy shared (block_of 2 [] ∷ [])
      (block_of 2 (certificate "bob" "consensus" ∷ []) ∷ []) [] (refl, (refl, (refl, tt)))
      (refl, (refl, (refl, tt)))

abbrev nobody : ReputationRegistry
nobody = record { weights = [] }

abbrev bob : Transaction
bob = certificate "bob" "consensus"

certificates-make-validator_example :
    (r' : ReputationRegistry) × (apply_block toy nobody (bob ∷ bob ∷ bob ∷ bob ∷ bob ∷ []) [] []
      ≡ some r')
    × (elem "bob" (consensus_validators r') ≡ true)
unfolding weight ◌+ℤ◌
certificates-make-validator_example =
    certificates-make-validator toy nobody (bob ∷ bob ∷ bob ∷ bob ∷ bob ∷ []) [] [] "bob" tt
      (
        (fields bob, refl, refl, refl, refl),
        (
          (fields bob, refl, refl, refl, refl),
          (
            (fields bob, refl, refl, refl, refl),
            ((fields bob, refl, refl, refl, refl), ((fields bob, refl, refl, refl, refl), tt)),
          ),
        ),
      )
      (omega arith)

abbrev anchored : Weights
anchored = ("pub-v", ("consensus", pos 50) ∷ []) ∷ []

validator_set-prefix_example :
    validator_set toy (shared ++ block_of 2 [] ∷ []) anchored 2
    ≡ validator_set toy (shared ++ block_of 2 (certificate "bob" "consensus" ∷ []) ∷ []) anchored 2
validator_set-prefix_example =
    validator_set-prefix toy shared (block_of 2 [] ∷ [])
      (block_of 2 (certificate "bob" "consensus" ∷ []) ∷ []) anchored (refl, (refl, (refl, tt)))
      (refl, (refl, (refl, tt)))
