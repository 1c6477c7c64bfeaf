-- ===== src/Consensus.antt =====
-- blockchain/blockchain.py: the quorum rule and the proposer schedule, the two formulas that block
-- validity, finality, promotions, slashes and view changes share.
pub mod Quorum
pub mod Schedule
use hs_fob.Base.{
  ℕ, ◌+◌, ◌*◌, ◌/◌, ◌%◌, Option, none, List, [], ◌∷◌, String, length, get_elem?, string_eq,
}
use hs_fob.Base.Order.{sorted, string_ord}

-- `quorum_size`
unfoldable pub quorum_size : ℕ → ℕ
quorum_size n = 2 * n / 3 + 1

-- `scheduled_proposer`, over the set of validators in any order
unfoldable pub scheduled_proposer : List String → ℕ → ℕ → Option String
scheduled_proposer [] height view = none
scheduled_proposer (v ∷ vs) height view =
    let ordered = sorted (v ∷ vs) in get_elem? ordered ((height + view) % length ordered)
