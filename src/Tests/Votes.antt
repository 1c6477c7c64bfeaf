-- ===== src/Tests/Votes.antt =====
-- Examples for quorums, the proposer schedule, block signatures and attestations.
use hs_fob.Base.{ℕ, ◌≡◌, refl, ◌<◌, true, false, some, List, [], ◌∷◌, String, string_eq, arith}
use hs_fob.Base.Sets.{elem}
use hs_fob.Block.{Block}
use hs_fob.Consensus.{quorum_size, scheduled_proposer}
use hs_fob.Consensus.Quorum.{quorum-honest}
use hs_fob.Consensus.Schedule.{scheduled_proposer-rotates}
use hs_fob.Tests.{block_of}

abbrev four : List String
four = "a" ∷ "b" ∷ "c" ∷ "d" ∷ []

abbrev first_three : List String
first_three = "a" ∷ "b" ∷ "c" ∷ []

abbrev last_three : List String
last_three = "b" ∷ "c" ∷ "d" ∷ []

quorum_four : quorum_size 4 ≡ 3
unfolding quorum_size
quorum_four = refl

first_three-Subset : (v : String) → elem v first_three ≡ true → elem v four ≡ true
first_three-Subset v h = ground arith

last_three-Subset : (v : String) → elem v last_three ≡ true → elem v four ≡ true
last_three-Subset v h = ground arith

quorum-honest_example :
    (v : String) × (elem v first_three ≡ true)
    × (elem v last_three ≡ true)
    × (elem v ("b" ∷ []) ≡ false)
unfolding quorum_size
quorum-honest_example =
    quorum-honest four first_three last_three (refl, (refl, (refl, tt))) (refl, (refl, (refl, tt)))
      first_three-Subset last_three-Subset (omega arith) (omega arith) ("b" ∷ []) (omega arith)

schedule_runs : scheduled_proposer ("c" ∷ "a" ∷ "b" ∷ []) 4 1 ≡ some "c"
unfolding scheduled_proposer
schedule_runs = refl

scheduled_proposer-rotates_example :
    (view : ℕ) × (view < 3) × (scheduled_proposer ("c" ∷ "a" ∷ "b" ∷ []) 7 view ≡ some "a")
scheduled_proposer-rotates_example = scheduled_proposer-rotates ("c" ∷ "a" ∷ "b" ∷ []) 7 "a" refl

abbrev empty_block : Block
empty_block = block_of 1 []
