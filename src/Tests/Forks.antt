-- ===== src/Tests/Forks.antt =====
-- Examples for finality and fork choice.
use hs_fob.Base.{
  ◌≡◌, ◌≢◌, refl, true, some, List, [], ◌∷◌, String, string_eq, arith, get_elem?, eq_iff,
}
use hs_fob.Base.Int.{pos}
use hs_fob.Merkle.{root, build_levels}
use hs_fob.Crypto
use hs_fob.Block.{
  Block, add_commit_signature, commit_signers, hash, signing_bytes, header, merkle_root,
}
use hs_fob.Registry.{Weights, new_registry, authorities_in_domain}
use hs_fob.Consensus.{quorum_size}
use hs_fob.Derive.{derive_registry, replay, apply_block, consensus_validators}
use hs_fob.Chain.{
  Blockchain, genesis_block, is_final, has_quorum, validator_set, replay_promotions,
  promotion_rounds, promotion_round, apply_promotions, finalized_blocks, finalized_from,
  finalized_height, highest_final, tip_commit_weight, reverts,
}
use hs_fob.Chain.Choice.{
  Rank, rank_less, rank_eq, outranks, preferred, reverts_our_finality, fork_choice_rank, ranked,
}
use hs_fob.Chain.Finality.{final_agree}
use hs_fob.Chain.Kept.{preferred-keeps_final}
use hs_fob.Tests.{toy, block_of}

abbrev pub anchor : Weights
anchor = ("pub-v", ("consensus", pos 50) ∷ []) ∷ []

abbrev committed : Block
committed = add_commit_signature toy "v" (block_of 1 [])

-- with a second commit, by someone who is no validator
abbrev committed_twice : Block
committed_twice = add_commit_signature toy "x" committed

abbrev pub chain_of : List Block → Blockchain
chain_of blocks = record { genesis = anchor; endowments = []; blocks = blocks; mempool = [] }

abbrev ours : Blockchain
ours = chain_of (genesis_block ∷ committed ∷ [])

abbrev theirs : Blockchain
theirs = chain_of (genesis_block ∷ committed_twice ∷ block_of 2 [] ∷ [])

our_validators : validator_set toy ours.blocks anchor 1 ≡ some ("pub-v" ∷ [])
unfolding validator_set derive_registry replay apply_block new_registry replay_promotions
    promotion_rounds consensus_validators authorities_in_domain add_commit_signature
our_validators = refl

their_validators : validator_set toy theirs.blocks anchor 1 ≡ some ("pub-v" ∷ [])
unfolding validator_set derive_registry replay apply_block new_registry replay_promotions
    promotion_rounds consensus_validators authorities_in_domain add_commit_signature
their_validators = refl

ours_final : is_final toy ours committed ≡ some true
unfolding is_final has_quorum validator_set derive_registry replay apply_block new_registry
    replay_promotions promotion_rounds consensus_validators authorities_in_domain commit_signers
    quorum_size add_commit_signature Crypto.verify Crypto.sign Crypto.public_hex signing_bytes
    header merkle_root root build_levels
ours_final = refl

theirs_final : is_final toy theirs committed_twice ≡ some true
unfolding is_final has_quorum validator_set derive_registry replay apply_block new_registry
    replay_promotions promotion_rounds consensus_validators authorities_in_domain commit_signers
    quorum_size add_commit_signature Crypto.verify Crypto.sign Crypto.public_hex signing_bytes
    header merkle_root root build_levels
theirs_final = refl

final_agree_example : hash toy committed ≡ hash toy committed_twice
unfolding add_commit_signature Crypto.public_hex signing_bytes header merkle_root
final_agree_example =
    final_agree toy ours theirs committed committed_twice ("pub-v" ∷ []) [] (omega arith) refl
      our_validators their_validators (refl, tt) (refl, (refl, tt)) ours_final theirs_final
      (omega arith) (λ v good a b. refl)

candidate_wins : preferred toy ours theirs ≡ some true
unfolding preferred reverts_our_finality finalized_blocks finalized_from reverts ranked
    fork_choice_rank finalized_height highest_final tip_commit_weight outranks rank_less rank_eq
    is_final has_quorum validator_set derive_registry replay apply_block new_registry
    replay_promotions promotion_rounds promotion_round apply_promotions consensus_validators
    authorities_in_domain commit_signers quorum_size add_commit_signature Crypto.verify Crypto.sign
    Crypto.public_hex hash signing_bytes header merkle_root root build_levels
candidate_wins = refl

preferred-keeps_final_example :
    (b' : Block) × (get_elem? theirs.blocks 1 ≡ some b') × (hash toy b' ≡ hash toy committed)
unfolding add_commit_signature
preferred-keeps_final_example =
    preferred-keeps_final toy ours theirs 1 committed (refl, (refl, tt)) refl ours_final
      candidate_wins

abbrev low : Rank
low = record { height = 1; size = 9; tip_weight = 4 }

abbrev middle : Rank
middle = record { height = 2; size = 3; tip_weight = 0 }

abbrev high : Rank
high = record { height = 2; size = 3; tip_weight = 1 }

apart : ◌≢◌ {A = String} "a" "b"
apart e = cc ((eq_iff "a" "b").1 e)
