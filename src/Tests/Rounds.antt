-- ===== src/Tests/Rounds.antt =====
-- Examples for the commit round.
use hs_fob.Base.{◌≡◌, refl, true, some, [], ◌∷◌, get_elem?, String, string_eq}
use hs_fob.Crypto
use hs_fob.Block.{Block, hash, signing_bytes}
use hs_fob.Chain.{genesis_block, is_final, validator_set}
use hs_fob.Community.{AttestationCommunity, apply_commit, with_blocks}
use hs_fob.Community.Steps.{started}
use hs_fob.Community.Final.{apply_commit-keeps_final}
use hs_fob.Tests.{toy}
use hs_fob.Tests.Forks.{chain_of}
use hs_fob.Tests.Valid.{next, after_next}

abbrev node : AttestationCommunity
node = started (chain_of (genesis_block ∷ next ∷ after_next ∷ [])) "w"

abbrev commit : String
commit = Crypto.sign toy "v" (signing_bytes toy after_next)

abbrev node_after : AttestationCommunity
node_after =
    record (with_blocks
      (genesis_block ∷ next ∷ record after_next { commit_signatures = ("pub-v", commit) ∷ [] } ∷ [])
      node) { finalized_announced = hash toy after_next ∷ [] }

tip_committed : apply_commit toy node (hash toy after_next) "pub-v" commit ≡ some (node_after, true)
unfolding hs_fob.Community.apply_commit hs_fob.Community.note_if_finalized hs_fob.Chain.is_final
    hs_fob.Chain.has_quorum hs_fob.Block.hash hs_fob.Block.signing_bytes hs_fob.Block.header
    hs_fob.Block.merkle_root hs_fob.Merkle.root hs_fob.Merkle.build_levels
    hs_fob.Block.add_commit_signature hs_fob.Block.sign_as_producer hs_fob.Crypto.sign
    hs_fob.Crypto.public_hex hs_fob.Crypto.verify hs_fob.Block.commit_signers
    hs_fob.Chain.validator_set hs_fob.Derive.derive_registry hs_fob.Derive.replay
    hs_fob.Derive.apply_block hs_fob.Registry.new_registry hs_fob.Chain.replay_promotions
    hs_fob.Chain.promotion_rounds hs_fob.Chain.promotion_round hs_fob.Chain.apply_promotions
    hs_fob.Derive.consensus_validators hs_fob.Registry.authorities_in_domain
    hs_fob.Consensus.quorum_size
tip_committed = refl

next-is_final : is_final toy node.blockchain next ≡ some true
unfolding hs_fob.Chain.is_final hs_fob.Chain.has_quorum hs_fob.Block.hash hs_fob.Block.signing_bytes
    hs_fob.Block.header hs_fob.Block.merkle_root hs_fob.Merkle.root hs_fob.Merkle.build_levels
    hs_fob.Block.add_commit_signature hs_fob.Block.sign_as_producer hs_fob.Crypto.sign
    hs_fob.Crypto.public_hex hs_fob.Crypto.verify hs_fob.Block.commit_signers
    hs_fob.Chain.validator_set hs_fob.Derive.derive_registry hs_fob.Derive.replay
    hs_fob.Derive.apply_block hs_fob.Registry.new_registry hs_fob.Chain.replay_promotions
    hs_fob.Chain.promotion_rounds hs_fob.Chain.promotion_round hs_fob.Chain.apply_promotions
    hs_fob.Derive.consensus_validators hs_fob.Registry.authorities_in_domain
    hs_fob.Consensus.quorum_size
next-is_final = refl

apply_commit-keeps_final_example :
    (x' : Block) × (get_elem? node_after.blockchain.blocks 1 ≡ some x')
    × (hash toy x' ≡ hash toy next)
    × (is_final toy node_after.blockchain x' ≡ some true)
apply_commit-keeps_final_example =
    apply_commit-keeps_final toy node node_after (hash toy after_next) "pub-v" commit 1 next
      tip_committed refl next-is_final

-- the same chain without and with the commit on its first block
