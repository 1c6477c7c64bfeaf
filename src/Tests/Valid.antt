-- ===== src/Tests/Valid.antt =====
-- Examples for valid chains and their replacement.
use hs_fob.Base.{◌≡◌, refl, true, false, some, [], ◌∷◌, get_elem?, string_eq}
use hs_fob.Base.Sets.{Distinct}
use hs_fob.Block.{Block, sign_as_producer, add_commit_signature, hash}
use hs_fob.Chain.{Blockchain, genesis_block, is_final, replay_promotions}
use hs_fob.Validity.{start, validated, is_valid_chain, replace_chain}
use hs_fob.Validity.Blocks.{IsProperAt, valid-IsProper, validated-replay_promotions}
use hs_fob.Validity.Certificates.{certificates_in, valid-certificates_once}
use hs_fob.Validity.Adopt.{replace_chain-valid, replace_chain-keeps_final}
use hs_fob.Tests.{toy, block_of}
use hs_fob.Tests.Forks.{chain_of}

abbrev pub next : Block
next =
    add_commit_signature toy "v"
      (sign_as_producer toy "v" (record (block_of 1 []) { previous_hash = hash toy genesis_block }))

abbrev pub after_next : Block
after_next = sign_as_producer toy "v" (record (block_of 2 []) { previous_hash = hash toy next })

abbrev short : Blockchain
short = chain_of (genesis_block ∷ next ∷ [])

short-validated : validated toy short short.blocks ≡ some start
unfolding hs_fob.Validity.validated hs_fob.Validity.accept_blocks hs_fob.Validity.accept_block
    hs_fob.Validity.links hs_fob.Validity.header_ok hs_fob.Validity.is_justified
    hs_fob.Validity.accept_all hs_fob.Block.verify_producer_signature
    hs_fob.Consensus.scheduled_proposer hs_fob.Economy.derive_balances hs_fob.Balances.new_ledger
    hs_fob.Block.hash hs_fob.Block.signing_bytes hs_fob.Block.header hs_fob.Block.merkle_root
    hs_fob.Merkle.root hs_fob.Merkle.build_levels hs_fob.Block.add_commit_signature
    hs_fob.Block.sign_as_producer hs_fob.Crypto.sign hs_fob.Crypto.public_hex hs_fob.Crypto.verify
    hs_fob.Block.commit_signers hs_fob.Chain.validator_set hs_fob.Derive.derive_registry
    hs_fob.Derive.replay hs_fob.Derive.apply_block hs_fob.Registry.new_registry
    hs_fob.Chain.replay_promotions hs_fob.Chain.promotion_rounds hs_fob.Chain.promotion_round
    hs_fob.Chain.apply_promotions hs_fob.Derive.consensus_validators
    hs_fob.Registry.authorities_in_domain hs_fob.Consensus.quorum_size
short-validated = refl

short_valid : is_valid_chain toy short ≡ true
unfolding hs_fob.Validity.is_valid_chain hs_fob.Validity.validated hs_fob.Validity.accept_blocks
    hs_fob.Validity.accept_block hs_fob.Validity.links hs_fob.Validity.header_ok
    hs_fob.Validity.is_justified hs_fob.Validity.accept_all hs_fob.Block.verify_producer_signature
    hs_fob.Consensus.scheduled_proposer hs_fob.Economy.derive_balances hs_fob.Balances.new_ledger
    hs_fob.Block.hash hs_fob.Block.signing_bytes hs_fob.Block.header hs_fob.Block.merkle_root
    hs_fob.Merkle.root hs_fob.Merkle.build_levels hs_fob.Block.add_commit_signature
    hs_fob.Block.sign_as_producer hs_fob.Crypto.sign hs_fob.Crypto.public_hex hs_fob.Crypto.verify
    hs_fob.Block.commit_signers hs_fob.Chain.validator_set hs_fob.Derive.derive_registry
    hs_fob.Derive.replay hs_fob.Derive.apply_block hs_fob.Registry.new_registry
    hs_fob.Chain.replay_promotions hs_fob.Chain.promotion_rounds hs_fob.Chain.promotion_round
    hs_fob.Chain.apply_promotions hs_fob.Derive.consensus_validators
    hs_fob.Registry.authorities_in_domain hs_fob.Consensus.quorum_size
short_valid = refl

next_final : is_final toy short next ≡ some true
unfolding hs_fob.Chain.is_final hs_fob.Chain.has_quorum hs_fob.Block.hash hs_fob.Block.signing_bytes
    hs_fob.Block.header hs_fob.Block.merkle_root hs_fob.Merkle.root hs_fob.Merkle.build_levels
    hs_fob.Block.add_commit_signature hs_fob.Block.sign_as_producer hs_fob.Crypto.sign
    hs_fob.Crypto.public_hex hs_fob.Crypto.verify hs_fob.Block.commit_signers
    hs_fob.Chain.validator_set hs_fob.Derive.derive_registry hs_fob.Derive.replay
    hs_fob.Derive.apply_block hs_fob.Registry.new_registry hs_fob.Chain.replay_promotions
    hs_fob.Chain.promotion_rounds hs_fob.Chain.promotion_round hs_fob.Chain.apply_promotions
    hs_fob.Derive.consensus_validators hs_fob.Registry.authorities_in_domain
    hs_fob.Consensus.quorum_size
next_final = refl

valid-IsProper_example : IsProperAt toy short 1 genesis_block next
valid-IsProper_example = valid-IsProper toy short 0 genesis_block next short_valid refl refl

validated-replay_promotions_example : replay_promotions toy short.blocks short.genesis 2 ≡ some []
validated-replay_promotions_example = validated-replay_promotions toy short short-validated

valid-certificates_once_example : Distinct (certificates_in toy (next ∷ []))
valid-certificates_once_example =
    valid-certificates_once toy short genesis_block (next ∷ []) refl short_valid

reverting_refused : (replace_chain toy short (genesis_block ∷ [])).1 ≡ false
unfolding hs_fob.Validity.is_valid_chain hs_fob.Validity.replace_chain hs_fob.Chain.Choice.preferred
    hs_fob.Chain.Choice.reverts_our_finality hs_fob.Chain.finalized_blocks
    hs_fob.Chain.finalized_from hs_fob.Chain.reverts hs_fob.Chain.is_final hs_fob.Chain.has_quorum
    hs_fob.Validity.validated hs_fob.Validity.accept_blocks hs_fob.Validity.accept_block
    hs_fob.Validity.links hs_fob.Validity.header_ok hs_fob.Validity.is_justified
    hs_fob.Validity.accept_all hs_fob.Block.verify_producer_signature
    hs_fob.Consensus.scheduled_proposer hs_fob.Economy.derive_balances hs_fob.Balances.new_ledger
    hs_fob.Block.hash hs_fob.Block.signing_bytes hs_fob.Block.header hs_fob.Block.merkle_root
    hs_fob.Merkle.root hs_fob.Merkle.build_levels hs_fob.Block.add_commit_signature
    hs_fob.Block.sign_as_producer hs_fob.Crypto.sign hs_fob.Crypto.public_hex hs_fob.Crypto.verify
    hs_fob.Block.commit_signers hs_fob.Chain.validator_set hs_fob.Derive.derive_registry
    hs_fob.Derive.replay hs_fob.Derive.apply_block hs_fob.Registry.new_registry
    hs_fob.Chain.replay_promotions hs_fob.Chain.promotion_rounds hs_fob.Chain.promotion_round
    hs_fob.Chain.apply_promotions hs_fob.Derive.consensus_validators
    hs_fob.Registry.authorities_in_domain hs_fob.Consensus.quorum_size
reverting_refused = refl

replace_chain-valid_example :
    is_valid_chain toy (replace_chain toy short (genesis_block ∷ next ∷ after_next ∷ [])).0 ≡ true
replace_chain-valid_example =
    replace_chain-valid toy short (genesis_block ∷ next ∷ after_next ∷ []) short_valid

replace_chain-keeps_final_example :
    (b' : Block) × (get_elem?
        (replace_chain toy short (genesis_block ∷ next ∷ after_next ∷ [])).0.blocks
        1
      ≡ some b')
    × (hash toy b' ≡ hash toy next)
unfolding add_commit_signature sign_as_producer
replace_chain-keeps_final_example =
    replace_chain-keeps_final toy short (genesis_block ∷ next ∷ after_next ∷ []) 1 next
      (refl, (refl, tt)) refl next_final
