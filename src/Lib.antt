-- ===== src/Lib.antt =====
-- hs_fob: an append-only chain of signed transactions on which participants attest each other's work,
-- earn reputation and tokens, lose them to slashes, and become validators. This library models the
-- chain's data, the rules that read it, and the two states that every node derives from it.
--
-- The parts, each with the file that models it and the code that it follows:
--
--   Base, Values      lists, dicts, sets, signed integers; JSON values as Python holds them
--   Crypto            crypto/keys.py: public_hex, sign, verify
--   Merkle            blockchain/merkle.py: MerkleTree, MerkleProof, verify
--   Transaction       blockchain/transaction.py: Transaction
--   Block             blockchain/block.py: Block, its header, hash and votes
--   Consensus         blockchain/blockchain.py: quorum_size, scheduled_proposer
--   Promotion         blockchain/promotion.py and Blockchain._promotion_ok
--   Attestation       attestation/attestation.py: make_attestation, is_attestation, is_abstain
--   Balances          reputation/balances.py: BalanceLedger
--   Registry          reputation/registry.py: ReputationRegistry
--   Slashing          reputation/slashing.py: make_slash, is_slash, validate_slash
--   Tally             reputation/tally.py: positive_attesters, attester_clusters, capped_support
--   Derive            reputation/derive.py: derive_registry
--   Economy           reputation/derive.py: derive_balances
--   Chain             blockchain/blockchain.py: Blockchain, validator_set, is_final
--   Chain.Choice      blockchain/blockchain.py: _fork_choice_rank, and replace_chain once its candidate
--                     has been validated
--   TxSigning         blockchain/tx_signing.py: requires_signature
--   Submission        attestation/submission.py: make_submission, is_submission
--   Certificate       attestation/aggregator.py: certify, validate_certificate, certificate_id,
--                     certificate_statuses
--   Validity          blockchain/blockchain.py: is_valid_chain, replace_chain
--   Rubric            attestation/rubric.py: Rubric
--   Wire              network/wire.py: the encoders, and the decoders of votes and presentations
--   Did               crypto/did.py: base58btc, multibase texts, did:key identifiers
--   Jcs               credentials/jcs.py: canonicalize
--   Credentials       credentials/vc.py: issue_reviewer_credential, verify_credential;
--                     credentials/presentation.py: verify_presentation, ChallengeStore
--   Community         network/community.py: AttestationCommunity, its proposals, votes and handlers,
--                     and in Community.Admission which transactions it pools
--   Bridge            network/http_bridge.py: submit_transaction, produce_block, and the JSON of the
--                     chain, the pool, the consensus, the state and the submissions
--   Tests             examples: each theorem at concrete input
--
-- A node keeps a list of blocks. Every other state is derived: `derive_registry` replays certificates
-- and slashes over the blocks before a height into a ReputationRegistry, whose authorities in the domain
-- "consensus" judge the slashes of the next block; `derive_balances` replays attestations, certificates
-- and slashes into a BalanceLedger and the bonds that are open. Slashes and promotions count approvals
-- against the quorum of Consensus; so do the commits that make a block final. Blocks commit to their
-- transactions by a Merkle root. `validator_set` adds to the consensus authorities whom the promotions
-- in the blocks before a height have made validators, and fork choice ranks chains by what is final.
--
-- A method that changes an object in place is a function from the object to the object. An exception is
-- `none`. A dict is an association list with one entry per key, in insertion order; a set is a list
-- without repetitions. A function keeps the source's name where it has one there; a helper stands beside
-- the function whose loop body or condition it is.
--
-- SHA-256, Ed25519, the canonical JSON encoder and hex decoding are not part of the repository. They are
-- the fields of `Crypto.Platform`, or the parameter `sha256` of Merkle. What is assumed of them is named
-- where it is used: `IsCorrect` (a signature verifies under its own key), digests of 64 characters, and
-- `NoCollision` on the texts that are hashed in the case at hand.
--
-- Integers are unbounded, as in Python, so nothing wraps. Heights and list positions are natural numbers.
-- Some loops are on fuel. `build_from` halves a Merkle level each round and is given as many rounds as
-- there are leaves. `find` follows a chain of parents, each of another attester, and is given as many
-- rounds as there are attesters. The loops of base58 and of `bit_length` divide a number until it is
-- zero and are given the number itself as fuel.
--
-- Where the source would store a weight under a key that is no text, or raise, because a certificate on
-- the chain has no subject or domain or one that is no text, `derive_registry` gives `none`.
--
-- `is_valid_chain` replays all of this block by block: it judges each block by the registry, the ledger
-- and the validators that the blocks before it imply, and carries along which certificates it has seen
-- and whom promotions have made validators. Where the source raises in the middle of that, on a payload
-- of the wrong shape, the model refuses the chain.
--
-- A node (Community) keeps a chain, the view-change votes it has recorded, the heights at which it has
-- moved on, and the blocks it has announced as final. A handler is a function from the node and the
-- decoded message to the node, with what it sends in order; `none` is an exception, and Community.Left
-- has the node that it leaves half-way. Whether `is_valid_chain` returns False or raises on a block is an
-- argument of `try_append_block`: a block that it raises on stays in the chain. Community.Steps has the
-- runs of a node as a relation, exceptions included. A block object that the code shares with the chain and changes in
-- place is replaced in the chain.
--
-- A check of a credential goes on, refuses for one of the reasons of `Refusal`, or raises, which the
-- source does on some documents. `Credentials.Verify.Office` holds what stands below: the platform, the
-- JSON text of a string or a number, the reading and writing of dates, and the text that stands for a
-- digest's bytes as a message. The time of a check is an argument.
--
-- The HTTP bridge adds to a node the challenges that it has handed out. A request's body comes in as
-- network/wire.py decodes it, and a reply keeps what its JSON is made of.
--
-- Not modelled: the decoders of transactions and blocks; of the HTTP bridge the list of peers, the
-- server and its sockets, and the routes that issue credentials and challenges or run scenarios and
-- benchmarks; and everything that only prints, measures or starts processes.
pub mod Base
pub mod Merkle
pub mod Values
pub mod Crypto
pub mod Transaction
pub mod Attestation
pub mod Consensus
pub mod Balances
pub mod Registry
pub mod Block
pub mod Slashing
pub mod Promotion
pub mod Tally
pub mod Derive
pub mod Economy
pub mod Chain
pub mod TxSigning
pub mod Did
pub mod Jcs
pub mod Credentials
pub mod Submission
pub mod Certificate
pub mod Validity
pub mod Rubric
pub mod Community
pub mod Wire
pub mod Bridge
pub mod Tests
