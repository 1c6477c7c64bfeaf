-- ===== src/Validity.antt =====
-- blockchain/blockchain.py, `is_valid_chain` and `replace_chain`: which chains a node accepts. The loops
-- are functions that give the variables after a round; `none` is `return False`, and the exceptions that
-- the source may raise on the way (see Derive, Certificate and TxSigning) refuse the chain as well.
pub mod Replay
pub mod Accepted
pub mod Blocks
pub mod Seen
pub mod Certificates
pub mod Adopt
use hs_fob.Base.{
  ℕ, zero, suc, Bool, true, false, ◌&&◌, not, Option, none, some, List, [], ◌∷◌, ◌++◌, String,
  string_eq, nat_eq, ◌==◌, if◌then◌else◌, leb, length, take, get_elem?,
}
use hs_fob.Base.Int.{ℤ, pos, negsuc, ◌+ℤ◌, ◌-ℤ◌, ltb_ℤ, leb_ℤ}
use hs_fob.Base.Dict.{Dict, lookup_or, insert, keys}
use hs_fob.Base.Sets.{elem, add, union, inter, minus}
use hs_fob.Values.{Value, int, dict, Fields, equals_str, field_is, text_at, int_at}
use hs_fob.Crypto.{Platform}
use hs_fob.Transaction
use hs_fob.Transaction.{Transaction, is_signed}
use hs_fob.Attestation.{is_attestation, fields}
use hs_fob.TxSigning.{requires_signature}
use hs_fob.Block
use hs_fob.Block.{Block, verify_producer_signature, commit_signers, view_change_signers}
use hs_fob.Registry.{Weights, ReputationRegistry}
use hs_fob.Balances.{BalanceLedger, free}
use hs_fob.Consensus.{quorum_size, scheduled_proposer}
use hs_fob.Derive.{certificate_type, consensus_validators, derive_registry}
use hs_fob.Economy.{Economy, derive_balances}
use hs_fob.Slashing.{is_slash, validate_slash, some_one}
use hs_fob.Promotion.{is_promotion, promotion_ok}
use hs_fob.Certificate.{certificate_id, validate_certificate}
use hs_fob.Chain.{Blockchain, genesis_block, fresh_at}
use hs_fob.Chain.Choice.{preferred, adopt}

-- what is carried from block to block: `seen_certificate_ids`, `promoted`, `effect_indices`
pub record Carried : Type 0 where
  pub seen : List String
  pub promoted : List String
  pub effect_indices : List ℕ

-- and within a block, beside it: `block_validators`, `block_locked`
pub record Within : Type 0 where
  pub carried : Carried
  pub block_validators : List String
  pub block_locked : Dict String ℤ

-- what a block is judged by: its index, the blocks before it, and what they imply
pub record Context : Type 0 where
  pub height : ℕ
  pub prefix : List Block
  pub registry : ReputationRegistry
  pub ledger : BalanceLedger

abbrev pub start : Carried
start = record { seen = []; promoted = []; effect_indices = [] }

abbrev pub is_certificate : Value → Bool
is_certificate (dict fs) = field_is (equals_str certificate_type) "type" fs
is_certificate _ = false

-- `block.view` as a number: no bool, an int, and not negative
abbrev pub view_number : Value → Option ℕ
view_number (int (pos v)) = some v
view_number _ = none

-- `block.producer == scheduled_proposer(validators, block.index, block.view)`
abbrev pub is_scheduled : Option String → String → Bool
is_scheduled none producer = false
is_scheduled (some v) producer = producer == v

abbrev pub is_empty : List String → Bool
is_empty [] = true
is_empty (x ∷ xs) = false

module _ (p : Platform) where
  abbrev pub is_authored : Transaction → Bool
  is_authored tx = is_signed tx && Transaction.verify_signature p tx

  -- the branch for a certificate
  unfoldable pub accept_certificate : Context → Within → Fields → Option Within
  accept_certificate c s fs =
      let cid = certificate_id p fs in
      if not (elem cid s.carried.seen) && validate_certificate p c.prefix c.registry fs
      then some (record s { carried = record s.carried { seen = add cid s.carried.seen } })
      else none

  -- the branch for a promotion
  unfoldable pub accept_promotion : Context → Within → Transaction → Option Within
  accept_promotion c s tx =
      let candidate = text_at "candidate" (fields tx) in
      if promotion_ok p tx.payload s.block_validators c.registry
        (fresh_at c.height s.carried.effect_indices)
      then some (record s {
        carried = record s.carried {
          promoted = add candidate s.carried.promoted;
          effect_indices = s.carried.effect_indices ++ c.height ∷ [];
        };
        block_validators = add candidate s.block_validators;
      })
      else none

  -- the branch for an attestation: the reviewer has signed it and can cover its stake
  unfoldable pub accept_attestation : Context → Within → Transaction → Option Within
  accept_attestation c s tx =
      let stake = int_at "stake" (fields tx) in
      let already = lookup_or (pos 0) tx.sender s.block_locked in
      if is_authored tx && leb_ℤ stake (free c.ledger tx.sender -ℤ already)
      then some (record s { block_locked = insert tx.sender (already +ℤ stake) s.block_locked })
      else none

  -- the last branch, for what is none of the other kinds
  abbrev pub accept_other : Within → Transaction → Option Bool → Option Within
  accept_other s tx (some true) = if is_authored tx then some s else none
  accept_other s tx _ = none

  -- the body of the inner loop
  unfoldable pub accept : Context → Within → Transaction → Option Within
  unfolding accept_certificate accept_promotion accept_attestation
  accept c s tx =
      if is_certificate tx.payload
      then accept_certificate c s (fields tx)
      else if is_promotion tx.payload
      then accept_promotion c s tx
      else if is_slash tx.payload
      then (if validate_slash p tx.payload c.prefix (consensus_validators c.registry)
          then some s
          else none)
      else if is_attestation tx
      then accept_attestation c s tx
      else accept_other s tx (requires_signature tx)

  unfoldable pub accept_all : Context → Within → List Transaction → Option Within
  unfolding accept
  accept_all c s [] = some s
  accept_all c s (tx ∷ txs) = elim (accept c s tx) [ none ↦ none | some s' ↦ accept_all c s' txs ]

  -- a view above 0 has the votes of a quorum behind it
  unfoldable pub is_justified : Block → List String → ℕ → Bool
  is_justified b validators zero = true
  is_justified b validators (suc v) =
      leb (quorum_size (length validators)) (length (inter (view_change_signers p b) validators))

  -- the schedule, the view change, and the claimed commits, against the validators of the prefix
  unfoldable pub header_ok : Block → List String → Bool
  unfolding is_justified
  header_ok b validators = elim (view_number b.view) [
    | none ↦ false
    | some v ↦
        is_scheduled (scheduled_proposer validators b.index v) b.producer
        && is_justified b validators v
        && is_empty (minus (keys b.commit_signatures) (commit_signers p b))
        && is_empty (minus (keys b.commit_signatures) validators)
  ]

  -- the tests that look at the block before it. The Merkle root of a block is computed from its
  -- transactions, so the source's comparison of the two holds.
  unfoldable pub links : ℕ → Block → Block → Bool
  links i previous b =
      b.index == i && b.previous_hash == Block.hash p previous && verify_producer_signature p b

  -- one round of the outer loop, with what the prefix implies
  unfoldable pub accept_block :
      List Block
      → ℕ
      → Carried
      → Block
      → Block
      → Option ReputationRegistry
      → Option Economy
      → Option Carried
  unfolding links header_ok accept_all
  accept_block blocks i s previous b (some registry) (some economy) =
      let validators = union (consensus_validators registry) s.promoted in
      let context : Context = record {
        height = i;
        prefix = take i blocks;
        registry = registry;
        ledger = economy.ledger;
      } in
      if links i previous b && header_ok b validators
      then elim (accept_all context
          (record { carried = s; block_validators = validators; block_locked = [] })
          b.transactions) [ none ↦ none | some s' ↦ some s'.carried ]
      else none
  accept_block blocks i s previous b registry economy = none

  -- the outer loop, from the block at `i`, whose predecessor is `previous`
  unfoldable pub accept_blocks :
      List Block → Weights → Dict String ℤ → ℕ → Carried → Block → List Block → Option Carried
  unfolding accept_block
  accept_blocks blocks genesis endowments i s previous [] = some s
  accept_blocks blocks genesis endowments i s previous (b ∷ rest) =
      elim (accept_block blocks i s previous b (derive_registry p blocks i genesis)
        (derive_balances p blocks i endowments genesis)) [
          | none ↦ none
          | some s' ↦ accept_blocks blocks genesis endowments (suc i) s' b rest
        ]

  -- all of it, with the variables at the end
  unfoldable pub validated : Blockchain → List Block → Option Carried
  unfolding accept_blocks
  validated c [] = none
  validated c (first ∷ rest) =
      if Block.hash p first == Block.hash p genesis_block
      then accept_blocks (first ∷ rest) c.genesis c.endowments 1 start first rest
      else none

  -- `is_valid_chain`
  unfoldable pub is_valid_chain : Blockchain → Bool
  unfolding validated
  is_valid_chain c = elim (validated c c.blocks) [ none ↦ false | some s ↦ true ]

  -- `replace_chain`, with the chain after it and what it returns
  unfoldable pub replace_chain : Blockchain → List Block → Blockchain × Bool
  replace_chain ours candidate_blocks =
      let candidate = record ours { blocks = candidate_blocks; mempool = [] } in
      if is_valid_chain candidate
      then elim (preferred p ours candidate) [
        | some true ↦ (adopt p ours candidate_blocks, true)
        | _ ↦ (ours, false)
      ]
      else (ours, false)
