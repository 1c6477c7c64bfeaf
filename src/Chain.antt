-- ===== src/Chain.antt =====
-- blockchain/blockchain.py: the chain that a node holds, its validators, finality, and fork choice.
-- `none` is an exception: a certificate that cannot be replayed (see Derive), or a height past the end.
pub mod Prefix
pub mod Finality
pub mod Choice
pub mod Kept
pub mod Alike
pub mod Order
use hs_fob.Base.{
  ℕ, zero, suc, ◌+◌, ◌-◌, Bool, true, false, ◌&&◌, ◌||◌, not, Option, none, some, List, [], ◌∷◌,
  ◌++◌, map, String, string_eq, nat_eq, ◌==◌, if◌then◌else◌, ltb, leb, length, get_elem?, last_or,
  keep,
}
use hs_fob.Base.Int.{ℤ, pos}
use hs_fob.Base.Dict.{Dict, insert}
use hs_fob.Base.Sets.{elem, add, union, inter}
use hs_fob.Base.Order.{text_less}
use hs_fob.Values.{Value, int, float, text_at}
use hs_fob.Crypto.{Platform}
use hs_fob.Transaction
use hs_fob.Transaction.{Transaction}
use hs_fob.Attestation.{fields}
use hs_fob.Block
use hs_fob.Block.{Block, commit_signers, sign_as_producer}
use hs_fob.Registry.{Weights, ReputationRegistry}
use hs_fob.Consensus.{quorum_size, scheduled_proposer}
use hs_fob.Derive.{consensus_validators, derive_registry}
use hs_fob.Slashing.{some_one}
use hs_fob.Promotion.{is_promotion, promotion_ok, promotion_window}

-- `Blockchain`: the two anchors, the blocks and the pool of pending transactions
pub record Blockchain : Type 0 where
  pub genesis : Weights
  pub endowments : Dict String ℤ
  pub blocks : List Block
  pub mempool : List Transaction

-- `GENESIS_PREVIOUS_HASH`, and `_create_genesis_block`
abbrev pub genesis_previous_hash : String
genesis_previous_hash = "0000000000000000000000000000000000000000000000000000000000000000"

abbrev pub genesis_block : Block
genesis_block = record {
  index = 0;
  previous_hash = genesis_previous_hash;
  transactions = [];
  timestamp = float "0.0";
  view = int (pos 0);
  producer = "";
  producer_signature = none;
  commit_signatures = [];
  view_change_messages = [];
}

-- `__init__`
abbrev pub new_chain : Weights → Dict String ℤ → Blockchain
new_chain genesis endowments = record {
  genesis = genesis;
  endowments = endowments;
  blocks = genesis_block ∷ [];
  mempool = [];
}

-- `last_block`; a chain has its genesis block at least
abbrev pub last_block : Blockchain → Block
last_block c = last_or genesis_block c.blocks

-- `add_transaction`
abbrev pub add_transaction : Blockchain → Transaction → Blockchain
add_transaction c tx = record c { mempool = c.mempool ++ tx ∷ [] }

-- The variables of `_replay_promotions`: `promoted`, `effect_indices`, and `current`.
pub record Promotions : Type 0 where
  pub promoted : List String
  pub effect_indices : List ℕ
  pub current : List String

-- `sum(1 for idx in effect_indices if idx > j - PROMOTION_WINDOW)`
abbrev pub fresh_at : ℕ → List ℕ → ℕ
fresh_at j indices = length (keep (λ i. ltb j (i + promotion_window)) indices)

module _ (p : Platform) where
  -- signed, if there is a key
  abbrev pub produced : Option String → Block → Block
  produced none b = b
  produced (some key) b = sign_as_producer p key b

  -- `add_block`, where the clock gives the timestamp
  unfoldable pub add_block :
      Blockchain → Option String → Value → Dict String String → Value → Blockchain × Block
  add_block c producer_key view view_change_messages now =
      let packed : Block = record {
        index = length c.blocks;
        previous_hash = Block.hash p (last_block c);
        transactions = c.mempool;
        timestamp = now;
        view = view;
        producer = "";
        producer_signature = none;
        commit_signatures = [];
        view_change_messages = view_change_messages;
      } in
      let block = produced producer_key packed in
      (record c { blocks = c.blocks ++ block ∷ []; mempool = [] }, block)

  -- the body of the inner loop of `_replay_promotions`, for a transaction of block `j`
  unfoldable pub apply_promotion : ReputationRegistry → ℕ → Promotions → Transaction → Promotions
  apply_promotion registry j s tx =
      let candidate = text_at "candidate" (fields tx) in
      if is_promotion tx.payload
        && promotion_ok p tx.payload s.current registry (fresh_at j s.effect_indices)
      then record {
        promoted = add candidate s.promoted;
        effect_indices = s.effect_indices ++ j ∷ [];
        current = add candidate s.current;
      }
      else s

  unfoldable pub apply_promotions :
      ReputationRegistry → ℕ → Promotions → List Transaction → Promotions
  unfolding apply_promotion
  apply_promotions registry j s [] = s
  apply_promotions registry j s (tx ∷ txs) =
      apply_promotions registry j (apply_promotion registry j s tx) txs

  -- one round of the outer loop, with the registry and the block that it looks up
  unfoldable pub promotion_round :
      ℕ → Promotions → Option ReputationRegistry → Option Block → Option Promotions
  unfolding apply_promotions
  promotion_round j s none block = none
  promotion_round j s (some registry) none = none
  promotion_round j s (some registry) (some b) = some (
      apply_promotions registry j
        (record s { current = union (consensus_validators registry) s.promoted }) b.transactions)

  -- the outer loop, from `j` for so many rounds
  unfoldable pub promotion_rounds : List Block → Weights → ℕ → ℕ → Promotions → Option Promotions
  unfolding promotion_round
  promotion_rounds blocks genesis zero j s = some s
  promotion_rounds blocks genesis (suc rounds) j s =
      elim (promotion_round j s (derive_registry p blocks j genesis) (get_elem? blocks j)) [
        | none ↦ none
        | some s' ↦ promotion_rounds blocks genesis rounds (suc j) s'
      ]

  -- `_replay_promotions`
  unfoldable pub replay_promotions : List Block → Weights → ℕ → Option (List String)
  unfolding promotion_rounds
  replay_promotions blocks genesis upto_index =
      elim (promotion_rounds blocks genesis (upto_index - 1) 1
        (record { promoted = []; effect_indices = []; current = [] })) [
          | none ↦ none
          | some s ↦ some s.promoted
        ]

  -- `validator_set`
  unfoldable pub validator_set : List Block → Weights → ℕ → Option (List String)
  validator_set blocks genesis upto_index = elim (derive_registry p blocks upto_index genesis) [
    | none ↦ none
    | some registry ↦ elim (replay_promotions blocks genesis upto_index) [
      | none ↦ none
      | some promoted ↦ some (union (consensus_validators registry) promoted)
    ]
  ]

  -- `proposer_for`; the outer option is an exception, the inner one an empty set of validators
  unfoldable pub proposer_for : Blockchain → ℕ → ℕ → Option (Option String)
  proposer_for c height view = elim (validator_set c.blocks c.genesis height) [
    | none ↦ none
    | some validators ↦ some (scheduled_proposer validators height view)
  ]

  -- the last lines of `is_final`
  unfoldable pub has_quorum : Block → List String → Bool
  has_quorum b validators =
      some_one p validators
      && leb (quorum_size (length validators)) (length (inter (commit_signers p b) validators))

  -- `is_final`
  unfoldable pub is_final : Blockchain → Block → Option Bool
  unfolding has_quorum
  is_final c b =
      if b.index == 0 then some true else elim (validator_set c.blocks c.genesis b.index) [
        | none ↦ none
        | some validators ↦ some (has_quorum b validators)
      ]

  -- the dict comprehension of `_finalized_blocks`, from the entries that are there
  unfoldable pub finalized_from : Blockchain → Dict ℕ String → List Block → Option (Dict ℕ String)
  unfolding is_final
  finalized_from c found [] = some found
  finalized_from c found (b ∷ blocks) = elim (is_final c b) [
    | none ↦ none
    | some final ↦
        finalized_from c (if final then insert b.index (Block.hash p b) found else found) blocks
  ]

  -- `_finalized_blocks`
  unfoldable pub finalized_blocks : Blockchain → Option (Dict ℕ String)
  unfolding finalized_from
  finalized_blocks c = finalized_from c [] c.blocks

  -- the generator of `_finalized_height`
  unfoldable pub highest_final : Blockchain → List Block → Option ℕ
  highest_final c [] = some 0
  highest_final c (b ∷ blocks) = elim (is_final c b) [
    | none ↦ none
    | some final ↦ elim (highest_final c blocks) [
      | none ↦ none
      | some height ↦ some (if final && ltb height b.index then b.index else height)
    ]
  ]

  -- `_finalized_height`
  unfoldable pub finalized_height : Blockchain → Option ℕ
  finalized_height c = highest_final c c.blocks

  -- `_tip_commit_weight`
  unfoldable pub tip_commit_weight : Blockchain → Option ℕ
  tip_commit_weight c =
      let tip = last_block c in
      if tip.index == 0 then some 0 else elim (validator_set c.blocks c.genesis tip.index) [
        | none ↦ none
        | some validators ↦ some (length (inter (commit_signers p tip) validators))
      ]

  -- the loop of `_reverts_our_finality` over the blocks that are final here
  unfoldable pub reverts : Dict ℕ String → List Block → Bool
  reverts [] candidate = false
  reverts ((index, finalized_hash) ∷ found) candidate = elim (get_elem? candidate index) [
    | none ↦ true
    | some b ↦ if Block.hash p b == finalized_hash then reverts found candidate else true
  ]
