-- ===== src/Chain/Choice.antt =====
-- Fork choice (blockchain/blockchain.py, `_fork_choice_rank` and the steps of `replace_chain` after the
-- candidate has been validated).
use hs_fob.Base.{
  ℕ, Bool, true, false, ◌&&◌, ◌||◌, not, Option, none, some, List, String, string_eq, nat_eq, ◌==◌,
  if◌then◌else◌, ltb, length, map, keep,
}
use hs_fob.Base.Sets.{elem}
use hs_fob.Base.Order.{text_less}
use hs_fob.Crypto.{Platform}
use hs_fob.Transaction
use hs_fob.Transaction.{Transaction}
use hs_fob.Block
use hs_fob.Block.{Block}
use hs_fob.Tally.{all_transactions}
use hs_fob.Chain.{
  Blockchain, last_block, finalized_blocks, finalized_height, tip_commit_weight, reverts,
}

-- the tuple of `_fork_choice_rank`
pub record Rank : Type 0 where
  pub height : ℕ
  pub size : ℕ
  pub tip_weight : ℕ

-- `<` and `==` on such tuples
unfoldable pub rank_less : Rank → Rank → Bool
rank_less r s =
    ltb r.height s.height
    || r.height == s.height
      && (ltb r.size s.size || r.size == s.size && ltb r.tip_weight s.tip_weight)

unfoldable pub rank_eq : Rank → Rank → Bool
rank_eq r s = r.height == s.height && r.size == s.size && r.tip_weight == s.tip_weight

-- step (3) of `replace_chain`: the candidate's rank and tip hash against ours
unfoldable pub outranks : Rank → String → Rank → String → Bool
unfolding rank_less rank_eq
outranks candidate_rank candidate_hash our_rank our_hash =
    if rank_less candidate_rank our_rank
    then false
    else if rank_eq candidate_rank our_rank
    then text_less candidate_hash our_hash
    else true

module _ (p : Platform) where
  -- `_fork_choice_rank`
  unfoldable pub fork_choice_rank : Blockchain → Option Rank
  fork_choice_rank c = elim (finalized_height p c) [
    | none ↦ none
    | some h ↦ elim (tip_commit_weight p c) [
      | none ↦ none
      | some w ↦ some (record { height = h; size = length c.blocks; tip_weight = w })
    ]
  ]

  -- `_reverts_our_finality`
  unfoldable pub reverts_our_finality : Blockchain → Blockchain → Option Bool
  reverts_our_finality ours candidate = elim (finalized_blocks p ours) [
    | none ↦ none
    | some found ↦ some (reverts p found candidate.blocks)
  ]

  -- step (3) of `replace_chain`
  unfoldable pub ranked : Blockchain → Blockchain → Option Bool
  ranked ours candidate = elim (fork_choice_rank candidate) [
    | none ↦ none
    | some candidate_rank ↦ elim (fork_choice_rank ours) [
      | none ↦ none
      | some our_rank ↦ some (
          outranks candidate_rank (Block.hash p (last_block candidate)) our_rank
            (Block.hash p (last_block ours)))
    ]
  ]

  -- steps (2) and (3) of `replace_chain`
  unfoldable pub preferred : Blockchain → Blockchain → Option Bool
  unfolding reverts_our_finality ranked
  preferred ours candidate = elim (reverts_our_finality ours candidate) [
    | none ↦ none
    | some true ↦ some false
    | some false ↦ ranked ours candidate
  ]

  -- the assignments at the end of `replace_chain`
  unfoldable pub adopt : Blockchain → List Block → Blockchain
  adopt ours candidate_blocks =
      let committed = map (Transaction.hash p) (all_transactions candidate_blocks) in
      record ours {
        blocks = candidate_blocks;
        mempool = keep (λ tx. not (elem (Transaction.hash p tx) committed)) ours.mempool;
      }
