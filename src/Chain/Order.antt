-- ===== src/Chain/Order.antt =====
-- Fork choice orders chains (blockchain/blockchain.py, `_fork_choice_rank`): two nodes cannot keep
-- swapping chains.
use hs_fob.Base.{◌≡◌, ◌≢◌, ◌⊎◌, inl, inr, true, false, Bool-cases, String, string_eq, nat_eq, arith}
use hs_fob.Base.Order.{text_less_irrefl, text_less_trans, text_less_total}
use hs_fob.Chain.Choice.{Rank, rank_less, rank_eq, outranks}

-- Of two chains at most one out-ranks the other.
pub outranks_asym : (r s : Rank) (h k : String) → outranks r h s k ≡ true → outranks s k r h ≡ false
unfolding outranks rank_less rank_eq
outranks_asym r s h k e = ground (arith, text_less_irrefl h, text_less_trans h k h)

-- Of two chains with different tips one out-ranks the other, whatever their ranks.
pub outranks_total :
    (r s : Rank) (h k : String) → h ≢ k → (outranks r h s k ≡ true) ⊎ (outranks s k r h ≡ true)
unfolding outranks rank_less rank_eq
outranks_total r s h k apart = elim (Bool-cases (outranks r h s k)) [
  | inl e ↦ inl e
  | inr e ↦ inr (ground (arith, text_less_total h k, apart))
]

-- A chain that out-ranks a second one, which out-ranks a third one, out-ranks the third one.
pub outranks_trans :
    (r s t : Rank) (h k l : String)
    → outranks r h s k ≡ true
    → outranks s k t l ≡ true
    → outranks r h t l ≡ true
unfolding outranks rank_less rank_eq
outranks_trans r s t h k l e f = ground (arith, text_less_trans h k l)
