-- ===== src/Economy/Whole.antt =====
-- The whole of `derive_balances` (reputation/derive.py).
use hs_fob.Base.{
  ℕ, ◌≡◌, refl, Bool, true, false, Option, none, some, List, [], ◌∷◌, ◌++◌, String, string_eq,
  if◌then◌else◌, leb, take,
}
use mathlib.Core.Path.{subst}
use mathlib.Core.Option.{some-injective}
use hs_fob.Base.Int.{ℤ}
use hs_fob.Base.Dict.{Dict}
use hs_fob.Base.Sets.{Distinct}
use hs_fob.Crypto.{Platform}
use hs_fob.Transaction.{Transaction}
use hs_fob.Block.{Block}
use hs_fob.Balances.{new_ledger, locked}
use hs_fob.Registry.{Weights}
use hs_fob.Derive.{derive_registry}
use hs_fob.Tally.{all_transactions}
use hs_fob.Economy.{Economy, settle_all, settle_blocks, derive_balances, default_endowment}
use hs_fob.Economy.Backing.{IsBacked, bonded}
use hs_fob.Economy.Steps.Runs.{hashes, AllAbsent, settle_all-IsBacked}

module _ (p : Platform) where
  none_open : (txs : List Transaction) (s : Economy) → s.open_bonds ≡ [] → AllAbsent p txs s
  none_open [] s e = tt
  none_open (tx ∷ txs) s e = (rw e refl, none_open txs s e)

  Distinct-append_right :
      (txs rest : List Transaction) → Distinct (hashes p (txs ++ rest)) → Distinct (hashes p rest)
  Distinct-append_right [] rest d = d
  Distinct-append_right (tx ∷ txs) rest d = Distinct-append_right txs rest d.1

  settle_blocks-IsBacked :
      (chain : List Block) (genesis : Weights) (limit : ℕ) (s : Economy) (blocks : List Block)
      {t : Economy}
      → Distinct (hashes p (all_transactions blocks))
      → AllAbsent p (all_transactions blocks) s
      → IsBacked s
      → settle_blocks p chain genesis limit s blocks ≡ some t
      → IsBacked t
  unfolding settle_blocks
  settle_blocks-IsBacked chain genesis limit s [] d a k e = subst IsBacked (some-injective _ _ e) k
  settle_blocks-IsBacked chain genesis limit s (b ∷ blocks) {t} d a k e =
      stop (leb limit b.index)
        (λ s' a' k' q.
          settle_blocks-IsBacked chain genesis limit s' blocks
            (Distinct-append_right b.transactions (all_transactions blocks) d) a' k' q)
        e
    where
      next :
          (o : Option Economy)
          → settle_all p
              (derive_registry p chain b.index genesis)
              (take b.index chain)
              s
              b.transactions
            ≡ o
          → ((s' : Economy)
              → AllAbsent p (all_transactions blocks) s'
              → IsBacked s'
              → settle_blocks p chain genesis limit s' blocks ≡ some t
              → IsBacked t)
          → elim o [ none ↦ none | some s' ↦ settle_blocks p chain genesis limit s' blocks ]
            ≡ some t
          → IsBacked t
      next none ran rest q = absurd (cc)
      next (some s') ran rest q =
          let (k', a') =
            settle_all-IsBacked p (derive_registry p chain b.index genesis) (take b.index chain) s
              b.transactions (all_transactions blocks) d a k ran in
          rest s' a' k' q

      stop :
          (z : Bool)
          → ((s' : Economy)
              → AllAbsent p (all_transactions blocks) s'
              → IsBacked s'
              → settle_blocks p chain genesis limit s' blocks ≡ some t
              → IsBacked t)
          → (if z
              then some s
              else elim (settle_all p
                  (derive_registry p chain b.index genesis)
                  (take b.index chain)
                  s
                  b.transactions) [
                    | none ↦ none
                    | some s' ↦ settle_blocks p chain genesis limit s' blocks
                  ])
            ≡ some t
          → IsBacked t
      stop true rest q = subst IsBacked (some-injective _ _ q) k
      stop false rest q =
          next
            (settle_all p (derive_registry p chain b.index genesis) (take b.index chain) s
              b.transactions)
            refl rest q

  -- No token is locked without a bond, and no bond without its tokens. Over a chain in which no
  -- transaction hash occurs twice, whatever heights and events are replayed, what `derive_balances`
  -- has locked for an account is the sum of the stakes of that account's open bonds.
  pub derive_balances-IsBacked :
      (chain : List Block) (upto_index : ℕ) (endowments : Dict String ℤ) (genesis : Weights)
      (pk : String) {t : Economy}
      → Distinct (hashes p (all_transactions chain))
      → derive_balances p chain upto_index endowments genesis ≡ some t
      → locked t.ledger pk ≡ bonded pk t.open_bonds
  unfolding derive_balances new_ledger locked
  derive_balances-IsBacked chain upto_index endowments genesis pk {t} d e =
      (settle_blocks-IsBacked chain genesis upto_index start chain d
          (none_open (all_transactions chain) start refl) start-IsBacked e).at
        pk
    where
      start : Economy
      start = record { ledger = new_ledger endowments default_endowment; open_bonds = [] }

      start-IsBacked : IsBacked start
      start-IsBacked = record { at = λ x. refl; stakes = tt }
