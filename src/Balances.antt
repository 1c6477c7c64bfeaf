-- ===== src/Balances.antt =====
-- reputation/balances.py: the token ledger. Amounts are Python integers, of either sign.
pub mod Accounts
pub mod Solvency
use hs_fob.Base.{ℕ, ◌≡◌, List, [], ◌∷◌, map, String, string_eq, ◌++◌}
use hs_fob.Base.Int.{ℤ, pos, ◌+ℤ◌, ◌-ℤ◌, max0}
use hs_fob.Base.Dict.{Dict, lookup_or, insert, keys}
use hs_fob.Base.Sets.{union}

-- `BalanceLedger`: `_total`, `_locked`, `_default`
pub record BalanceLedger : Type 0 where
  pub totals : Dict String ℤ
  pub bonds : Dict String ℤ
  pub baseline : ℤ

-- `__init__`, which owns a copy of the endowments
unfoldable pub new_ledger : Dict String ℤ → ℤ → BalanceLedger
new_ledger endowments baseline = record { totals = endowments; bonds = []; baseline = baseline }

-- `total`
unfoldable pub total : BalanceLedger → String → ℤ
total l pubkey = lookup_or l.baseline pubkey l.totals

-- `locked`
unfoldable pub locked : BalanceLedger → String → ℤ
locked l pubkey = lookup_or (pos 0) pubkey l.bonds

-- `free`
unfoldable pub free : BalanceLedger → String → ℤ
unfolding total locked
free l pubkey = total l pubkey -ℤ locked l pubkey

-- `reward`
unfoldable pub reward : BalanceLedger → String → ℤ → BalanceLedger
unfolding total
reward l pubkey amount = record l { totals = insert pubkey (total l pubkey +ℤ amount) l.totals }

-- `lock`
unfoldable pub lock : BalanceLedger → String → ℤ → BalanceLedger
unfolding locked
lock l pubkey amount = record l { bonds = insert pubkey (locked l pubkey +ℤ amount) l.bonds }

-- `release`
unfoldable pub release : BalanceLedger → String → ℤ → BalanceLedger
unfolding locked
release l pubkey amount = record l {
  bonds = insert pubkey (max0 (locked l pubkey -ℤ amount)) l.bonds;
}

-- `burn`
unfoldable pub burn : BalanceLedger → String → ℤ → BalanceLedger
unfolding total locked
burn l pubkey amount = record l {
  totals = insert pubkey (max0 (total l pubkey -ℤ amount)) l.totals;
  bonds = insert pubkey (max0 (locked l pubkey -ℤ amount)) l.bonds;
}

-- an entry of `snapshot`
pub record Account : Type 0 where
  pub owner : String
  pub total_tokens : ℤ
  pub locked_tokens : ℤ
  pub free_tokens : ℤ

-- `snapshot`
unfoldable pub snapshot : BalanceLedger → List Account
unfolding total locked free
snapshot l =
    map
      (λ pk. record {
        owner = pk;
        total_tokens = total l pk;
        locked_tokens = locked l pk;
        free_tokens = free l pk;
      })
      (union (keys l.totals) (keys l.bonds))
