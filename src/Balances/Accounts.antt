-- ===== src/Balances/Accounts.antt =====
-- What each operation of the ledger (reputation/balances.py) does to every account.
use hs_fob.Base.{◌≡◌, refl, String, string_eq, ◌==◌, if◌then◌else◌}
use hs_fob.Base.Int.{ℤ, pos, ◌+ℤ◌, ◌-ℤ◌, max0}
use hs_fob.Base.Dict.{lookup_or-insert}
use hs_fob.Balances.{BalanceLedger, total, locked, reward, lock, release, burn}

module _ (l : BalanceLedger) (pubkey other : String) (amount : ℤ) where
  -- A reward raises the total of its account, and no bond.
  pub total-reward :
      total (reward l pubkey amount) other
      ≡ (if other == pubkey then total l pubkey +ℤ amount else total l other)
  unfolding total reward
  total-reward = lookup_or-insert l.baseline pubkey other (total l pubkey +ℤ amount) l.totals

  pub locked-reward : locked (reward l pubkey amount) other ≡ locked l other
  unfolding locked reward
  locked-reward = refl

  pub total-lock : total (lock l pubkey amount) other ≡ total l other
  unfolding total lock
  total-lock = refl

  pub locked-lock :
      locked (lock l pubkey amount) other
      ≡ (if other == pubkey then locked l pubkey +ℤ amount else locked l other)
  unfolding locked lock
  locked-lock = lookup_or-insert (pos 0) pubkey other (locked l pubkey +ℤ amount) l.bonds

  pub total-release : total (release l pubkey amount) other ≡ total l other
  unfolding total release
  total-release = refl

  pub locked-release :
      locked (release l pubkey amount) other
      ≡ (if other == pubkey then max0 (locked l pubkey -ℤ amount) else locked l other)
  unfolding locked release
  locked-release = lookup_or-insert (pos 0) pubkey other (max0 (locked l pubkey -ℤ amount)) l.bonds

  pub total-burn :
      total (burn l pubkey amount) other
      ≡ (if other == pubkey then max0 (total l pubkey -ℤ amount) else total l other)
  unfolding total burn
  total-burn = lookup_or-insert l.baseline pubkey other (max0 (total l pubkey -ℤ amount)) l.totals

  pub locked-burn :
      locked (burn l pubkey amount) other
      ≡ (if other == pubkey then max0 (locked l pubkey -ℤ amount) else locked l other)
  unfolding locked burn
  locked-burn = lookup_or-insert (pos 0) pubkey other (max0 (locked l pubkey -ℤ amount)) l.bonds
