-- ===== src/Balances/Solvency.antt =====
-- The invariant of the ledger (reputation/balances.py): nobody has more locked than they own.
use hs_fob.Base.{
  ◌≡◌, refl, inl, inr, Bool, true, false, String, string_eq, ◌==◌, if◌then◌else◌, arith, eq_iff,
  Bool-cases, ==-refl, ◌∙◌,
}
use hs_fob.Base.Int.{ℤ, pos, ◌+ℤ◌, ◌-ℤ◌, max0, ◌≤ℤ◌, int_laws}
use hs_fob.Balances.{BalanceLedger, total, locked, free, reward, lock, release, burn}
use hs_fob.Balances.Accounts.{
  total-reward, locked-reward, total-lock, locked-lock, total-release, locked-release, total-burn,
  locked-burn,
}

-- For this account: no bond is negative, and the bonds are covered by the total.
abbrev pub IsSolventAt : BalanceLedger → String → Type 0
IsSolventAt l pk = (pos 0 ≤ℤ locked l pk) × (locked l pk ≤ℤ total l pk)

-- so for every account
pub record IsSolvent (l : BalanceLedger) : Type 0 where
  pub at : (pk : String) → IsSolventAt l pk

max0_floor : (a b : ℤ) → a ≤ℤ b → (pos 0 ≤ℤ max0 a) × (max0 a ≤ℤ max0 b)
max0_floor (pos a) (pos b) h = omega arith
max0_floor (pos a) (ℤ.negsuc b) h = omega arith
max0_floor (ℤ.negsuc a) (pos b) h = omega arith
max0_floor (ℤ.negsuc a) (ℤ.negsuc b) h = omega arith

max0_le : (a b : ℤ) → pos 0 ≤ℤ b → a ≤ℤ b → max0 a ≤ℤ b
max0_le (pos a) b p h = h
max0_le (ℤ.negsuc a) b p h = p

pub max0_id : (a : ℤ) → pos 0 ≤ℤ a → max0 a ≡ a
max0_id (pos a) h = refl
max0_id (ℤ.negsuc a) h = absurd (omega arith)

-- a bond that is no debt and is covered
abbrev Covered : ℤ → ℤ → Type 0
Covered t k = (pos 0 ≤ℤ k) × (k ≤ℤ t)

if_same : (f : String → ℤ) (x pk : String) → f x ≡ (if x == pk then f pk else f x)
if_same f x pk = ground (arith, eq_iff x pk)

-- An operation on one account keeps the invariant if it does so there.
spread :
    {l : BalanceLedger} (l' : BalanceLedger) (pk : String) (t k : ℤ)
    → IsSolvent l
    → Covered t k
    → ((x : String) → total l' x ≡ (if x == pk then t else total l x))
    → ((x : String) → locked l' x ≡ (if x == pk then k else locked l x))
    → IsSolvent l'
spread {l} l' pk t k s own ts ks = record {
  at = λ x. rw (ts x, ks x) (choose (x == pk) t (total l x) k (locked l x) own (s.at x));
}
  where
    choose :
        (b : Bool) (t t' k k' : ℤ)
        → Covered t k
        → Covered t' k'
        → Covered (if b then t else t') (if b then k else k')
    choose true t t' k k' h h' = h
    choose false t t' k k' h h' = h'

module _ {l : BalanceLedger} (s : IsSolvent l) (pk : String) (amount : ℤ)
    (positive : pos 0 ≤ℤ amount) where
  -- A reward that is not negative keeps every bond covered by its owner's total, and none negative.
  pub reward-IsSolvent : IsSolvent (reward l pk amount)
  reward-IsSolvent =
      spread (reward l pk amount) pk _ (locked l pk) s ((s.at pk).0, omega (int_laws, (s.at pk).1))
        (λ x. total-reward l pk x amount)
        (λ x. locked-reward l pk x amount ∙ if_same (locked l) x pk)

  -- Locking an amount that is not negative and that the free balance covers keeps every bond covered by
  -- its owner's total, and none negative.
  pub lock-IsSolvent : amount ≤ℤ free l pk → IsSolvent (lock l pk amount)
  unfolding free
  lock-IsSolvent covered =
      spread (lock l pk amount) pk (total l pk) _ s
        (omega (int_laws, (s.at pk).0), omega (int_laws, s.at pk))
        (λ x. total-lock l pk x amount ∙ if_same (total l) x pk) (λ x. locked-lock l pk x amount)

  -- Releasing an amount that is not negative keeps every bond covered by its owner's total, and none
  -- negative, even if less than the amount is locked.
  pub release-IsSolvent : IsSolvent (release l pk amount)
  release-IsSolvent =
      let lower : locked l pk -ℤ amount ≤ℤ locked l pk = omega int_laws in
      let floor = max0_floor (locked l pk -ℤ amount) (locked l pk) lower in
      spread (release l pk amount) pk (total l pk) _ s
        (
          floor.0,
          max0_le (locked l pk -ℤ amount) (total l pk) (omega (int_laws, s.at pk))
              (omega (int_laws, (s.at pk).1)),
        )
        (λ x. total-release l pk x amount ∙ if_same (total l) x pk)
        (λ x. locked-release l pk x amount)

  -- Burning an amount that is not negative keeps every bond covered by its owner's total, and none
  -- negative, even if less than the amount is locked.
  pub burn-IsSolvent : IsSolvent (burn l pk amount)
  burn-IsSolvent =
      spread (burn l pk amount) pk _ _ s
        (max0_floor (locked l pk -ℤ amount) (total l pk -ℤ amount) (omega (int_laws, (s.at pk).1)))
        (λ x. total-burn l pk x amount) (λ x. locked-burn l pk x amount)

  -- In a ledger whose bonds are all covered, burning an amount that is locked makes the loss final: the total falls by it and so does what is
  -- locked, while no free balance changes, not even the owner's.
  pub burn_lem :
      amount ≤ℤ locked l pk
      → (total (burn l pk amount) pk ≡ total l pk -ℤ amount)
        × (locked (burn l pk amount) pk ≡ locked l pk -ℤ amount)
        × ((x : String) → free (burn l pk amount) x ≡ free l x)
  unfolding free
  burn_lem posted = (
    total-burn l pk pk amount
        ∙ rw (==-refl pk) (max0_id (total l pk -ℤ amount) (omega (int_laws, (s.at pk).1))),
    locked-burn l pk pk amount ∙ rw (==-refl pk) (max0_id (locked l pk -ℤ amount) (omega int_laws)),
    λ x. elim (Bool-cases (x == pk)) [
      | inl same ↦
          rw
            (
              total-burn l pk x amount,
              locked-burn l pk x amount,
              same,
              max0_id (total l pk -ℤ amount) (omega (int_laws, (s.at pk).1)),
              max0_id (locked l pk -ℤ amount) (omega int_laws),
              (eq_iff x pk).0 same,
            )
            (omega int_laws)
      | inr other ↦ rw (total-burn l pk x amount, locked-burn l pk x amount, other)
    ],
  )

  -- In a ledger whose bonds are all covered, a bond that is posted and then released leaves the total and
  -- the locked amount of every account as they were.
  pub release-lock :
      (x : String)
      → (total (release (lock l pk amount) pk amount) x ≡ total l x)
        × (locked (release (lock l pk amount) pk amount) x ≡ locked l x)
  release-lock x = (
    total-release (lock l pk amount) pk x amount ∙ total-lock l pk x amount,
    locked-release (lock l pk amount) pk x amount
        ∙ rw
            (
              locked-lock l pk x amount,
              locked-lock l pk pk amount,
              ==-refl pk,
              max0_id (locked l pk +ℤ amount -ℤ amount) (omega (int_laws, (s.at pk).0)),
            )
            (back x (x == pk) refl),
  )
    where
      back :
          (y : String) (b : Bool)
          → (y == pk) ≡ b
          → (if b
              then locked l pk +ℤ amount -ℤ amount
              else (if b then locked l pk +ℤ amount else locked l y))
            ≡ locked l y
      back y true e = rw ((eq_iff y pk).0 e) (omega int_laws)
      back y false e = refl
