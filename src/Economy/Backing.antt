-- ===== src/Economy/Backing.antt =====
-- What is bonded (reputation/derive.py, `derive_balances`): the open bonds of an account, added up, and
-- how adding and removing a bond changes the sum.
use hs_fob.Base.{
  ◌≡◌, refl, ap, ◌∙◌, inl, inr, Bool, true, false, Bool-cases, none, some, [], ◌∷◌, String,
  string_eq, ◌==◌, eq_iff, if◌then◌else◌, arith,
}
use mathlib.Core.Option.{some-injective}
use hs_fob.Base.Int.{ℤ, pos, ◌+ℤ◌, ◌-ℤ◌, ◌≤ℤ◌, max0, int_laws, parts_eq}
use hs_fob.Base.Dict.{Dict, lookup, insert, erase}
use hs_fob.Balances.{BalanceLedger, locked}
use hs_fob.Balances.Solvency.{max0_id}
use hs_fob.Economy.{Bond, Economy}

-- what a bond adds to an account
abbrev pub share : Bond → String → ℤ
share b pk = if b.reviewer == pk then b.stake else pos 0

-- the stakes of an account's open bonds
abbrev pub bonded : String → Dict String Bond → ℤ
bonded pk [] = pos 0
bonded pk ((h, b) ∷ bonds) = share b pk +ℤ bonded pk bonds

-- no stake is negative
abbrev pub AllStakes : Dict String Bond → Type 0
AllStakes [] = Unit
AllStakes ((h, b) ∷ bonds) = (pos 0 ≤ℤ b.stake) × AllStakes bonds

-- The ledger and the open bonds agree: what an account has locked is what its open bonds stake.
pub record IsBacked (s : Economy) : Type 0 where
  pub at : (pk : String) → locked s.ledger pk ≡ bonded pk s.open_bonds
  pub stakes : AllStakes s.open_bonds

share_nonneg : (b : Bond) (pk : String) → pos 0 ≤ℤ b.stake → pos 0 ≤ℤ share b pk
share_nonneg b pk h = of (b.reviewer == pk) b.stake h
  where
    of : (z : Bool) (n : ℤ) → pos 0 ≤ℤ n → pos 0 ≤ℤ (if z then n else pos 0)
    of true n k = k
    of false n k = omega arith

bonded_nonneg :
    (pk : String) (bonds : Dict String Bond) → AllStakes bonds → pos 0 ≤ℤ bonded pk bonds
bonded_nonneg pk [] h = omega arith
bonded_nonneg pk ((j, b) ∷ bonds) h =
    omega (int_laws, share_nonneg b pk h.0, bonded_nonneg pk bonds h.1)

pub bonded-insert :
    (pk h : String) (b : Bond) (bonds : Dict String Bond)
    → lookup h bonds ≡ none
    → bonded pk (insert h b bonds) ≡ bonded pk bonds +ℤ share b pk
bonded-insert pk h b [] e = omega int_laws
bonded-insert pk h b ((j, c) ∷ bonds) e = elim (Bool-cases (h == j)) [
  | inl same ↦ absurd (cc (rw same at e))
  | inr differ ↦
      rw differ
        (omega (int_laws, parts_eq (bonded-insert pk h b bonds (ground (arith, e, differ)))))
]

pub bonded-erase :
    (pk h : String) (b : Bond) (bonds : Dict String Bond)
    → lookup h bonds ≡ some b
    → bonded pk bonds ≡ bonded pk (erase h bonds) +ℤ share b pk
bonded-erase pk h b [] e = absurd (cc)
bonded-erase pk h b ((j, c) ∷ bonds) e = elim (Bool-cases (h == j)) [
  | inl same ↦
      let found : c ≡ b = some-injective _ _ (rw same at e) in rw (same, found) (omega int_laws)
  | inr differ ↦
      rw differ (omega (int_laws, parts_eq (bonded-erase pk h b bonds (ground (arith, e, differ)))))
]

pub insert-AllStakes :
    (h : String) (b : Bond) (bonds : Dict String Bond)
    → pos 0 ≤ℤ b.stake
    → AllStakes bonds
    → AllStakes (insert h b bonds)
insert-AllStakes h b [] k a = (k, tt)
insert-AllStakes h b ((j, c) ∷ bonds) k a = elim (Bool-cases (j == h)) [
  | inl same ↦ ground (arith, insert-AllStakes h b bonds k a.1)
  | inr differ ↦ ground (arith, insert-AllStakes h b bonds k a.1)
]

pub erase-AllStakes :
    (h : String) (bonds : Dict String Bond) → AllStakes bonds → AllStakes (erase h bonds)
erase-AllStakes h [] a = tt
erase-AllStakes h ((j, c) ∷ bonds) a = ground (arith, erase-AllStakes h bonds a.1)

-- A bond that leaves takes its stake out of what its owner has locked.
pub popped-IsBacked :
    (s : Economy) (h : String) (b : Bond) (l : BalanceLedger)
    → IsBacked s
    → lookup h s.open_bonds ≡ some b
    → ((x : String)
        → locked l x ≡ (
            if x == b.reviewer
            then max0 (locked s.ledger b.reviewer -ℤ b.stake)
            else locked s.ledger x))
    → IsBacked (record { ledger = l; open_bonds = erase h s.open_bonds })
popped-IsBacked s h b l k found after = record {
  at = λ x. after x ∙ settled x (x == b.reviewer) refl;
  stakes = erase-AllStakes h s.open_bonds k.stakes;
}
  where
    settled :
        (x : String) (z : Bool)
        → (x == b.reviewer) ≡ z
        → (if z then max0 (locked s.ledger b.reviewer -ℤ b.stake) else locked s.ledger x)
          ≡ bonded x (erase h s.open_bonds)
    settled x true e =
        let own : share b x ≡ b.stake = ground (arith, eq_iff x b.reviewer, eq_iff b.reviewer x) in
        let name : b.reviewer ≡ x = ground (arith, eq_iff x b.reviewer, e) in
        let rest : locked s.ledger b.reviewer -ℤ b.stake ≡ bonded x (erase h s.open_bonds) =
          ap (λ (y : String). locked s.ledger y -ℤ b.stake) name
          ∙ omega (
            int_laws,
            parts_eq (k.at x),
            parts_eq (bonded-erase x h b s.open_bonds found),
            parts_eq own,
          ) in
        ap max0 rest
        ∙ max0_id (bonded x (erase h s.open_bonds))
            (bonded_nonneg x (erase h s.open_bonds) (erase-AllStakes h s.open_bonds k.stakes))
    settled x false e =
        let none_of_it : share b x ≡ pos 0 =
          ground (arith, eq_iff x b.reviewer, eq_iff b.reviewer x) in
        omega (
          int_laws,
          parts_eq (k.at x),
          parts_eq (bonded-erase x h b s.open_bonds found),
          parts_eq none_of_it,
        )
