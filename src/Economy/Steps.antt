-- ===== src/Economy/Steps.antt =====
-- The steps of `derive_balances` (reputation/derive.py) that close bonds keep the ledger and the open
-- bonds in agreement, and open none.
pub mod Runs
use hs_fob.Base.{
  ◌≡◌, refl, sym, ap, ◌∙◌, inl, inr, Bool, true, false, Bool-cases, Option, none, some, List, [],
  ◌∷◌, String, string_eq, ◌==◌, eq_iff, if◌then◌else◌, arith,
}
use hs_fob.Base.Int.{ℤ, pos, ◌-ℤ◌, max0}
use hs_fob.Base.Dict.{Dict, lookup, erase}
use hs_fob.Values.{
  Value, null, bool, int, float, str, list, dict, Fields, get_field, items_of, to_list, text_at,
}
use hs_fob.Balances.{BalanceLedger, locked, reward, release, burn}
use hs_fob.Balances.Accounts.{locked-reward, locked-release, locked-burn}
use hs_fob.Slashing.{evidence_at}
use hs_fob.Economy.{
  Bond, Economy, pop_release, pop_all, contributes, matching, is_empty, review_reward,
  release_attester, release_attesters, release_for_certificate, burn_evidence, burn_for_slash,
}
use hs_fob.Economy.Backing.{IsBacked, popped-IsBacked}

-- the ledger still agrees with the open bonds, and none was opened
pub record Keeps (s t : Economy) : Type 0 where
  pub backed : IsBacked s → IsBacked t
  pub absent : (h : String) → lookup h s.open_bonds ≡ none → lookup h t.open_bonds ≡ none

pub Keeps-refl : (s : Economy) → Keeps s s
Keeps-refl s = record { backed = λ k. k; absent = λ h e. e }

pub Keeps-trans : {s t u : Economy} → Keeps s t → Keeps t u → Keeps s u
Keeps-trans a b = record {
  backed = λ k. b.backed (a.backed k);
  absent = λ h e. b.absent h (a.absent h e);
}

lookup-erase :
    (h k : String) (d : Dict String Bond) → lookup h d ≡ none → lookup h (erase k d) ≡ none
lookup-erase h k [] e = refl
lookup-erase h k ((j, b) ∷ d) e = ground (arith, lookup-erase h k d)

popped-Keeps :
    (s : Economy) (h : String) (b : Bond) (l : BalanceLedger)
    → lookup h s.open_bonds ≡ some b
    → ((x : String)
        → locked l x ≡ (
            if x == b.reviewer
            then max0 (locked s.ledger b.reviewer -ℤ b.stake)
            else locked s.ledger x))
    → Keeps s (record { ledger = l; open_bonds = erase h s.open_bonds })
popped-Keeps s h b l found after = record {
  backed = λ k. popped-IsBacked s h b l k found after;
  absent = λ k e. lookup-erase k h s.open_bonds e;
}

pop_release-Keeps : (s : Economy) (h : String) → Keeps s (pop_release s h)
unfolding pop_release
pop_release-Keeps s h = of (lookup h s.open_bonds) refl
  where
    of :
        (o : Option Bond)
        → lookup h s.open_bonds ≡ o
        → Keeps s (elim o [
          | none ↦ s
          | some b ↦ record {
            ledger = release s.ledger b.reviewer b.stake;
            open_bonds = erase h s.open_bonds;
          }
        ])
    of none e = Keeps-refl s
    of (some b) e =
        popped-Keeps s h b (release s.ledger b.reviewer b.stake) e
          (λ x. locked-release s.ledger b.reviewer x b.stake)

pop_all-Keeps : (s : Economy) (hs : List String) → Keeps s (pop_all s hs)
unfolding pop_all
pop_all-Keeps s [] = Keeps-refl s
pop_all-Keeps s (h ∷ hs) = Keeps-trans (pop_release-Keeps s h) (pop_all-Keeps (pop_release s h) hs)

reward-Keeps :
    (s : Economy) (pk : String) (amount : ℤ)
    → Keeps s (record s { ledger = reward s.ledger pk amount })
reward-Keeps s pk amount = record {
  backed = λ k. record { at = λ x. locked-reward s.ledger pk x amount ∙ k.at x; stakes = k.stakes };
  absent = λ h e. e;
}

release_attester-Keeps :
    (certificate : Fields) (s : Economy) (v : Value) → Keeps s (release_attester certificate s v)
unfolding release_attester
release_attester-Keeps certificate s (str attester) =
    of (is_empty (matching (contributes attester certificate) s.open_bonds))
  where
    of :
        (z : Bool)
        → Keeps s (
            if z
            then s
            else pop_all
                (record s { ledger = reward s.ledger attester review_reward })
                (matching (contributes attester certificate) s.open_bonds))
    of true = Keeps-refl s
    of false = Keeps-trans (reward-Keeps s attester review_reward) (
        pop_all-Keeps (record s { ledger = reward s.ledger attester review_reward })
          (matching (contributes attester certificate) s.open_bonds))
release_attester-Keeps certificate s null = Keeps-refl s
release_attester-Keeps certificate s (bool _) = Keeps-refl s
release_attester-Keeps certificate s (int _) = Keeps-refl s
release_attester-Keeps certificate s (float _) = Keeps-refl s
release_attester-Keeps certificate s (list _) = Keeps-refl s
release_attester-Keeps certificate s (dict _) = Keeps-refl s

release_attesters-Keeps :
    (certificate : Fields) (s : Economy) (vs : List Value)
    → Keeps s (release_attesters certificate s vs)
unfolding release_attesters
release_attesters-Keeps certificate s [] = Keeps-refl s
release_attesters-Keeps certificate s (v ∷ vs) =
    Keeps-trans (release_attester-Keeps certificate s v)
      (release_attesters-Keeps certificate (release_attester certificate s v) vs)

pub release_for_certificate-Keeps :
    (s : Economy) (certificate : Fields) → Keeps s (release_for_certificate s certificate)
unfolding release_for_certificate
release_for_certificate-Keeps s certificate =
    release_attesters-Keeps certificate s (to_list (items_of (get_field "granted_by" certificate)))

burn_evidence-Keeps :
    (offender : String) (s : Economy) (h : String) → Keeps s (burn_evidence offender s h)
unfolding burn_evidence
burn_evidence-Keeps offender s h = of (lookup h s.open_bonds) refl
  where
    burned :
        (b : Bond) (z : Bool)
        → lookup h s.open_bonds ≡ some b
        → Keeps s (
            if z
            then record {
              ledger = burn s.ledger b.reviewer b.stake;
              open_bonds = erase h s.open_bonds;
            }
            else s)
    burned b false e = Keeps-refl s
    burned b true e =
        popped-Keeps s h b (burn s.ledger b.reviewer b.stake) e
          (λ x. locked-burn s.ledger b.reviewer x b.stake)

    of :
        (o : Option Bond)
        → lookup h s.open_bonds ≡ o
        → Keeps s (elim o [
          | none ↦ s
          | some b ↦
              if b.reviewer == offender
              then record {
                ledger = burn s.ledger b.reviewer b.stake;
                open_bonds = erase h s.open_bonds;
              }
              else s
        ])
    of none e = Keeps-refl s
    of (some b) e = burned b (b.reviewer == offender) e

pub burn_for_slash-Keeps : (s : Economy) (slash : Fields) → Keeps s (burn_for_slash s slash)
unfolding burn_for_slash
burn_for_slash-Keeps s slash =
    let offender = text_at "offender" slash in
    Keeps-trans (burn_evidence-Keeps offender s (evidence_at slash).0) (
      burn_evidence-Keeps offender (burn_evidence offender s (evidence_at slash).0)
        (evidence_at slash).1)
