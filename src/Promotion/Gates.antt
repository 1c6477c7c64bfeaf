-- ===== src/Promotion/Gates.antt =====
-- A promotion needs a quorum (blockchain/blockchain.py, `_promotion_ok`).
use hs_fob.Base.{
  ℕ, ◌+◌, ◌*◌, ◌≤◌, ◌<◌, ◌≡◌, refl, sym, Bool, true, false, not, List, String, string_eq, leb→le,
  length, arith, &&-true, Bool-cases, inl, inr,
}
use hs_fob.Base.Int.{◌≤ℤ◌}
use hs_fob.Base.Sets.{elem}
use hs_fob.Values.{dict, Fields, get_field, text_at, fields_of}
use hs_fob.Crypto.{Platform}
use hs_fob.Registry.{ReputationRegistry, weight}
use hs_fob.Slashing.{approvers}
use hs_fob.Slashing.Approvals.{Signed, minority-not-approved}
use hs_fob.Consensus.{quorum_size}
use hs_fob.Promotion.{
  promotion_fields, promotion_gates, promotion_ok, promotion_message, promotion_threshold,
}

-- The facts behind an accepted promotion.
record IsEarned (p : Platform) (fs : Fields) (validators : List String)
    (registry : ReputationRegistry) (fresh : ℕ) : Type 0 where
  pub outsider : elem (text_at "candidate" fs) validators ≡ false
  pub merit : promotion_threshold ≤ℤ weight registry (text_at "candidate" fs) (text_at "domain" fs)
  pub quorum :
      quorum_size (length validators)
      ≤ length
          (approvers p (promotion_message p fs) validators (fields_of (get_field "approvals" fs)))
  pub rate : fresh + 1 ≤ 2
  pub fraction : 3 * (fresh + 1) ≤ length validators + 1

gates-IsEarned :
    (p : Platform) (fs : Fields) (validators : List String) (registry : ReputationRegistry)
    (fresh : ℕ)
    → promotion_gates p fs validators registry fresh ≡ true
    → IsEarned p fs validators registry fresh
unfolding promotion_gates
gates-IsEarned p fs validators registry fresh h =
    let c5 = &&-true _ _ h in
    let c4 = &&-true _ _ c5.0 in
    let c3 = &&-true _ _ c4.0 in
    let c2 = &&-true _ _ c3.0 in
    let c1 = &&-true (promotion_fields fs) (not (elem (text_at "candidate" fs) validators)) c2.0 in
    record {
      outsider = not-true (elem (text_at "candidate" fs) validators) c1.1;
      merit = leb→le _ _ c2.1;
      quorum = leb→le _ _ c3.1;
      rate = leb→le _ _ c4.1;
      fraction = leb→le _ _ c5.1;
    }
  where
    not-true : (b : Bool) → not b ≡ true → b ≡ false
    not-true true e = sym e
    not-true false e = refl

-- However much competence a candidate has, a promotion is refused if there is a validator and the
-- validators who signed it are all of a minority of at most a third as many names as there are
-- validators.
pub promotion-needs_quorum :
    (p : Platform) (fs : Fields) (validators minority : List String) (registry : ReputationRegistry)
    (fresh : ℕ)
    → ((v : String)
        → elem v validators ≡ true
        → Signed p (promotion_message p fs) v (fields_of (get_field "approvals" fs))
        → elem v minority ≡ true)
    → ◌<◌ 0 (length validators)
    → 3 * length minority ≤ length validators
    → promotion_ok p (dict fs) validators registry fresh ≡ false
unfolding promotion_ok
promotion-needs_quorum p fs validators minority registry fresh only people few =
    let refused =
      minority-not-approved p (promotion_message p fs) validators minority
        (fields_of (get_field "approvals" fs)) only people few in
    elim (Bool-cases (promotion_gates p fs validators registry fresh)) [
      | inr no_promotion ↦ no_promotion
      | inl accepted ↦
          ground (arith, (gates-IsEarned p fs validators registry fresh accepted).quorum, refused)
    ]
