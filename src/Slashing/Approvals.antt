-- ===== src/Slashing/Approvals.antt =====
-- Approvals (reputation/slashing.py `validate_slash`, blockchain/blockchain.py `_promotion_ok`): who is
-- counted, and what a minority of the validators cannot approve.
use hs_fob.Base.{
  ◌*◌, ◌≤◌, ◌<◌, ◌≡◌, ap, sym, ◌∙◌, ◌⊎◌, inl, inr, true, false, ◌&&◌, List, String, string_eq, ◌==◌,
  eq_iff, length, arith, Bool-cases, &&-true,
}
use hs_fob.Base.Sets.{elem, Distinct, to_set-Distinct, elem-to_set}
use hs_fob.Values.{null, bool, int, float, str, list, dict, Fields, end, field}
use hs_fob.Crypto
use hs_fob.Crypto.{Platform}
use hs_fob.Consensus.Quorum.{minority-no-quorum}
use hs_fob.Slashing.{approver_list, approvers, approved}

-- Somewhere among the approvals stands a signature of this validator that verifies.
abbrev pub Signed : Platform → String → String → Fields → Type 0
Signed p message v end = ⊥
Signed p message v (field approver (str s) fs) =
    ((v ≡ approver) × (Crypto.verify p approver message s ≡ true)) ⊎ Signed p message v fs
Signed p message v (field approver _ fs) = Signed p message v fs

module _ (p : Platform) (message : String) (validators : List String) where
  approver_list_sound :
      (v : String) (fs : Fields)
      → elem v (approver_list p message validators fs) ≡ true
      → (elem v validators ≡ true) × Signed p message v fs
  approver_list_sound v end h = absurd (ground (arith, h))
  approver_list_sound v (field a (str s) fs) h =
      elim (Bool-cases (elem a validators && Crypto.verify p a message s)) [
        | inr skip ↦
            let rest = approver_list_sound v fs (ground (arith, h, skip)) in (rest.0, inr rest.1)
        | inl counts ↦ elim (Bool-cases (v == a)) [
          | inl same ↦
              let both = &&-true (elem a validators) (Crypto.verify p a message s) counts in
              (
                ap (λ (x : String). elem x validators) ((eq_iff v a).0 same) ∙ both.0,
                inl ((eq_iff v a).0 same, both.1),
              )
          | inr other ↦
              let rest = approver_list_sound v fs (ground (arith, h, counts, other)) in
              (rest.0, inr rest.1)
        ]
      ]
  approver_list_sound v (field a null fs) h = approver_list_sound v fs h
  approver_list_sound v (field a (bool _) fs) h = approver_list_sound v fs h
  approver_list_sound v (field a (int _) fs) h = approver_list_sound v fs h
  approver_list_sound v (field a (float _) fs) h = approver_list_sound v fs h
  approver_list_sound v (field a (list _) fs) h = approver_list_sound v fs h
  approver_list_sound v (field a (dict _) fs) h = approver_list_sound v fs h

  -- Whoever is counted is a validator and has signed the statement.
  pub approvers_sound :
      (v : String) (fs : Fields)
      → elem v (approvers p message validators fs) ≡ true
      → (elem v validators ≡ true) × Signed p message v fs
  approvers_sound v fs h =
      approver_list_sound v fs (sym (elem-to_set v (approver_list p message validators fs)) ∙ h)

  pub approvers-Distinct : (fs : Fields) → Distinct (approvers p message validators fs)
  approvers-Distinct fs = to_set-Distinct (approver_list p message validators fs)

  -- If there is a validator, and every validator whose signature stands among the approvals is of a
  -- minority of at most a third as many names as there are validators, the approvals are no quorum,
  -- whatever else they hold.
  pub minority-not-approved :
      (minority : List String) (fs : Fields)
      → ((v : String) → elem v validators ≡ true → Signed p message v fs → elem v minority ≡ true)
      → 0 < length validators
      → 3 * length minority ≤ length validators
      → approved p message validators fs ≡ false
  minority-not-approved minority fs only some_one few = ground (
    arith,
    minority-no-quorum validators minority (approvers p message validators fs)
        (approvers-Distinct fs) (λ v h. let s = approvers_sound v fs h in only v s.0 s.1) some_one
        few,
  )
