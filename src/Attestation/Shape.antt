-- ===== src/Attestation/Shape.antt =====
-- What the validator of attestations (attestation/attestation.py) lets through.
use hs_fob.Base.{
  ◌≡◌, Bool, true, false, ◌&&◌, Option, none, some, String, arith, &&-true, string_eq,
}
use hs_fob.Base.Int.{ℤ, pos, leb_ℤ, ◌≤ℤ◌, int_eq, int_beq_iff}
use hs_fob.Values.{Value, str, dict, is_text, int, end, int_at, int_of, get_field}
use hs_fob.Transaction.{Transaction}
use hs_fob.Attestation.{
  is_hex_text, make_attestation, attestation_fields, is_attestation, is_abstain, is_stake,
  is_verdict, is_null, lacks_verdict, fields,
}

-- A made attestation passes the validator exactly when its domain is a non-empty text, its submission
-- is a non-empty text of hex digits, and it abstains or stakes no negative amount.
pub is_attestation-make_attestation :
    (attester subject rubric_root : String) (item_index : ℤ) (verdict : Option Bool) (stake : ℤ)
    (submission domain : String) (now : Value)
    → is_attestation (
        make_attestation attester subject rubric_root item_index verdict stake submission domain
          now)
      ≡ (is_text (str domain)
          && is_hex_text (str submission)
          && (elim verdict [ none ↦ true | some _ ↦ leb_ℤ (pos 0) stake ]))
unfolding is_attestation make_attestation attestation_fields
is_attestation-make_attestation attester subject rubric_root item_index none stake submission domain
      now =
    ground arith
is_attestation-make_attestation attester subject rubric_root item_index (some b) stake submission
      domain now =
    ground arith

stake_test :
    (v s : Option Value)
    → elim s [ none ↦ false | some n ↦ is_stake (elim v [ none ↦ false | some w ↦ is_null w ]) n ]
      ≡ true
    → elim v [ none ↦ false | some w ↦ is_verdict w ] ≡ true
    → (pos 0 ≤ℤ int_of s) × (lacks_verdict v ≡ true → int_of s ≡ pos 0)
stake_test none s h k = absurd (cc)
stake_test (some w) none h k = absurd (cc)
stake_test (some w) (some (int n)) h k = ground (arith, int_beq_iff n (pos 0))
stake_test (some w) (some _) h k = absurd (cc)

-- A valid attestation risks no negative amount, and one that abstains risks nothing.
pub stake_bounds :
    (tx : Transaction)
    → is_attestation tx ≡ true
    → (pos 0 ≤ℤ int_at "stake" (fields tx))
      × (is_abstain tx.payload ≡ true → int_at "stake" (fields tx) ≡ pos 0)
unfolding is_attestation attestation_fields is_abstain
stake_bounds tx h = of_payload tx.payload h
  where
    of_payload :
        (v : Value)
        → elim v [ dict fs ↦ attestation_fields fs | _ ↦ false ] ≡ true
        → (pos 0 ≤ℤ int_at "stake" (elim v [ dict fs ↦ fs | _ ↦ end ]))
          × (is_abstain v ≡ true → int_at "stake" (elim v [ dict fs ↦ fs | _ ↦ end ]) ≡ pos 0)
    of_payload (dict fs) k =
        let (front, stake) = &&-true _ _ k in
        stake_test (get_field "verdict" fs) (get_field "stake" fs) stake ((&&-true _ _ front).1)
    of_payload _ k = absurd (cc)
