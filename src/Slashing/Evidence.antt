-- ===== src/Slashing/Evidence.antt =====
-- What a slash has to prove (reputation/slashing.py, `validate_slash`).
use hs_fob.Base.{
  ◌≤◌, ◌≡◌, ◌≢◌, refl, ap, Bool, true, false, Option, none, some, List, [], String, string_eq,
  leb→le, length, &&-true,
}
use hs_fob.Base.Int.{int_eq}
use hs_fob.Values.{
  Value, null, bool, int, float, str, list, dict, Fields, get_field, text_at, fields_of,
}
use hs_fob.Crypto.{Platform}
use hs_fob.Transaction.{Transaction}
use hs_fob.Block.{Block}
use hs_fob.Consensus.{quorum_size}
use hs_fob.Slashing.{
  find_tx, conflicting_attestations, evidence_at, evidence_holds, slash_fields, validate_slash,
  approvers, slash_message, some_one,
}
use hs_fob.Slashing.Conflict.{IsConflict, conflicting-IsConflict}

-- What an applied slash rests on: two transactions of the prefix that are named by their hashes and
-- conflict, and the signatures of a quorum of a non-empty set of validators.
pub record IsProven (p : Platform) (fs : Fields) (prefix : List Block) (validators : List String)
    : Type 0 where
  pub tx_a : Transaction
  pub tx_b : Transaction
  pub found_a : find_tx p prefix (evidence_at fs).0 ≡ some tx_a
  pub found_b : find_tx p prefix (evidence_at fs).1 ≡ some tx_b
  pub conflict : IsConflict p (text_at "offender" fs) (text_at "domain" fs) tx_a tx_b
  pub some_one : validators ≢ []
  pub quorum :
      quorum_size (length validators)
      ≤ length (approvers p (slash_message p fs) validators (fields_of (get_field "approvals" fs)))

both_found :
    (oa ob : Option Transaction) (test : Transaction → Transaction → Bool)
    → elim oa [ none ↦ false | some a ↦ elim ob [ none ↦ false | some b ↦ test a b ] ] ≡ true
    → (a : Transaction) × (b : Transaction) × (oa ≡ some a) × (ob ≡ some b) × (test a b ≡ true)
both_found none ob test h = absurd (cc)
both_found (some a) none test h = absurd (cc)
both_found (some a) (some b) test h = (a, b, refl, refl, h)

-- A slash is applied only on proof: both referenced transactions stand in the prefix, are attestations
-- that the offender has signed, in the slash's domain, about one claim, with opposite verdicts, and a
-- quorum of the validators, of whom there is one at least, has signed the slash.
pub validate_slash-IsProven :
    (p : Platform) (payload : Value) (prefix : List Block) (validators : List String)
    → validate_slash p payload prefix validators ≡ true
    → (fs : Fields) × (payload ≡ dict fs) × IsProven p fs prefix validators
unfolding validate_slash evidence_holds
validate_slash-IsProven p (dict fs) prefix validators h =
    let (front, quorum) = &&-true _ _ h in
    let (front', people) = &&-true _ (some_one p validators) front in
    let (a, b, fa, fb, conflict) =
      both_found (find_tx p prefix (evidence_at fs).0) (find_tx p prefix (evidence_at fs).1)
        (λ x y. conflicting_attestations p x y (text_at "offender" fs) (text_at "domain" fs))
        ((&&-true (slash_fields fs) _ front').1) in
    (
      fs,
      refl,
      record {
        tx_a = a;
        tx_b = b;
        found_a = fa;
        found_b = fb;
        conflict =
            conflicting-IsConflict p a b (text_at "offender" fs) (text_at "domain" fs) conflict;
        some_one = λ e. cc (ap (some_one p) e, people);
        quorum = leb→le _ _ quorum;
      },
    )
validate_slash-IsProven p null prefix validators h = absurd (cc)
validate_slash-IsProven p (bool _) prefix validators h = absurd (cc)
validate_slash-IsProven p (int _) prefix validators h = absurd (cc)
validate_slash-IsProven p (float _) prefix validators h = absurd (cc)
validate_slash-IsProven p (str _) prefix validators h = absurd (cc)
validate_slash-IsProven p (list _) prefix validators h = absurd (cc)
