-- ===== src/Economy.antt =====
-- reputation/derive.py, `derive_balances`: the token ledger as a function of a prefix of the chain,
-- with the bonds that are still open.
pub mod Backing
pub mod Steps
pub mod Whole
use hs_fob.Base.{
  ℕ, Bool, true, false, ◌&&◌, Option, none, some, List, [], ◌∷◌, String, string_eq, ◌==◌,
  if◌then◌else◌, leb, take,
}
use hs_fob.Base.Int.{ℤ, pos}
use hs_fob.Base.Dict.{Dict, lookup, insert, erase}
use hs_fob.Values.{
  Value, str, dict, Fields, get_field, equals_str, field_is, text_at, int_at, items_of, to_list,
}
use hs_fob.Crypto.{Platform}
use hs_fob.Transaction
use hs_fob.Transaction.{Transaction}
use hs_fob.Block.{Block}
use hs_fob.Balances.{BalanceLedger, new_ledger, lock, release, reward, burn}
use hs_fob.Registry.{Weights, ReputationRegistry}
use hs_fob.Attestation.{is_attestation, is_abstain, fields}
use hs_fob.Slashing.{slash_type, validate_slash, evidence_at}
use hs_fob.Derive.{certificate_type, consensus_validators, derive_registry}
use hs_fob.Tally.{is_true}

-- `REVIEW_REWARD`, `DEFAULT_ENDOWMENT`
abbrev pub review_reward : ℤ
review_reward = pos 5

abbrev pub default_endowment : ℤ
default_endowment = pos 1000

-- An entry of `locked`: an attestation whose bond is still posted.
pub record Bond : Type 0 where
  pub reviewer : String
  pub stake : ℤ
  pub subject : String
  pub rubric_root : String
  pub domain : String
  pub submission : String
  pub verdict : Option Value

-- the variables of the loop: `ledger` and `locked`, keyed by transaction hash
pub record Economy : Type 0 where
  pub ledger : BalanceLedger
  pub open_bonds : Dict String Bond

abbrev pub bond_of : Transaction → Bond
bond_of tx = record {
  reviewer = tx.sender;
  stake = int_at "stake" (fields tx);
  subject = text_at "subject" (fields tx);
  rubric_root = text_at "rubric_root" (fields tx);
  domain = text_at "domain" (fields tx);
  submission = text_at "submission_tx_hash" (fields tx);
  verdict = get_field "verdict" (fields tx);
}

-- `verdict is True`
abbrev pub is_positive : Option Value → Bool
is_positive none = false
is_positive (some v) = is_true v

-- `text == payload.get(key)`
abbrev pub same_text : String → Option Value → Bool
same_text t none = false
same_text t (some v) = equals_str t v

-- the test in the comprehension of `_release_for_certificate`
unfoldable pub contributes : String → Fields → Bond → Bool
contributes attester certificate b =
    b.reviewer == attester
    && is_positive b.verdict
    && same_text b.subject (get_field "subject" certificate)
    && same_text b.rubric_root (get_field "rubric_root" certificate)
    && same_text b.domain (get_field "domain" certificate)
    && same_text b.submission (get_field "submission_tx_hash" certificate)

-- `contributing`: the hashes of the open bonds that a test lets through
abbrev pub matching : (Bond → Bool) → Dict String Bond → List String
matching test [] = []
matching test ((h, b) ∷ bonds) = if test b then h ∷ matching test bonds else matching test bonds

-- `reviewer, stake, *_ = locked.pop(tx_hash); ledger.release(reviewer, stake)`
unfoldable pub pop_release : Economy → String → Economy
pop_release s tx_hash = elim (lookup tx_hash s.open_bonds) [
  | none ↦ s
  | some b ↦ record {
    ledger = release s.ledger b.reviewer b.stake;
    open_bonds = erase tx_hash s.open_bonds;
  }
]

unfoldable pub pop_all : Economy → List String → Economy
unfolding pop_release
pop_all s [] = s
pop_all s (h ∷ hs) = pop_all (pop_release s h) hs

abbrev pub is_empty : List String → Bool
is_empty [] = true
is_empty (x ∷ xs) = false

-- one round of the loop over `granted_by`; only a text can equal a reviewer
unfoldable pub release_attester : Fields → Economy → Value → Economy
unfolding pop_all contributes
release_attester certificate s (str attester) =
    let contributing = matching (contributes attester certificate) s.open_bonds in
    if is_empty contributing
    then s
    else pop_all (record s { ledger = reward s.ledger attester review_reward }) contributing
release_attester certificate s _ = s

unfoldable pub release_attesters : Fields → Economy → List Value → Economy
unfolding release_attester
release_attesters certificate s [] = s
release_attesters certificate s (v ∷ vs) =
    release_attesters certificate (release_attester certificate s v) vs

-- `_release_for_certificate`, where a `granted_by` that is no list changes nothing
unfoldable pub release_for_certificate : Economy → Fields → Economy
unfolding release_attesters
release_for_certificate s certificate =
    release_attesters certificate s (to_list (items_of (get_field "granted_by" certificate)))

-- one round of the loop over `evidence`
unfoldable pub burn_evidence : String → Economy → String → Economy
burn_evidence offender s tx_hash = elim (lookup tx_hash s.open_bonds) [
  | none ↦ s
  | some b ↦
      if b.reviewer == offender
      then record {
        ledger = burn s.ledger b.reviewer b.stake;
        open_bonds = erase tx_hash s.open_bonds;
      }
      else s
]

-- `_burn_for_slash`, for a slash that has been validated and so has two texts as evidence
unfoldable pub burn_for_slash : Economy → Fields → Economy
unfolding burn_evidence
burn_for_slash s slash =
    let (e0, e1) = evidence_at slash in
    let offender = text_at "offender" slash in
    burn_evidence offender (burn_evidence offender s e0) e1

module _ (p : Platform) where
  -- the first branch of the loop: an attestation that does not abstain posts its bond
  unfoldable pub post_bond : Economy → Transaction → Economy
  post_bond s tx = if is_abstain tx.payload then s else record {
    ledger = lock s.ledger tx.sender (int_at "stake" (fields tx));
    open_bonds = insert (Transaction.hash p tx) (bond_of tx) s.open_bonds;
  }

  -- the branches for a payload that is a dict and no attestation; `registry` is what is derived for
  -- the block, and is only looked at for a slash
  unfoldable pub settle_fields :
      Option ReputationRegistry → List Block → Economy → Fields → Option Economy
  unfolding release_for_certificate burn_for_slash consensus_validators
  settle_fields registry prefix s fs =
      if field_is (equals_str certificate_type) "type" fs
      then some (release_for_certificate s fs)
      else if field_is (equals_str slash_type) "type" fs
      then elim registry [
        | none ↦ none
        | some r ↦ some (
            if validate_slash p (dict fs) prefix (consensus_validators r)
            then burn_for_slash s fs
            else s)
      ]
      else some s

  -- one round of the inner loop
  unfoldable pub settle :
      Option ReputationRegistry → List Block → Economy → Transaction → Option Economy
  unfolding post_bond settle_fields
  settle registry prefix s tx =
      if is_attestation tx
      then some (post_bond s tx)
      else elim tx.payload [ dict fs ↦ settle_fields registry prefix s fs | _ ↦ some s ]

  -- the inner loop
  unfoldable pub settle_all :
      Option ReputationRegistry → List Block → Economy → List Transaction → Option Economy
  unfolding settle
  settle_all registry prefix s [] = some s
  settle_all registry prefix s (tx ∷ txs) = elim (settle registry prefix s tx) [
    | none ↦ none
    | some s' ↦ settle_all registry prefix s' txs
  ]

  -- the outer loop
  unfoldable pub settle_blocks : List Block → Weights → ℕ → Economy → List Block → Option Economy
  unfolding settle_all
  settle_blocks chain genesis limit s [] = some s
  settle_blocks chain genesis limit s (b ∷ blocks) =
      if leb limit b.index
      then some s
      else elim (settle_all (derive_registry p chain b.index genesis) (take b.index chain) s
          b.transactions) [ none ↦ none | some s' ↦ settle_blocks chain genesis limit s' blocks ]

  -- `derive_balances`, with the bonds still open beside the ledger
  unfoldable pub derive_balances : List Block → ℕ → Dict String ℤ → Weights → Option Economy
  unfolding settle_blocks
  derive_balances chain upto_index endowments genesis =
      settle_blocks chain genesis upto_index
        (record { ledger = new_ledger endowments default_endowment; open_bonds = [] }) chain
