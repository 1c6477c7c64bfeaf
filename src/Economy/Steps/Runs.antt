-- ===== src/Economy/Steps/Runs.antt =====
-- Runs of `derive_balances` (reputation/derive.py): over a chain that names no transaction twice, what is
-- locked is what is at stake in the open bonds.
use mathlib.Core.Path.{subst}
use mathlib.Core.Option.{some-injective}
use hs_fob.Base.{
  ◌≡◌, ◌≢◌, refl, sym, ap, ◌∙◌, Bool, true, false, Option, none, some, List, [], ◌∷◌, ◌++◌, map,
  String, string_eq, ◌==◌, eq_iff, if◌then◌else◌, arith,
}
use hs_fob.Base.Int.{pos, ◌+ℤ◌, int_laws, parts_eq}
use hs_fob.Base.Dict.{lookup, insert, lookup-insert}
use hs_fob.Base.Sets.{elem, Distinct}
use hs_fob.Values.{Value, dict, Fields, equals_str, field_is, int_at}
use hs_fob.Crypto.{Platform}
use hs_fob.Transaction
use hs_fob.Transaction.{Transaction}
use hs_fob.Block.{Block}
use hs_fob.Attestation.{is_attestation, is_abstain, fields}
use hs_fob.Attestation.Shape.{stake_bounds}
use hs_fob.Balances.{lock, locked}
use hs_fob.Balances.Accounts.{locked-lock}
use hs_fob.Registry.{ReputationRegistry}
use hs_fob.Slashing.{slash_type, validate_slash}
use hs_fob.Derive.{certificate_type, consensus_validators}
use hs_fob.Economy.{
  bond_of, Economy, post_bond, settle_fields, settle, settle_all, release_for_certificate,
  burn_for_slash,
}
use hs_fob.Economy.Backing.{IsBacked, bonded, share, bonded-insert, insert-AllStakes}
use hs_fob.Economy.Steps.{Keeps, Keeps-refl, release_for_certificate-Keeps, burn_for_slash-Keeps}

module _ (p : Platform) where
  -- A step on a transaction opens a bond under its hash at most, and keeps the agreement if there was none.
  record Settles (s : Economy) (tx : Transaction) (t : Economy) : Type 0 where
    backed : lookup (Transaction.hash p tx) s.open_bonds ≡ none → IsBacked s → IsBacked t
    absent :
        (h : String)
        → h ≢ Transaction.hash p tx
        → lookup h s.open_bonds ≡ none
        → lookup h t.open_bonds ≡ none

  Keeps-Settles : {s t : Economy} (tx : Transaction) → Keeps s t → Settles s tx t
  Keeps-Settles tx k = record { backed = λ e b. k.backed b; absent = λ h apart e. k.absent h e }

  post_bond-Settles :
      (s : Economy) (tx : Transaction) → is_attestation tx ≡ true → Settles s tx (post_bond p s tx)
  unfolding post_bond
  post_bond-Settles s tx a = of (is_abstain tx.payload)
    where
      posted : Economy
      posted = record {
        ledger = lock s.ledger tx.sender (int_at "stake" (fields tx));
        open_bonds = insert (Transaction.hash p tx) (bond_of tx) s.open_bonds;
      }

      adds :
          (x : String) (z : Bool)
          → (x == tx.sender) ≡ z
          → IsBacked s
          → (if z
              then locked s.ledger tx.sender +ℤ int_at "stake" (fields tx)
              else locked s.ledger x)
            ≡ bonded x s.open_bonds +ℤ share (bond_of tx) x
      adds x true e k =
          let own : share (bond_of tx) x ≡ int_at "stake" (fields tx) =
            ground (arith, eq_iff x tx.sender, eq_iff tx.sender x) in
          let name : tx.sender ≡ x = ground (arith, eq_iff x tx.sender, e) in
          ap (λ (y : String). locked s.ledger y +ℤ int_at "stake" (fields tx)) name
          ∙ omega (int_laws, parts_eq (k.at x), parts_eq own)
      adds x false e k =
          let nothing : share (bond_of tx) x ≡ pos 0 =
            ground (arith, eq_iff x tx.sender, eq_iff tx.sender x) in
          omega (int_laws, parts_eq (k.at x), parts_eq nothing)

      of : (z : Bool) → Settles s tx (if z then s else posted)
      of true = Keeps-Settles tx (Keeps-refl s)
      of false = record {
        backed = λ e k. record {
          at = λ x.
              locked-lock s.ledger tx.sender x (int_at "stake" (fields tx))
              ∙ adds x (x == tx.sender) refl k
              ∙ sym (bonded-insert x (Transaction.hash p tx) (bond_of tx) s.open_bonds e);
          stakes =
              insert-AllStakes (Transaction.hash p tx) (bond_of tx) s.open_bonds
                (stake_bounds tx a).0 k.stakes;
        };
        absent = λ h apart e.
            lookup-insert (Transaction.hash p tx) h (bond_of tx) s.open_bonds
            ∙ ground (arith, e, apart, eq_iff h (Transaction.hash p tx));
      }

  settle_fields-Keeps :
      (registry : Option ReputationRegistry) (prefix : List Block) (s : Economy) (fs : Fields)
      {t : Economy}
      → settle_fields p registry prefix s fs ≡ some t
      → Keeps s t
  unfolding settle_fields
  settle_fields-Keeps registry prefix s fs {t} e =
      of (field_is (equals_str certificate_type) "type" fs)
        (field_is (equals_str slash_type) "type" fs) registry e
    where
      judged : (z : Bool) → some (if z then burn_for_slash s fs else s) ≡ some t → Keeps s t
      judged true q = subst (Keeps s) (some-injective _ _ q) (burn_for_slash-Keeps s fs)
      judged false q = subst (Keeps s) (some-injective _ _ q) (Keeps-refl s)

      of :
          (certifies slashes : Bool) (r : Option ReputationRegistry)
          → (if certifies
              then some (release_for_certificate s fs)
              else if slashes
              then elim r [
                | none ↦ none
                | some r' ↦ some (
                    if validate_slash p (dict fs) prefix (consensus_validators r')
                    then burn_for_slash s fs
                    else s)
              ]
              else some s)
            ≡ some t
          → Keeps s t
      of true slashes r q =
          subst (Keeps s) (some-injective _ _ q) (release_for_certificate-Keeps s fs)
      of false true none q = absurd (cc)
      of false true (some r') q =
          judged (validate_slash p (dict fs) prefix (consensus_validators r')) q
      of false false r q = subst (Keeps s) (some-injective _ _ q) (Keeps-refl s)

  settle-Settles :
      (registry : Option ReputationRegistry) (prefix : List Block) (s : Economy) (tx : Transaction)
      {t : Economy}
      → settle p registry prefix s tx ≡ some t
      → Settles s tx t
  unfolding settle
  settle-Settles registry prefix s tx {t} e = of (is_attestation tx) refl e
    where
      other :
          (v : Value)
          → elim v [ dict fs ↦ settle_fields p registry prefix s fs | _ ↦ some s ] ≡ some t
          → Settles s tx t
      other (dict fs) q = Keeps-Settles tx (settle_fields-Keeps registry prefix s fs q)
      other _ q = subst (Settles s tx) (some-injective _ _ q) (Keeps-Settles tx (Keeps-refl s))

      of :
          (z : Bool)
          → is_attestation tx ≡ z
          → (if z
              then some (post_bond p s tx)
              else elim tx.payload [ dict fs ↦ settle_fields p registry prefix s fs | _ ↦ some s ])
            ≡ some t
          → Settles s tx t
      of true a q = subst (Settles s tx) (some-injective _ _ q) (post_bond-Settles s tx a)
      of false a q = other tx.payload q

  abbrev pub hashes : List Transaction → List String
  hashes txs = map (Transaction.hash p) txs

  -- none of these transactions has an open bond
  abbrev pub AllAbsent : List Transaction → Economy → Type 0
  AllAbsent [] s = Unit
  AllAbsent (tx ∷ txs) s = (lookup (Transaction.hash p tx) s.open_bonds ≡ none) × AllAbsent txs s

  Settles-AllAbsent :
      (s t : Economy) (tx : Transaction) (txs : List Transaction)
      → Settles s tx t
      → elem (Transaction.hash p tx) (hashes txs) ≡ false
      → AllAbsent txs s
      → AllAbsent txs t
  Settles-AllAbsent s t tx [] k e a = tt
  Settles-AllAbsent s t tx (x ∷ txs) k e a = (
    k.absent (Transaction.hash p x)
        (λ same. ground (arith, e, eq_iff (Transaction.hash p tx) (Transaction.hash p x), same))
        a.0,
    Settles-AllAbsent s t tx txs k (ground (arith, e)) a.1,
  )

  pub settle_all-IsBacked :
      (registry : Option ReputationRegistry) (prefix : List Block) (s : Economy)
      (txs rest : List Transaction) {t : Economy}
      → Distinct (hashes (txs ++ rest))
      → AllAbsent (txs ++ rest) s
      → IsBacked s
      → settle_all p registry prefix s txs ≡ some t
      → IsBacked t × AllAbsent rest t
  unfolding settle_all
  settle_all-IsBacked registry prefix s [] rest d a k e =
      (subst IsBacked (some-injective _ _ e) k, subst (AllAbsent rest) (some-injective _ _ e) a)
  settle_all-IsBacked registry prefix s (tx ∷ txs) rest {t} d a k e =
      of (settle p registry prefix s tx) refl
        (λ s' a' k' q. settle_all-IsBacked registry prefix s' txs rest d.1 a' k' q) e
    where
      of :
          (o : Option Economy)
          → settle p registry prefix s tx ≡ o
          → ((s' : Economy)
              → AllAbsent (txs ++ rest) s'
              → IsBacked s'
              → settle_all p registry prefix s' txs ≡ some t
              → IsBacked t × AllAbsent rest t)
          → elim o [ none ↦ none | some s' ↦ settle_all p registry prefix s' txs ] ≡ some t
          → IsBacked t × AllAbsent rest t
      of none step next q = absurd (cc)
      of (some s') step next q =
          let one = settle-Settles registry prefix s tx step in
          next s' (Settles-AllAbsent s s' tx (txs ++ rest) one d.0 a.1) (one.backed a.0 k) q
