-- ===== src/Community/Pooled.antt =====
-- network/community.py: what a node's mempool can take in.
use mathlib.Core.Path.{subst}
use mathlib.Core.Option.{none-ne-some, some-injective, map as option_map}
use hs_fob.Base.{
  ℕ, Bool, true, false, not, Option, none, some, List, [], ◌∷◌, String, length, if◌then◌else◌, ◌⊎◌,
  inl, inr, ◌≡◌, refl, sym, ap, ◌∙◌, Bool-cases, arith, any, ◌==◌, string_eq, ==-refl, ◌++◌,
}
use hs_fob.Base.Int.{ℤ, ltb_ℤ}
use hs_fob.Values.{Value, Fields, dict, text_at, int_at, null, bool, int, float, str, list}
use hs_fob.Transaction
use hs_fob.Transaction.{Transaction}
use hs_fob.Attestation.{is_attestation, fields}
use hs_fob.Submission.{is_submission}
use hs_fob.Balances.{free}
use hs_fob.Economy.{Economy, derive_balances}
use hs_fob.Chain.{Blockchain, add_transaction}
use hs_fob.Community.{AttestationCommunity, already_seen}
use hs_fob.Community.Admission.{
  Admission, admitted, unsigned_attestation, credential_rejected, unfunded, unsigned_submission,
  not_participant, fails, is_authentic, transaction_rejection, accepts_transaction, pool,
  broadcast_transaction, submit_local, on_transaction,
}
use hs_fob.Credentials.Checks.{Check, ok, refused, raised, have-ok, missing_presentation}
use hs_fob.Credentials.Verify.{Office, as_dict}
use hs_fob.Credentials.Presentation.{verify_presentation}
use hs_fob.Credentials.Entitled.{IsEntitled, verify_presentation-IsEntitled}

as_dict-some : (v : Value) (fs : Fields) → as_dict v ≡ some fs → v ≡ dict fs
as_dict-some (dict fs) gs h = ap dict (some-injective _ _ h)
as_dict-some null gs h = cc
as_dict-some (bool b) gs h = cc
as_dict-some (int n) gs h = cc
as_dict-some (float x) gs h = cc
as_dict-some (str s) gs h = cc
as_dict-some (list vs) gs h = cc

module _ (o : Office) (trusted_issuer_dids : List String) where
  -- The attester may attest: it holds a credential for the domain and can fund the bond.
  pub record IsEligible (n : AttestationCommunity) (tx : Transaction) (presentation : Value)
      (moment : ℤ) : Type 0 where
    pub members : Fields
    pub economy : Economy
    pub presented : presentation ≡ dict members
    pub entitled :
        IsEntitled o trusted_issuer_dids moment members tx.sender (text_at "domain" (fields tx))
    pub derived :
        derive_balances o.platform n.blockchain.blocks
          (length n.blockchain.blocks)
          n.blockchain.endowments
          n.blockchain.genesis
        ≡ some economy
    pub funded : ltb_ℤ (free economy.ledger tx.sender) (int_at "stake" (fields tx)) ≡ false

  -- The author has signed it, and it is a submission or an eligible attester's attestation.
  abbrev pub IsAdmissible : AttestationCommunity → Transaction → Value → ℤ → Type 0
  IsAdmissible n tx presentation moment =
      (is_authentic o trusted_issuer_dids tx ≡ true)
      × ((is_submission tx ≡ true)
          ⊎ ((is_attestation tx ≡ true) × IsEligible n tx presentation moment))

  is_object :
      (moment : ℤ) (presentation : Value) (attester domain : String)
      → verify_presentation o trusted_issuer_dids moment presentation attester domain ≡ ok tt
      → (members : Fields) × (presentation ≡ dict members)
  unfolding verify_presentation
  is_object moment presentation attester domain h =
      let (members, e, _) = have-ok (as_dict presentation) missing_presentation _ h in
      (members, as_dict-some presentation members e)

  eligible :
      (n : AttestationCommunity) (tx : Transaction) (presentation : Value) (moment : ℤ)
      (economy : Economy)
      → verify_presentation o trusted_issuer_dids moment presentation tx.sender
          (text_at "domain" (fields tx))
        ≡ ok tt
      → derive_balances o.platform n.blockchain.blocks
          (length n.blockchain.blocks)
          n.blockchain.endowments
          n.blockchain.genesis
        ≡ some economy
      → ltb_ℤ (free economy.ledger tx.sender) (int_at "stake" (fields tx)) ≡ false
      → IsEligible n tx presentation moment
  eligible n tx presentation moment economy v d f =
      let domain = text_at "domain" (fields tx) in
      let (members, presented) = is_object moment presentation tx.sender domain v in
      let same : verify_presentation o trusted_issuer_dids moment (dict members) tx.sender domain
          ≡ ok tt =
        ap (λ x. verify_presentation o trusted_issuer_dids moment x tx.sender domain)
          (sym presented)
        ∙ v in
      record {
        members = members;
        economy = economy;
        presented = presented;
        entitled =
            verify_presentation-IsEntitled o trusted_issuer_dids moment members tx.sender domain
              same;
        derived = d;
        funded = f;
      }

  transaction_rejection-IsAdmissible :
      (n : AttestationCommunity) (tx : Transaction) (presentation : Value) (moment : ℤ)
      → transaction_rejection o trusted_issuer_dids n tx presentation moment ≡ admitted
      → IsAdmissible n tx presentation moment
  unfolding transaction_rejection
  transaction_rejection-IsAdmissible n tx presentation moment h =
      of (is_attestation tx) (is_submission tx) (is_authentic o trusted_issuer_dids tx) refl refl
        refl (verify_presentation o trusted_issuer_dids moment presentation tx.sender domain) refl
        (derive_balances o.platform chain.blocks (length chain.blocks) chain.endowments
          chain.genesis)
        refl h
    where
      chain : Blockchain
      chain = n.blockchain

      domain : String
      domain = text_at "domain" (fields tx)

      of :
          (a s t : Bool)
          → is_attestation tx ≡ a
          → is_submission tx ≡ s
          → is_authentic o trusted_issuer_dids tx ≡ t
          → (v : Check (Unit {0}))
          → verify_presentation o trusted_issuer_dids moment presentation tx.sender
              (text_at "domain" (fields tx))
            ≡ v
          → (d : Option Economy)
          → derive_balances o.platform n.blockchain.blocks
              (length n.blockchain.blocks)
              n.blockchain.endowments
              n.blockchain.genesis
            ≡ d
          → (if a
              then (if not t then unsigned_attestation else elim v [
                | raised ↦ fails
                | refused reason ↦ credential_rejected reason
                | ok done ↦ elim d [
                  | none ↦ fails
                  | some economy ↦
                      if ltb_ℤ (free economy.ledger tx.sender) (int_at "stake" (fields tx))
                      then unfunded
                      else admitted
                ]
              ])
              else if s
              then (if not t then unsigned_submission else admitted)
              else not_participant)
            ≡ admitted
          → IsAdmissible n tx presentation moment
      of true s false ea es et v ev d ed h = cc
      of true s true ea es et raised ev d ed h = cc
      of true s true ea es et (refused r) ev d ed h = cc
      of true s true ea es et (ok u) ev none ed h = cc
      of true s true ea es et (ok u) ev (some economy) ed h =
          let funded : ltb_ℤ (free economy.ledger tx.sender) (int_at "stake" (fields tx)) ≡ false =
            ground (arith, h) in
          (et, inr (ea, eligible n tx presentation moment economy ev ed funded))
      of false true false ea es et v ev d ed h = cc
      of false true true ea es et v ev d ed h = (et, inl es)
      of false false t ea es et v ev d ed h = cc

  -- A transaction that comes in either changes nothing, or it is new to the node and joins the
  -- mempool, nothing else changes, and it is admissible: its author has signed it, and it is a
  -- submission, or an attestation by a key that holds a credential for its domain from a trusted
  -- issuer, can prove that it owns that credential, and can fund the bond.
  pub on_transaction-admits :
      (n n' : AttestationCommunity) (tx : Transaction) (presentation : Value) (moment : ℤ)
      → on_transaction o trusted_issuer_dids n (some (tx, presentation)) moment ≡ some n'
      → (n' ≡ n)
        ⊎ ((n' ≡ record n { blockchain = add_transaction n.blockchain tx })
            × (already_seen o.platform n tx ≡ false)
            × IsAdmissible n tx presentation moment)
  unfolding on_transaction
  on_transaction-admits n n' tx presentation moment h =
      of (transaction_rejection o trusted_issuer_dids n tx presentation moment) refl
        (already_seen o.platform n tx) refl h
    where
      of :
          (r : Admission)
          → transaction_rejection o trusted_issuer_dids n tx presentation moment ≡ r
          → (s : Bool) → already_seen o.platform n tx ≡ s
          → elim r [
            | fails ↦ none
            | admitted ↦
                some (if s then n else record n { blockchain = add_transaction n.blockchain tx })
            | _ ↦ some n
          ]
            ≡ some n'
          → (n' ≡ n)
            ⊎ ((n' ≡ record n { blockchain = add_transaction n.blockchain tx })
                × (already_seen o.platform n tx ≡ false)
                × IsAdmissible n tx presentation moment)
      of fails e s q h = elim (none-ne-some _ h) [ ]
      of admitted e true q h = inl (sym (some-injective _ _ h))
      of admitted e false q h = inr (
        sym (some-injective _ _ h),
        q,
        transaction_rejection-IsAdmissible n tx presentation moment e,
      )
      of unsigned_attestation e s q h = inl (sym (some-injective _ _ h))
      of (credential_rejected r) e s q h = inl (sym (some-injective _ _ h))
      of unfunded e s q h = inl (sym (some-injective _ _ h))
      of unsigned_submission e s q h = inl (sym (some-injective _ _ h))
      of not_participant e s q h = inl (sym (some-injective _ _ h))

  any-append :
      (t : Transaction → Bool) (xs : List Transaction) (x : Transaction)
      → t x ≡ true
      → any t (xs ++ x ∷ []) ≡ true
  any-append t [] x h = ground (arith, h)
  any-append t (y ∷ ys) x h = ground (arith, any-append t ys x h)

  pool-pool :
      (n : AttestationCommunity) (tx : Transaction)
      → pool o trusted_issuer_dids (pool o trusted_issuer_dids n tx) tx
        ≡ pool o trusted_issuer_dids n tx
  unfolding already_seen
  pool-pool n tx = elim (Bool-cases (already_seen o.platform n tx)) [
    | inl seen ↦ rw (seen, seen) refl
    | inr unseen ↦
        let same = λ (other : Transaction).
          Transaction.hash o.platform other == Transaction.hash o.platform tx in
        let there : any same (n.blockchain.mempool ++ tx ∷ []) ≡ true =
          any-append same n.blockchain.mempool tx (==-refl (Transaction.hash o.platform tx)) in
        rw (unseen, there) refl
  ]

  pool-rejection :
      (n : AttestationCommunity) (tx : Transaction) (presentation : Value) (moment : ℤ)
      → transaction_rejection o trusted_issuer_dids
          (pool o trusted_issuer_dids n tx)
          tx
          presentation
          moment
        ≡ transaction_rejection o trusted_issuer_dids n tx presentation moment
  unfolding transaction_rejection
  pool-rejection n tx presentation moment =
      elim (already_seen o.platform n tx)
        as (λ b.
          transaction_rejection o trusted_issuer_dids
            (if b then n else record n { blockchain = add_transaction n.blockchain tx }) tx
            presentation moment
          ≡ transaction_rejection o trusted_issuer_dids n tx presentation moment) [
            | true ↦ refl
            | false ↦ refl
          ]

  on_transaction-admitted :
      (n : AttestationCommunity) (tx : Transaction) (presentation : Value) (moment : ℤ)
      → transaction_rejection o trusted_issuer_dids n tx presentation moment ≡ admitted
      → on_transaction o trusted_issuer_dids n (some (tx, presentation)) moment
        ≡ some (pool o trusted_issuer_dids n tx)
  unfolding on_transaction
  on_transaction-admitted n tx presentation moment e = rw (on_transaction, e) refl

  -- A transaction that comes in a second time at the same moment changes nothing.
  pub on_transaction-again :
      (n n' : AttestationCommunity) (message : Option (Transaction × Value)) (moment : ℤ)
      → on_transaction o trusted_issuer_dids n message moment ≡ some n'
      → on_transaction o trusted_issuer_dids n' message moment ≡ some n'
  unfolding on_transaction
  on_transaction-again n n' none moment h = refl
  on_transaction-again n n' (some (tx, presentation)) moment h =
      of (transaction_rejection o trusted_issuer_dids n tx presentation moment) refl h
    where
      unmoved :
          some n ≡ some n'
          → on_transaction o trusted_issuer_dids n (some (tx, presentation)) moment ≡ some n
          → on_transaction o trusted_issuer_dids n' (some (tx, presentation)) moment ≡ some n'
      unmoved h same =
          subst
            (λ m. on_transaction o trusted_issuer_dids m (some (tx, presentation)) moment ≡ some m)
            (some-injective _ _ h) same

      of :
          (r : Admission)
          → transaction_rejection o trusted_issuer_dids n tx presentation moment ≡ r
          → elim r [ fails ↦ none | admitted ↦ some (pool o trusted_issuer_dids n tx) | _ ↦ some n ]
            ≡ some n'
          → on_transaction o trusted_issuer_dids n' (some (tx, presentation)) moment ≡ some n'
      of fails e h = elim (none-ne-some _ h) [ ]
      of admitted e h =
          subst
            (λ m. on_transaction o trusted_issuer_dids m (some (tx, presentation)) moment ≡ some m)
            (some-injective _ _ h)
            (on_transaction-admitted (pool o trusted_issuer_dids n tx) tx presentation moment
                (pool-rejection n tx presentation moment ∙ e)
              ∙ ap some (pool-pool n tx))
      of unsigned_attestation e h = unmoved h (rw (on_transaction, e) refl)
      of (credential_rejected r) e h = unmoved h (rw (on_transaction, e) refl)
      of unfunded e h = unmoved h (rw (on_transaction, e) refl)
      of unsigned_submission e h = unmoved h (rw (on_transaction, e) refl)
      of not_participant e h = unmoved h (rw (on_transaction, e) refl)

  -- A transaction that is handed to a node leaves it with the chain and the mempool that the same
  -- transaction leaves it with when it comes from a peer.
  pub submit_local-on_transaction :
      (n : AttestationCommunity) (tx : Transaction) (presentation : Value) (moment : ℤ) (peers : ℕ)
      → option_map
          (λ (r : AttestationCommunity × Option ℕ). r.0.blockchain)
          (submit_local o trusted_issuer_dids n tx presentation moment peers)
        ≡ option_map AttestationCommunity.blockchain
            (on_transaction o trusted_issuer_dids n (some (tx, presentation)) moment)
  unfolding submit_local on_transaction accepts_transaction broadcast_transaction
  submit_local-on_transaction n tx presentation moment peers =
      elim (transaction_rejection o trusted_issuer_dids n tx presentation moment)
        as (λ r.
          option_map (λ x. x.0.blockchain)
            (elim (elim r as (λ _. Option Bool) [
              | fails ↦ none
              | admitted ↦ some true
              | _ ↦ some false
            ])
              as (λ _. Option (AttestationCommunity × Option ℕ)) [
                | none ↦ none
                | some false ↦ some (n, none)
                | some true ↦
                    let (sender, reached) =
                      broadcast_transaction o trusted_issuer_dids (pool o trusted_issuer_dids n tx)
                        tx presentation peers in
                    some (sender, some reached)
              ])
          ≡ option_map AttestationCommunity.blockchain
              (elim r as (λ _. Option AttestationCommunity) [
                | fails ↦ none
                | admitted ↦ some (pool o trusted_issuer_dids n tx)
                | _ ↦ some n
              ])) [
                | admitted ↦ refl
                | unsigned_attestation ↦ refl
                | credential_rejected r ↦ refl
                | unfunded ↦ refl
                | unsigned_submission ↦ refl
                | not_participant ↦ refl
                | fails ↦ refl
              ]
