-- ===== src/Bridge/Replay.antt =====
-- network/http_bridge.py: a challenge admits one attestation.
use mathlib.Core.Option.{none-ne-some, some-injective}
use hs_fob.Base.{
  ℕ, ◌≤◌, true, false, Option, none, some, List, [], ◌∷◌, String, ◌≡◌, refl, sym, ap, ◌∙◌, arith,
  leb, ==-refl, string_eq, eq_iff, Bool-cases, inl, inr, ◌⊎◌,
}
use hs_fob.Base.Dict.{Dict, lookup}
use hs_fob.Base.Int.{ℤ}
use hs_fob.Values.{Value, str}
use hs_fob.Transaction.{Transaction}
use hs_fob.Attestation.{is_attestation}
use hs_fob.Community.{already_seen}
use hs_fob.Community.Admission.{
  Admission, admitted, fails, unsigned_attestation, credential_rejected, unfunded,
  unsigned_submission, not_participant, transaction_rejection,
}
use hs_fob.Credentials.Verify.{Office}
use hs_fob.Credentials.Challenges.{
  Store, consume, purge, entries, fresh_at, entries-fresh_at, consume-entries, spent_now,
}
use hs_fob.Bridge.Submit.{
  Bridge, Reply, status, challenge_in, pool_new, spend_challenge, submit_transaction, rejected,
  stale_challenge,
}

lookup-absent :
    (c : String) (now : ℕ) (d : Dict String ℕ)
    → entries c d ≡ 0
    → elim (lookup c d) [ none ↦ false | some expiry ↦ leb now expiry ] ≡ false
lookup-absent c now [] h = refl
lookup-absent c now ((t, e) ∷ d) h = ground (arith, eq_iff t c, eq_iff c t, lookup-absent c now d)

consume-absent :
    (c : String) (now : ℕ) (s : Store) → entries c s.issued ≡ 0 → (consume (str c) now s).1 ≡ false
unfolding consume purge
consume-absent c now s h =
    lookup-absent c now (fresh_at now s.issued) (omega (arith, entries-fresh_at c now s.issued, h))

consume-gone :
    (c : String) (now : ℕ) (s : Store)
    → entries c s.issued ≤ 1
    → (consume (str c) now s).1 ≡ true
    → entries c (consume (str c) now s).0.issued ≡ 0
consume-gone c now s h e =
    let counted : spent_now c (str c) (consume (str c) now s).1 ≡ 1 = rw (e, ==-refl c) refl in
    omega (arith, consume-entries c (str c) now s, counted, h)

module _ (o : Office) (trusted_issuer_dids : List String) where
  pool_new-challenges :
      (s : Bridge) (tx : Transaction) (presentation : Value) (peers : ℕ)
      → (pool_new o trusted_issuer_dids s tx presentation peers).0.challenges ≡ s.challenges
  unfolding pool_new
  pool_new-challenges s tx presentation peers =
      elim (Bool-cases (already_seen o.platform s.community tx)) [
        | inl e ↦ rw (pool_new, e) refl
        | inr e ↦ rw (pool_new, e) refl
      ]

  spend_challenge-fresh :
      (s : Bridge) (tx : Transaction) (presentation : Value) (c : String) (now peers : ℕ)
      → is_attestation tx ≡ true
      → challenge_in presentation ≡ str c
      → (consume (str c) now s.challenges).1 ≡ true
      → spend_challenge o trusted_issuer_dids s tx presentation now peers
        ≡ pool_new o trusted_issuer_dids
            (record s { challenges = (consume (str c) now s.challenges).0 })
            tx
            presentation
            peers
  unfolding spend_challenge
  spend_challenge-fresh s tx presentation c now peers a q e = rw (spend_challenge, a, q, e) refl

  spend_challenge-stale :
      (s : Bridge) (tx : Transaction) (presentation : Value) (c : String) (now peers : ℕ)
      → is_attestation tx ≡ true
      → challenge_in presentation ≡ str c
      → (consume (str c) now s.challenges).1 ≡ false
      → spend_challenge o trusted_issuer_dids s tx presentation now peers
        ≡ (record s { challenges = (consume (str c) now s.challenges).0 }, stale_challenge)
  unfolding spend_challenge
  spend_challenge-stale s tx presentation c now peers a q e = rw (spend_challenge, a, q, e) refl

  spend_challenge-gone :
      (s : Bridge) (tx : Transaction) (presentation : Value) (c : String) (now peers : ℕ)
      → is_attestation tx ≡ true
      → challenge_in presentation ≡ str c
      → entries c s.challenges.issued ≤ 1
      → leb (status (spend_challenge o trusted_issuer_dids s tx presentation now peers).1) 201
        ≡ true
      → entries c
          (spend_challenge o trusted_issuer_dids s tx presentation now peers).0.challenges.issued
        ≡ 0
  spend_challenge-gone s tx presentation c now peers a q few good =
      let left = (consume (str c) now s.challenges).0 in
      elim (Bool-cases (consume (str c) now s.challenges).1) [
        | inl spent ↦
            let same : spend_challenge o trusted_issuer_dids s tx presentation now peers
                ≡ pool_new o trusted_issuer_dids (record s { challenges = left }) tx presentation
                    peers =
              spend_challenge-fresh s tx presentation c now peers a q spent in
            ap (λ (x : Bridge × Reply). entries c x.0.challenges.issued) same
            ∙ ap (λ (x : Store). entries c x.issued)
                (pool_new-challenges (record s { challenges = left }) tx presentation peers)
            ∙ consume-gone c now s.challenges few spent
        | inr stale ↦
            let wrong : leb 400 201 ≡ true =
              ap (λ (x : Bridge × Reply). leb (status x.1) 201)
                (sym (spend_challenge-stale s tx presentation c now peers a q stale))
              ∙ good in
            ground (arith, wrong)
      ]

  spend_challenge-refused :
      (s : Bridge) (tx : Transaction) (presentation : Value) (c : String) (now peers : ℕ)
      → is_attestation tx ≡ true
      → challenge_in presentation ≡ str c
      → entries c s.challenges.issued ≡ 0
      → (status (spend_challenge o trusted_issuer_dids s tx presentation now peers).1 ≡ 400)
        × ((spend_challenge o trusted_issuer_dids s tx presentation now peers).0.community
            ≡ s.community)
  spend_challenge-refused s tx presentation c now peers a q gone =
      let same =
        spend_challenge-stale s tx presentation c now peers a q
          (consume-absent c now s.challenges gone) in
      (
        ap (λ (x : Bridge × Reply). status x.1) same,
        ap (λ (x : Bridge × Reply). x.0.community) same,
      )

  submit-cases :
      (s s' : Bridge) (tx : Transaction) (presentation : Value) (moment : ℤ) (now peers : ℕ)
      (r : Reply)
      → submit_transaction o trusted_issuer_dids s (some (tx, presentation)) moment now peers
        ≡ some (s', r)
      → ((s' ≡ s) × (status r ≡ 400))
        ⊎ ◌≡◌ {A = Bridge × Reply}
            (spend_challenge o trusted_issuer_dids s tx presentation now peers)
            (s', r)
  unfolding submit_transaction
  submit-cases s s' tx presentation moment now peers r h =
      of (transaction_rejection o trusted_issuer_dids s.community tx presentation moment) h
    where
      unmoved :
          (a : Admission)
          → ◌≡◌ {A = Option (Bridge × Reply)} (some (s, rejected a)) (some (s', r))
          → ((s' ≡ s) × (status r ≡ 400))
            ⊎ ◌≡◌ {A = Bridge × Reply}
                (spend_challenge o trusted_issuer_dids s tx presentation now peers)
                (s', r)
      unmoved a h =
          let same : ◌≡◌ {A = Bridge × Reply} (s, rejected a) (s', r) = some-injective _ _ h in
          inl (
            sym (ap (λ (x : Bridge × Reply). x.0) same),
            sym (ap (λ (x : Bridge × Reply). status x.1) same),
          )

      of :
          (a : Admission)
          → elim a as (λ _. Option (Bridge × Reply)) [
            | fails ↦ none
            | admitted ↦ some (spend_challenge o trusted_issuer_dids s tx presentation now peers)
            | unsigned_attestation ↦ some (s, rejected unsigned_attestation)
            | credential_rejected r ↦ some (s, rejected (credential_rejected r))
            | unfunded ↦ some (s, rejected unfunded)
            | unsigned_submission ↦ some (s, rejected unsigned_submission)
            | not_participant ↦ some (s, rejected not_participant)
          ]
            ≡ some (s', r)
          → ((s' ≡ s) × (status r ≡ 400))
            ⊎ ◌≡◌ {A = Bridge × Reply}
                (spend_challenge o trusted_issuer_dids s tx presentation now peers)
                (s', r)
      of fails h = elim (none-ne-some _ h) [ ]
      of admitted h = inr (some-injective _ _ h)
      of unsigned_attestation h = unmoved unsigned_attestation h
      of (credential_rejected x) h = unmoved (credential_rejected x) h
      of unfunded h = unmoved unfunded h
      of unsigned_submission h = unmoved unsigned_submission h
      of not_participant h = unmoved not_participant h

  -- A challenge admits one attestation. After an attestation has been taken over HTTP with a
  -- challenge that the store held at most once, a second attestation with the same challenge, by
  -- anyone and at any time, is answered with 400 and leaves the node as it is.
  pub submit_transaction-once :
      (s s' s'' : Bridge) (tx tx' : Transaction) (presentation presentation' : Value) (c : String)
      (moment moment' : ℤ) (now now' peers peers' : ℕ) (r r' : Reply)
      → is_attestation tx ≡ true
      → is_attestation tx' ≡ true
      → challenge_in presentation ≡ str c
      → challenge_in presentation' ≡ str c
      → entries c s.challenges.issued ≤ 1
      → submit_transaction o trusted_issuer_dids s (some (tx, presentation)) moment now peers
        ≡ some (s', r)
      → leb (status r) 201 ≡ true
      → submit_transaction o trusted_issuer_dids s' (some (tx', presentation')) moment' now' peers'
        ≡ some (s'', r')
      → (status r' ≡ 400) × (s''.community ≡ s'.community)
  submit_transaction-once s s' s'' tx tx' presentation presentation' c moment moment' now now' peers
        peers' r r' a a' q q' few h good h' =
      elim (submit-cases s s' tx presentation moment now peers r h) [
        | inl bad ↦
            let wrong : leb 400 201 ≡ true = ap (λ x. leb x 201) (sym bad.1) ∙ good in
            ground (arith, wrong)
        | inr taken ↦
            let gone : entries c s'.challenges.issued ≡ 0 =
              ap (λ (x : Bridge × Reply). entries c x.0.challenges.issued) (sym taken)
              ∙ spend_challenge-gone s tx presentation c now peers a q few
                  (ap (λ (x : Bridge × Reply). leb (status x.1) 201) taken ∙ good) in
            elim (submit-cases s' s'' tx' presentation' moment' now' peers' r' h') [
              | inl refused ↦ (refused.1, ap Bridge.community refused.0)
              | inr spent ↦
                  let (bad, kept) =
                    spend_challenge-refused s' tx' presentation' c now' peers' a' q' gone in
                  (
                    ap (λ (x : Bridge × Reply). status x.1) (sym spent) ∙ bad,
                    ap (λ (x : Bridge × Reply). x.0.community) (sym spent) ∙ kept,
                  )
            ]
      ]
