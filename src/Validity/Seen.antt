-- ===== src/Validity/Seen.antt =====
-- The certificates among the transactions of a block that `is_valid_chain` accepts (blockchain/blockchain.py).
use mathlib.Core.Option.{some-injective}
use mathlib.Core.Path.{subst}
use mathlib.Core.List.{append-nil, append_assoc}
use hs_fob.Base.{
  ◌≡◌, refl, sym, ap, ◌∙◌, Bool, true, false, ◌&&◌, not, Option, none, some, List, [], ◌∷◌, ◌++◌,
  String, string_eq, eq_iff, if◌then◌else◌, arith,
}
use hs_fob.Base.Sets.{elem, Distinct, add}
use hs_fob.Base.Count.{append-Distinct}
use hs_fob.Crypto.{Platform}
use hs_fob.Transaction.{Transaction}
use hs_fob.Attestation.{is_attestation, fields}
use hs_fob.TxSigning.{requires_signature}
use hs_fob.Derive.{consensus_validators}
use hs_fob.Slashing.{is_slash, validate_slash}
use hs_fob.Promotion.{is_promotion}
use hs_fob.Certificate.{certificate_id, validate_certificate}
use hs_fob.Validity.{
  Within, Context, is_authored, accept_certificate, accept_promotion, accept_attestation,
  is_certificate, accept_other, accept, accept_all,
}

module _ (p : Platform) where
  -- the ids of the certificates among transactions, in their order
  abbrev pub certificate_ids : List Transaction → List String
  certificate_ids [] = []
  certificate_ids (tx ∷ txs) =
      if is_certificate tx.payload
      then certificate_id p (fields tx) ∷ certificate_ids txs
      else certificate_ids txs

  -- these ids have been seen since, and none was there before
  abbrev pub Saw : List String → List String → List String → Type 0
  Saw before ids after = (after ≡ before ++ ids) × Distinct after

  pub Saw-none : (seen : List String) → Distinct seen → Saw seen [] seen
  Saw-none seen d = (sym (append-nil seen), d)

  pub Saw-more : (a xs b ys d : List String) → Saw a xs b → Saw b ys d → Saw a (xs ++ ys) d
  Saw-more a xs b ys d first second =
      (second.0 ∙ ap (λ (l : List String). l ++ ys) first.0 ∙ append_assoc a xs ys, second.1)

  Saw-one :
      (seen : List String) (cid : String)
      → elem cid seen ≡ false
      → Distinct seen
      → Saw seen (cid ∷ []) (add cid seen)
  Saw-one seen cid new d =
      let grown : add cid seen ≡ seen ++ cid ∷ [] = rw new refl in
      (
        grown,
        subst (λ (l : List String). Distinct l) (sym grown)
            (append-Distinct seen (cid ∷ []) d (refl, tt)
              (λ b hb. ground (arith, hb, new, eq_iff b cid))),
      )

  module _ (c : Context) where
    kept :
        (z : Bool) (w w' u : Within)
        → (if z then some w' else none) ≡ some u
        → w'.carried.seen ≡ w.carried.seen
        → Distinct w.carried.seen
        → Saw w.carried.seen [] u.carried.seen
    kept false w w' u e same d = absurd (cc)
    kept true w w' u e same d =
        let still : u.carried.seen ≡ w.carried.seen =
          ap (λ (x : Within). x.carried.seen) (sym (some-injective _ _ e)) ∙ same in
        (
          still ∙ sym (append-nil w.carried.seen),
          subst (λ (l : List String). Distinct l) (sym still) d,
        )

    accept_other-seen :
        (w u : Within) (tx : Transaction) (o : Option Bool)
        → accept_other p w tx o ≡ some u
        → Distinct w.carried.seen
        → Saw w.carried.seen [] u.carried.seen
    accept_other-seen w u tx none e d = absurd (cc)
    accept_other-seen w u tx (some false) e d = absurd (cc)
    accept_other-seen w u tx (some true) e d = kept (is_authored p tx) w w u e refl d

    accept_certificate-seen :
        (w u : Within) (tx : Transaction)
        → accept_certificate p c w (fields tx) ≡ some u
        → Distinct w.carried.seen
        → Saw w.carried.seen (certificate_id p (fields tx) ∷ []) u.carried.seen
    unfolding accept_certificate
    accept_certificate-seen w u tx e d =
        of (elem (certificate_id p (fields tx)) w.carried.seen)
          (validate_certificate p c.prefix c.registry (fields tx)) refl e
      where
        of :
            (old good : Bool)
            → elem (certificate_id p (fields tx)) w.carried.seen ≡ old
            → (if not old && good
                then some (record w {
                  carried = record w.carried {
                    seen = add (certificate_id p (fields tx)) w.carried.seen;
                  };
                })
                else none)
              ≡ some u
            → Saw w.carried.seen (certificate_id p (fields tx) ∷ []) u.carried.seen
        of true good new q = absurd (cc)
        of false false new q = absurd (cc)
        of false true new q =
            subst
              (λ (x : Within).
                Saw w.carried.seen (certificate_id p (fields tx) ∷ []) x.carried.seen)
              (some-injective _ _ q) (Saw-one w.carried.seen (certificate_id p (fields tx)) new d)

    accept-seen :
        (w u : Within) (tx : Transaction)
        → accept p c w tx ≡ some u
        → Distinct w.carried.seen
        → Saw w.carried.seen (certificate_ids (tx ∷ [])) u.carried.seen
    unfolding accept accept_promotion accept_attestation
    accept-seen w u tx e d =
        of (is_certificate tx.payload) (is_promotion tx.payload) (is_slash tx.payload)
          (is_attestation tx) refl e
      where
        of :
            (certificate promotion slash attestation : Bool)
            → is_certificate tx.payload ≡ certificate
            → (if certificate
                then accept_certificate p c w (fields tx)
                else if promotion
                then accept_promotion p c w tx
                else if slash
                then (if validate_slash p tx.payload c.prefix (consensus_validators c.registry)
                    then some w
                    else none)
                else if attestation
                then accept_attestation p c w tx
                else accept_other p w tx (requires_signature tx))
              ≡ some u
            → Saw w.carried.seen (certificate_ids (tx ∷ [])) u.carried.seen
        of true promotion slash attestation is q = rw is (accept_certificate-seen w u tx q d)
        of false true slash attestation is q = rw is (kept _ w _ u q refl d)
        of false false true attestation is q = rw is (kept _ w _ u q refl d)
        of false false false true is q = rw is (kept _ w _ u q refl d)
        of false false false false is q =
            rw is (accept_other-seen w u tx (requires_signature tx) q d)

    pub accept_all-seen :
        (w u : Within) (txs : List Transaction)
        → accept_all p c w txs ≡ some u
        → Distinct w.carried.seen
        → Saw w.carried.seen (certificate_ids txs) u.carried.seen
    unfolding accept_all
    accept_all-seen w u [] e d =
        subst (λ (x : Within). Saw w.carried.seen [] x.carried.seen) (some-injective _ _ e)
          (Saw-none w.carried.seen d)
    accept_all-seen w u (tx ∷ txs) e d =
        of (accept p c w tx) refl (λ w' q d'. accept_all-seen w' u txs q d') e
      where
        joined : certificate_ids (tx ∷ []) ++ certificate_ids txs ≡ certificate_ids (tx ∷ txs)
        joined = ground arith

        of :
            (o : Option Within)
            → accept p c w tx ≡ o
            → ((w' : Within)
                → accept_all p c w' txs ≡ some u
                → Distinct w'.carried.seen
                → Saw w'.carried.seen (certificate_ids txs) u.carried.seen)
            → elim o [ none ↦ none | some w' ↦ accept_all p c w' txs ] ≡ some u
            → Saw w.carried.seen (certificate_ids (tx ∷ txs)) u.carried.seen
        of none one rest q = absurd (cc)
        of (some w') one rest q =
            let first = accept-seen w w' tx one d in
            subst (λ (ids : List String). Saw w.carried.seen ids u.carried.seen) joined
              (Saw-more w.carried.seen (certificate_ids (tx ∷ [])) w'.carried.seen
                (certificate_ids txs) u.carried.seen first (rest w' q first.1))
