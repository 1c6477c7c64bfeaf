-- ===== src/Validity/Replay.antt =====
-- `is_valid_chain` carries along whom promotions have made validators; `_replay_promotions` computes it
-- anew (blockchain/blockchain.py). A valid block changes the two in the same way.
use mathlib.Core.Option.{some-injective}
use hs_fob.Base.{
  ◌≡◌, refl, sym, ap, ◌∙◌, Bool, true, false, Option, none, some, List, [], ◌∷◌, ◌++◌, String,
  string_eq, ◌==◌, if◌then◌else◌, arith, eq_iff,
}
use hs_fob.Base.Sets.{add}
use hs_fob.Values.{Value, null, bool, int, float, str, list, dict, get_field, equals_str, text_at}
use hs_fob.Crypto.{Platform}
use hs_fob.Transaction.{Transaction}
use hs_fob.Attestation.{is_attestation, fields}
use hs_fob.TxSigning.{requires_signature}
use hs_fob.Derive.{certificate_type, consensus_validators}
use hs_fob.Slashing.{is_slash, validate_slash}
use hs_fob.Promotion.{is_promotion, promotion_fields, promotion_ok, promotion_type}
use hs_fob.Chain.{Promotions, fresh_at, apply_promotion, apply_promotions}
use hs_fob.Validity.{
  Within, Context, is_authored, accept_certificate, accept_promotion, accept_attestation,
  is_certificate, accept_other, accept, accept_all,
}

-- the variables of `_replay_promotions` among those of `is_valid_chain`
abbrev pub promotions_of : Within → Promotions
promotions_of w = record {
  promoted = w.carried.promoted;
  effect_indices = w.carried.effect_indices;
  current = w.block_validators;
}

-- A certificate is no promotion.
certificate_type_apart :
    (o : Option Value)
    → elim o [ none ↦ false | some v ↦ equals_str certificate_type v ] ≡ true
    → elim o [ none ↦ false | some v ↦ equals_str promotion_type v ] ≡ false
certificate_type_apart none h = refl
certificate_type_apart (some (str s)) h =
    let e : s ≡ certificate_type = (eq_iff s certificate_type).0 h in
    ap (λ (z : String). z == promotion_type) e
certificate_type_apart (some null) h = refl
certificate_type_apart (some (bool _)) h = refl
certificate_type_apart (some (int _)) h = refl
certificate_type_apart (some (float _)) h = refl
certificate_type_apart (some (list _)) h = refl
certificate_type_apart (some (dict _)) h = refl

is_certificate-is_promotion : (v : Value) → is_certificate v ≡ true → is_promotion v ≡ false
unfolding is_promotion promotion_fields
is_certificate-is_promotion (dict fs) h =
    ground (arith, certificate_type_apart (get_field "type" fs) h)
is_certificate-is_promotion null h = refl
is_certificate-is_promotion (bool _) h = refl
is_certificate-is_promotion (int _) h = refl
is_certificate-is_promotion (float _) h = refl
is_certificate-is_promotion (str _) h = refl
is_certificate-is_promotion (list _) h = refl

module _ (p : Platform) (c : Context) where
  -- what `_replay_promotions` makes of a transaction
  abbrev replayed : Within → Transaction → Promotions
  replayed w tx = apply_promotion p c.registry c.height (promotions_of w) tx

  replayed-none :
      (w : Within) (tx : Transaction)
      → is_promotion tx.payload ≡ false
      → replayed w tx ≡ promotions_of w
  unfolding apply_promotion
  replayed-none w tx h = rw h refl

  replayed-some :
      (w : Within) (tx : Transaction)
      → is_promotion tx.payload ≡ true
      → promotion_ok p tx.payload w.block_validators c.registry
          (fresh_at c.height w.carried.effect_indices)
        ≡ true
      → replayed w tx ≡ record {
        promoted = add (text_at "candidate" (fields tx)) w.carried.promoted;
        effect_indices = w.carried.effect_indices ++ c.height ∷ [];
        current = add (text_at "candidate" (fields tx)) w.block_validators;
      }
  unfolding apply_promotion
  replayed-some w tx is ok = rw (is, ok) refl

  test-some :
      (z : Bool) (w w' u : Within)
      → (if z then some w else none) ≡ some u
      → promotions_of w ≡ promotions_of w'
      → promotions_of u ≡ promotions_of w'
  test-some true w w' u e same = ap promotions_of (sym (some-injective _ _ e)) ∙ same
  test-some false w w' u e same = absurd (cc)

  other-same :
      (w u : Within) (tx : Transaction) (o : Option Bool)
      → accept_other p w tx o ≡ some u
      → promotions_of u ≡ promotions_of w
  other-same w u tx none e = absurd (cc)
  other-same w u tx (some false) e = absurd (cc)
  other-same w u tx (some true) e = test-some (is_authored p tx) w w u e refl

  -- A transaction that is accepted changes the promotions as the replay does.
  accept-replayed :
      (w u : Within) (tx : Transaction) → accept p c w tx ≡ some u → promotions_of u ≡ replayed w tx
  unfolding accept accept_certificate accept_promotion accept_attestation
  accept-replayed w u tx e =
      of (is_certificate tx.payload) (is_promotion tx.payload) (is_slash tx.payload)
        (is_attestation tx) refl refl e
    where
      promoted :
          (z : Bool)
          → promotion_ok p tx.payload w.block_validators c.registry
              (fresh_at c.height w.carried.effect_indices)
            ≡ z
          → is_promotion tx.payload ≡ true
          → (if z
              then some (record w {
                carried = record w.carried {
                  promoted = add (text_at "candidate" (fields tx)) w.carried.promoted;
                  effect_indices = w.carried.effect_indices ++ c.height ∷ [];
                };
                block_validators = add (text_at "candidate" (fields tx)) w.block_validators;
              })
              else none)
            ≡ some u
          → promotions_of u ≡ replayed w tx
      promoted false ok is q = absurd (cc)
      promoted true ok is q =
          ap promotions_of (sym (some-injective _ _ q)) ∙ sym (replayed-some w tx is ok)

      of :
          (certificate promotion slash attestation : Bool)
          → is_certificate tx.payload ≡ certificate
          → is_promotion tx.payload ≡ promotion
          → (if certificate
              then accept_certificate p c w (fields tx)
              else if promotion
              then accept_promotion p c w tx
              else if slash
              then (if validate_slash p tx.payload c.prefix (consensus_validators c.registry)
                  then some w
                  else none)
              else if attestation
              then accept_attestation p c w tx
              else accept_other p w tx (requires_signature tx))
            ≡ some u
          → promotions_of u ≡ replayed w tx
      of true promotion slash attestation ec ep q =
          test-some _ _ w u q refl
          ∙ sym (replayed-none w tx (is_certificate-is_promotion tx.payload ec))
      of false true slash attestation ec ep q =
          promoted
            (promotion_ok p tx.payload w.block_validators c.registry
              (fresh_at c.height w.carried.effect_indices))
            refl ep q
      of false false true attestation ec ep q =
          test-some _ w w u q refl ∙ sym (replayed-none w tx ep)
      of false false false true ec ep q = test-some _ _ w u q refl ∙ sym (replayed-none w tx ep)
      of false false false false ec ep q =
          other-same w u tx (requires_signature tx) q ∙ sym (replayed-none w tx ep)

  pub accept_all-replayed :
      (w u : Within) (txs : List Transaction)
      → accept_all p c w txs ≡ some u
      → promotions_of u ≡ apply_promotions p c.registry c.height (promotions_of w) txs
  unfolding accept_all apply_promotions
  accept_all-replayed w u [] e = ap promotions_of (sym (some-injective _ _ e))
  accept_all-replayed w u (tx ∷ txs) e =
      of (accept p c w tx) refl (λ w' q. accept_all-replayed w' u txs q) e
    where
      of :
          (o : Option Within)
          → accept p c w tx ≡ o
          → ((w' : Within)
              → accept_all p c w' txs ≡ some u
              → promotions_of u ≡ apply_promotions p c.registry c.height (promotions_of w') txs)
          → elim o [ none ↦ none | some w' ↦ accept_all p c w' txs ] ≡ some u
          → promotions_of u
            ≡ apply_promotions p c.registry c.height
                (apply_promotion p c.registry c.height (promotions_of w) tx)
                txs
      of none one rest q = absurd (cc)
      of (some w') one rest q =
          rest w' q
          ∙ ap (λ (s : Promotions). apply_promotions p c.registry c.height s txs)
              (accept-replayed w w' tx one)
