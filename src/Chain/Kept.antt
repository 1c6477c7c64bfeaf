-- ===== src/Chain/Kept.antt =====
-- Fork choice keeps what is final (blockchain/blockchain.py, `_finalized_blocks` and
-- `_reverts_our_finality`).
use mathlib.Core.Option.{some-injective}
use hs_fob.Base.{
  ℕ, zero, suc, ◌+◌, ◌<◌, ◌≡◌, refl, sym, ap, ◌∙◌, Bool, true, false, Bool-cases, inl, inr, Option,
  none, some, List, [], ◌∷◌, String, string_eq, nat_eq, ◌==◌, eq_iff, if◌then◌else◌, arith,
  get_elem?,
}
use hs_fob.Base.Dict.{Dict, lookup, insert, lookup-insert}
use hs_fob.Crypto.{Platform}
use hs_fob.Block.{Block, hash}
use hs_fob.Derive.Prefix.{IsIndexed, IsIndexedFrom}
use hs_fob.Chain.{Blockchain, is_final, finalized_from, finalized_blocks, reverts}
use hs_fob.Chain.Choice.{preferred, ranked, reverts_our_finality}

module _ (p : Platform) where
  -- entries below the blocks that are left stay
  finalized_from-below :
      (c : Blockchain) (blocks : List Block) (n k : ℕ) (found : Dict ℕ String) {all : Dict ℕ String}
      → IsIndexedFrom n blocks
      → k < n
      → finalized_from p c found blocks ≡ some all
      → lookup k all ≡ lookup k found
  unfolding finalized_from
  finalized_from-below c [] n k found i h e = ap (lookup k) (sym (some-injective _ _ e))
  finalized_from-below c (b ∷ blocks) n k found {all} (here, i) h e =
      of (is_final p c b)
        (λ found' run. finalized_from-below c blocks (suc n) k found' i (omega arith) run) e
    where
      of :
          (o : Option Bool)
          → ((found' : Dict ℕ String)
              → finalized_from p c found' blocks ≡ some all
              → lookup k all ≡ lookup k found')
          → elim o [
            | none ↦ none
            | some final ↦
                finalized_from p c (if final then insert b.index (hash p b) found else found) blocks
          ]
            ≡ some all
          → lookup k all ≡ lookup k found
      of none rest q = absurd (cc)
      of (some false) rest q = rest found q
      of (some true) rest q =
          rest (insert b.index (hash p b) found) q
          ∙ lookup-insert b.index k (hash p b) found
          ∙ ground (arith, here)

  -- each final block has its entry
  finalized_from-final :
      (c : Blockchain) (blocks : List Block) (n i : ℕ) (b : Block) (found : Dict ℕ String)
      {all : Dict ℕ String}
      → IsIndexedFrom n blocks
      → get_elem? blocks i ≡ some b
      → is_final p c b ≡ some true
      → finalized_from p c found blocks ≡ some all
      → (b.index ≡ n + i) × (lookup b.index all ≡ some (hash p b))
  unfolding finalized_from
  finalized_from-final c [] n i b found ix place_i final e = absurd (cc)
  finalized_from-final c (x ∷ blocks) n zero b found {all} (here, ix) place_i final e =
      let same : x ≡ b = some-injective _ _ place_i in
      let run : finalized_from p c (insert x.index (hash p x) found) blocks ≡ some all =
        sym (rw (ap (is_final p c) same ∙ final, finalized_from) refl) ∙ e in
      (
        omega (arith, here, ap Block.index same),
        ap (λ (z : Block). lookup z.index all) (sym same)
            ∙ finalized_from-below c blocks (suc n) x.index (insert x.index (hash p x) found) ix
                (omega arith) run
            ∙ lookup-insert x.index x.index (hash p x) found
            ∙ ground arith
            ∙ ap (λ (z : Block). some (hash p z)) same,
      )
  finalized_from-final c (x ∷ blocks) n (suc i) b found {all} (here, ix) place_i final e =
      of (is_final p c x)
        (λ found' run. finalized_from-final c blocks (suc n) i b found' ix place_i final run) e
    where
      of :
          (o : Option Bool)
          → ((found' : Dict ℕ String)
              → finalized_from p c found' blocks ≡ some all
              → (b.index ≡ suc n + i) × (lookup b.index all ≡ some (hash p b)))
          → elim o [
            | none ↦ none
            | some final ↦
                finalized_from p c (if final then insert x.index (hash p x) found else found) blocks
          ]
            ≡ some all
          → (b.index ≡ n + suc i) × (lookup b.index all ≡ some (hash p b))
      of none rest q = absurd (cc)
      of (some z) rest q =
          let (place, entry) = rest (if z then insert x.index (hash p x) found else found) q in
          (omega (arith, place), entry)

  -- what is not reverted is there
  reverts-lookup :
      (found : Dict ℕ String) (candidate : List Block) (k : ℕ) (h : String)
      → reverts p found candidate ≡ false
      → lookup k found ≡ some h
      → (b : Block) × (get_elem? candidate k ≡ some b) × (hash p b ≡ h)
  unfolding reverts
  reverts-lookup [] candidate k h r e = absurd (cc)
  reverts-lookup ((j, g) ∷ found) candidate k h r e =
      of (get_elem? candidate j) (λ r' e'. reverts-lookup found candidate k h r' e') refl r
    where
      of :
          (o : Option Block)
          → (reverts p found candidate ≡ false
              → lookup k found ≡ some h
              → (b : Block) × (get_elem? candidate k ≡ some b) × (hash p b ≡ h))
          → get_elem? candidate j ≡ o
          → elim o [
            | none ↦ true
            | some b ↦ if hash p b == g then reverts p found candidate else true
          ]
            ≡ false
          → (b : Block) × (get_elem? candidate k ≡ some b) × (hash p b ≡ h)
      of none rest q s = absurd (cc)
      of (some b) rest q s = elim (Bool-cases (k == j)) [
        | inl same ↦
            let place : k ≡ j = ground (arith, same) in
            let hashed : hash p b ≡ g = ground (arith, s, eq_iff (hash p b) g) in
            let entry : lookup k ((j, g) ∷ found) ≡ some g = rw same refl in
            (b, ap (get_elem? candidate) place ∙ q, hashed ∙ some-injective _ _ (sym entry ∙ e))
        | inr differ ↦ rest (ground (arith, s)) (ground (arith, e, differ))
      ]

  -- Fork choice never reverts finality. If it prefers a candidate to our chain, whose blocks carry their
  -- positions, then every block that is final in our chain stands in the candidate at the same height,
  -- with the same hash.
  pub preferred-keeps_final :
      (ours candidate : Blockchain) (i : ℕ) (b : Block)
      → IsIndexed ours.blocks
      → get_elem? ours.blocks i ≡ some b
      → is_final p ours b ≡ some true
      → preferred p ours candidate ≡ some true
      → (b' : Block) × (get_elem? candidate.blocks i ≡ some b') × (hash p b' ≡ hash p b)
  unfolding preferred reverts_our_finality finalized_blocks
  preferred-keeps_final ours candidate i b ix place_i final e =
      kept (finalized_blocks p ours) refl (spared (reverts_our_finality p ours candidate) refl e)
    where
      spared :
          (w : Option Bool)
          → reverts_our_finality p ours candidate ≡ w
          → elim w [ none ↦ none | some true ↦ some false | some false ↦ ranked p ours candidate ]
            ≡ some true
          → reverts_our_finality p ours candidate ≡ some false
      spared none q r = absurd (cc)
      spared (some true) q r = absurd (cc)
      spared (some false) q r = q

      kept :
          (o : Option (Dict ℕ String))
          → finalized_blocks p ours ≡ o
          → elim o [ none ↦ none | some found ↦ some (reverts p found candidate.blocks) ]
            ≡ some false
          → (b' : Block) × (get_elem? candidate.blocks i ≡ some b') × (hash p b' ≡ hash p b)
      kept none q r = absurd (cc)
      kept (some found) q r =
          let (place, entry) = finalized_from-final ours ours.blocks 0 i b [] ix place_i final q in
          let (b', there, same) =
            reverts-lookup found candidate.blocks b.index (hash p b) (some-injective _ _ r) entry in
          let height : i ≡ b.index = omega (arith, place) in
          (b', ap (get_elem? candidate.blocks) height ∙ there, same)
