-- ===== src/Consensus/Quorum.antt =====
-- The quorum rule (blockchain/blockchain.py, `quorum_size`): why two quorums of one validator set
-- share an honest validator, and what a minority cannot do.
use hs_fob.Base.{
  ◌*◌, ◌≤◌, ◌<◌, ◌≡◌, refl, true, false, not, List, [], ◌∷◌, String, arith, length, string_eq,
  eq_iff, ap, ◌∙◌,
}
use hs_fob.Base.Sets.{elem, Distinct, inter, minus, elem-keep, keep-Distinct}
use hs_fob.Base.Count.{Subset, length-inter-ge, length-le_of_Subset}
use hs_fob.Consensus.{quorum_size}

module _ (validators a b : List String) (da : Distinct a) (db : Distinct b)
    (sa : Subset a validators) (sb : Subset b validators)
    (qa : quorum_size (length validators) ≤ length a)
    (qb : quorum_size (length validators) ≤ length b) where
  -- Two lists of distinct validators that each reach the quorum have more than a third of the validators
  -- in common.
  pub quorum_overlap : length validators < 3 * length (inter a b)
  unfolding quorum_size
  quorum_overlap = omega (arith, length-inter-ge a b validators da db sa sb)

  -- Two lists of distinct validators that each reach the quorum share a validator outside every list of
  -- fewer than a third as many names as there are validators: with fewer than a third faulty, an
  -- honest validator stands in both.
  pub quorum-honest :
      (faulty : List String)
      → 3 * length faulty < length validators
      → (v : String) × (elem v a ≡ true) × (elem v b ≡ true) × (elem v faulty ≡ false)
  quorum-honest faulty few = found (minus (inter a b) faulty) refl
    where
      inside :
          (w : String)
          → elem w (inter a b) ≡ true
          → elem w (minus (inter a b) faulty) ≡ false
          → elem w faulty ≡ true
      inside w hw out = ground (arith, elem-keep (λ x. not (elem x faulty)) w (inter a b))

      outside :
          (w : String)
          → elem w (minus (inter a b) faulty) ≡ true
          → (v : String) × (elem v a ≡ true) × (elem v b ≡ true) × (elem v faulty ≡ false)
      outside w h = (
        w,
        ground (
          arith,
          elem-keep (λ x. not (elem x faulty)) w (inter a b),
          elem-keep (λ x. elem x b) w a,
        ),
        ground (
          arith,
          elem-keep (λ x. not (elem x faulty)) w (inter a b),
          elem-keep (λ x. elem x b) w a,
        ),
        ground (arith, elem-keep (λ x. not (elem x faulty)) w (inter a b)),
      )

      found :
          (l : List String)
          → minus (inter a b) faulty ≡ l
          → (v : String) × (elem v a ≡ true) × (elem v b ≡ true) × (elem v faulty ≡ false)
      found [] e =
          let shared =
            length-le_of_Subset (inter a b) faulty (keep-Distinct (λ x. elem x b) a da)
              (λ w hw. inside w hw (ap (elem w) e)) in
          absurd (omega (arith, shared, quorum_overlap))
      found (v ∷ l) e = outside v (ap (elem v) e ∙ ground (arith, eq_iff v v))

-- Distinct votes that all come from a minority of at most a third as many names as there are validators
-- are fewer than a quorum, if there is a validator at all.
pub minority-no-quorum :
    (validators minority votes : List String)
    → Distinct votes
    → ((v : String) → elem v votes ≡ true → elem v minority ≡ true)
    → 0 < length validators
    → 3 * length minority ≤ length validators
    → length votes < quorum_size (length validators)
unfolding quorum_size
minority-no-quorum validators minority votes d inside some_one few =
    omega (arith, length-le_of_Subset votes minority d inside)
