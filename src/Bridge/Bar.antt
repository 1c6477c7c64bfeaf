-- ===== src/Bridge/Bar.antt =====
-- network/http_bridge.py, `_submissions_payload`: what the panel shows of a submission is the bar that
-- attestation/aggregator.py sets.
use hs_fob.Base.{
  ◌≡◌, refl, sym, ◌∙◌, Bool, true, false, ◌&&◌, not, Option, none, some, List, [], ◌∷◌, String,
  if◌then◌else◌, keep, all, arith, ==-refl,
}
use hs_fob.Base.Int.{ℤ, int_eq, ltb_ℤ}
use hs_fob.Base.Dict.{Dict}
use hs_fob.Base.Sets.{elem, to_set, elem-keep}
use hs_fob.Base.Order.{sorted, int_ord}
use hs_fob.Values.{Value, str}
use hs_fob.Crypto.{Platform}
use hs_fob.Block.{Block}
use hs_fob.Registry.{ReputationRegistry, weight}
use hs_fob.Tally.{Scope, positive_attesters, positive_attesters_by_item, capped_support}
use hs_fob.Certificate.{of_ints, all_covered, required_items_covered, certify}
use hs_fob.Certificate.Coverage.{all-canonical, all_covered-all, backed}
use hs_fob.Rubric.{Rubric}
use hs_fob.Bridge.Panel.{coverage}

abbrev pub is_empty : List ℤ → Bool
is_empty [] = true
is_empty (n ∷ ns) = false

abbrev pub issues : {A : Type 0} → Option A → Bool
issues none = false
issues (some a) = true

module _ (f : ℤ → Bool) where
  uncovered-empty :
      (required ms : List ℤ)
      → ((n : ℤ) → elem n ms ≡ true → elem n required ≡ true)
      → is_empty (keep (λ n. not (elem n (keep f required))) ms) ≡ all f ms
  uncovered-empty required [] sub = refl
  uncovered-empty required (m ∷ ms) sub = ground (
    arith,
    ==-refl m,
    sub m,
    elem-keep f m required,
    uncovered-empty required ms (λ n e. sub n (ground (arith, e))),
  )

-- the required items of a rubric, if the node knows it
abbrev pub items_of_rubric : Option Rubric → List ℤ
items_of_rubric none = []
items_of_rubric (some rubric) = rubric.required_items

module _ (p : Platform) (by_item : Dict ℤ (List String)) (w : String → ℤ) where
  no_uncovered :
      (known : Option Rubric)
      → all_covered p by_item w (of_ints (sorted (to_set (items_of_rubric known))))
        ≡ is_empty (coverage known by_item w).uncovered
  unfolding coverage
  no_uncovered none = refl
  no_uncovered (some rubric) =
      all_covered-all p by_item w (sorted (to_set rubric.required_items))
      ∙ all-canonical (backed p by_item w) rubric.required_items
      ∙ sym (
          uncovered-empty (backed p by_item w) rubric.required_items rubric.required_items
            (λ n e. e))

module _ (p : Platform) (blocks : List Block) (registry : ReputationRegistry)
    (subject rubric_root domain submission : String) where
  abbrev pub scope : Scope
  scope = record {
    subject = str subject;
    rubric_root = str rubric_root;
    domain = str domain;
    submission = str submission;
  }

  abbrev pub weights : String → ℤ
  weights a = weight registry a domain

  pub certify-coverage :
      (known : Option Rubric) (threshold : ℤ) (issuer : String) (now : Value)
      → issues (
          certify p blocks registry subject rubric_root domain submission threshold
            (items_of_rubric known)
            issuer
            now)
        ≡ (not (ltb_ℤ (capped_support blocks (positive_attesters blocks scope) weights) threshold)
            && is_empty
                (coverage known (positive_attesters_by_item blocks scope) weights).uncovered)
  unfolding certify required_items_covered
  certify-coverage known threshold issuer now =
      of (ltb_ℤ (capped_support blocks (positive_attesters blocks scope) weights) threshold)
        (all_covered p (positive_attesters_by_item blocks scope) weights
          (of_ints (sorted (to_set (items_of_rubric known)))))
        (is_empty (coverage known (positive_attesters_by_item blocks scope) weights).uncovered)
        (no_uncovered p (positive_attesters_by_item blocks scope) weights known) _
    where
      of :
          (low covered shown : Bool)
          → covered ≡ shown
          → {A : Type 0} (made : A)
          → issues (if low then none else if covered then some made else none) ≡ (not low && shown)
      of true covered shown e made = refl
      of false true shown e made = e
      of false false shown e made = e
