-- ===== src/Certificate/Coverage.antt =====
-- attestation/aggregator.py, `_required_items_covered`: neither the order of the required items nor a
-- repetition changes whether they are covered.
use hs_fob.Base.{
  ◌≡◌, refl, sym, ◌∙◌, Bool, true, List, [], ◌∷◌, String, string_eq, all, ==-refl, arith,
}
use hs_fob.Base.Int.{ℤ, int_eq}
use hs_fob.Base.Dict.{Dict, lookup_or}
use hs_fob.Base.Sets.{elem, to_set, elem-to_set}
use hs_fob.Base.Order.{sorted, int_ord, elem-sorted}
use hs_fob.Crypto.{Platform}
use hs_fob.Block.{Block}
use hs_fob.Tally.{Scope, positive_attesters_by_item}
use hs_fob.Certificate.{carries_weight, of_ints, item_covered, all_covered, required_items_covered}

module _ (f : ℤ → Bool) where
  all-elem : (n : ℤ) (ns : List ℤ) → all f ns ≡ true → elem n ns ≡ true → f n ≡ true
  all-elem n [] h e = cc
  all-elem n (m ∷ ns) h e = ground (arith, int_eq.equal_iff n m, all-elem n ns)

  all-within :
      (ms ns : List ℤ)
      → ((n : ℤ) → elem n ms ≡ true → elem n ns ≡ true)
      → all f ns ≡ true
      → all f ms ≡ true
  all-within [] ns sub h = refl
  all-within (m ∷ ms) ns sub h = ground (
    arith,
    ==-refl m,
    all-elem m ns h,
    sub m,
    all-within ms ns (λ n e. sub n (ground (arith, e))) h,
  )

  pub all-canonical : (ns : List ℤ) → all f (sorted (to_set ns)) ≡ all f ns
  all-canonical ns =
      let there =
        all-within (sorted (to_set ns)) ns
          (λ n e. sym (elem-to_set n ns) ∙ sym (elem-sorted n (to_set ns)) ∙ e) in
      let back =
        all-within ns (sorted (to_set ns))
          (λ n e. elem-sorted n (to_set ns) ∙ elem-to_set n ns ∙ e) in
      ground (arith, there, back)

module _ (p : Platform) (by_item : Dict ℤ (List String)) (w : String → ℤ) where
  -- an item that is not shown as uncovered
  abbrev pub backed : ℤ → Bool
  backed n = carries_weight w (lookup_or [] n by_item)

  pub all_covered-all : (ns : List ℤ) → all_covered p by_item w (of_ints ns) ≡ all backed ns
  unfolding item_covered
  all_covered-all [] = refl
  all_covered-all (n ∷ ns) = rw (all_covered-all ns) refl

pub required_items_covered-canonical :
    (p : Platform) (blocks : List Block) (scope : Scope) (required : List ℤ) (w : String → ℤ)
    → required_items_covered p blocks scope (of_ints (sorted (to_set required))) w
      ≡ required_items_covered p blocks scope (of_ints required) w
unfolding required_items_covered
required_items_covered-canonical p blocks scope required w =
    let by_item = positive_attesters_by_item blocks scope in
    all_covered-all p by_item w (sorted (to_set required))
    ∙ all-canonical (backed p by_item w) required
    ∙ sym (all_covered-all p by_item w required)
