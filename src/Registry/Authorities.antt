-- ===== src/Registry/Authorities.antt =====
-- Who is an authority (reputation/registry.py), and that competence does not make one.
use hs_fob.Base.{
  ◌≡◌, ◌≢◌, refl, sym, ◌∙◌, Bool, false, [], ◌∷◌, String, string_eq, arith, eq_iff, ap,
}
use hs_fob.Base.Int.{ℤ, pos, ◌+ℤ◌, ◌-ℤ◌, max0, ◌≤ℤ◌, leb_ℤ}
use hs_fob.Base.Dict.{Dict, lookup_or, insert, keys, insert-Distinct}
use hs_fob.Base.Sets.{elem, Distinct}
use hs_fob.Registry.{
  ReputationRegistry, Weights, weight, put_weight, credit, debit, select, authorities_in_domain,
}
use hs_fob.Registry.Weights.{weight-credit}

-- The table is a dict: no participant has two entries.
abbrev pub IsTable : ReputationRegistry → Type 0
IsTable r = Distinct (keys r.weights)

pub put_weight-IsTable :
    (r : ReputationRegistry) (pubkey domain : String) (amount : ℤ)
    → IsTable r
    → IsTable (put_weight r pubkey domain amount)
unfolding put_weight
put_weight-IsTable r pubkey domain amount h =
    insert-Distinct pubkey (insert domain amount (lookup_or [] pubkey r.weights)) r.weights h

select-keys :
    (test : Dict String ℤ → Bool) (pk : String) (w : Weights)
    → elem pk (keys w) ≡ false
    → elem pk (select test w) ≡ false
select-keys test pk [] h = refl
select-keys test pk ((j, d) ∷ w) h = ground (arith, select-keys test pk w)

elem-select :
    (test : Dict String ℤ → Bool) (pk : String) (w : Weights)
    → Distinct (keys w)
    → test [] ≡ false
    → elem pk (select test w) ≡ test (lookup_or [] pk w)
elem-select test pk [] d h = sym h
elem-select test pk ((j, ds) ∷ w) d h =
    ground (arith, eq_iff pk j, eq_iff j j, elem-select test pk w d.1 h, select-keys test j w d.0)

select-Distinct :
    (test : Dict String ℤ → Bool) (w : Weights) → Distinct (keys w) → Distinct (select test w)
select-Distinct test [] d = tt
select-Distinct test ((j, ds) ∷ w) d =
    ground (arith, select-Distinct test w d.1, select-keys test j w d.0)

pub authorities_in_domain-Distinct :
    (r : ReputationRegistry) (domain : String) (t : ℤ)
    → IsTable r
    → Distinct (authorities_in_domain r domain t)
unfolding authorities_in_domain
authorities_in_domain-Distinct r domain t h = select-Distinct _ r.weights h

-- In a table with one entry per participant and at a positive threshold, the authorities of a domain are exactly those whose weight there reaches it.
pub elem-authorities_in_domain :
    (r : ReputationRegistry) (pk domain : String) (threshold : ℤ)
    → IsTable r
    → pos 1 ≤ℤ threshold
    → elem pk (authorities_in_domain r domain threshold) ≡ leb_ℤ threshold (weight r pk domain)
unfolding authorities_in_domain weight
elem-authorities_in_domain r pk domain threshold h p =
    elem-select (λ domains. leb_ℤ threshold (lookup_or (pos 0) domain domains)) pk r.weights h
      (ground arith)

pub credit-IsTable :
    (r : ReputationRegistry) (pubkey domain : String) (amount : ℤ)
    → IsTable r
    → IsTable (credit r pubkey domain amount)
unfolding credit
credit-IsTable r pubkey domain amount =
    put_weight-IsTable r pubkey domain (weight r pubkey domain +ℤ amount)

pub debit-IsTable :
    (r : ReputationRegistry) (pubkey domain : String) (amount : ℤ)
    → IsTable r
    → IsTable (debit r pubkey domain amount)
unfolding debit
debit-IsTable r pubkey domain amount =
    put_weight-IsTable r pubkey domain (max0 (weight r pubkey domain -ℤ amount))

-- In a table with one entry per participant and at a positive threshold, credit in one domain makes nobody an authority of another, and takes nobody's authority there.
pub authorities-credit_elsewhere :
    (r : ReputationRegistry) (pubkey domain consensus pk : String) (amount threshold : ℤ)
    → IsTable r
    → pos 1 ≤ℤ threshold
    → consensus ≢ domain
    → elem pk (authorities_in_domain (credit r pubkey domain amount) consensus threshold)
      ≡ elem pk (authorities_in_domain r consensus threshold)
authorities-credit_elsewhere r pubkey domain consensus pk amount threshold h p apart =
    elem-authorities_in_domain (credit r pubkey domain amount) pk consensus threshold
      (credit-IsTable r pubkey domain amount h) p
    ∙ ap (leb_ℤ threshold) same
    ∙ sym (elem-authorities_in_domain r pk consensus threshold h p)
  where
    same : weight (credit r pubkey domain amount) pk consensus ≡ weight r pk consensus
    same =
        rw (weight-credit r pubkey domain pk consensus amount)
          (ground (arith, eq_iff consensus domain, apart))
