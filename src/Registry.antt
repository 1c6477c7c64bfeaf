-- ===== src/Registry.antt =====
-- reputation/registry.py: the weight of each participant in each competence domain.
pub mod Weights
pub mod Authorities
use hs_fob.Base.{
  ℕ, Bool, true, false, Option, none, some, List, [], ◌∷◌, String, string_eq, if◌then◌else◌, any,
}
use hs_fob.Base.Int.{ℤ, pos, ◌+ℤ◌, ◌-ℤ◌, max0, leb_ℤ, sum_ℤ}
use hs_fob.Base.Dict.{Dict, lookup, lookup_or, insert, keys, values}

abbrev pub Weights : Type 0
Weights = Dict String (Dict String ℤ)

-- `ReputationRegistry`, which owns a copy of the genesis mapping
pub record ReputationRegistry : Type 0 where
  pub weights : Weights

unfoldable pub new_registry : Weights → ReputationRegistry
new_registry genesis = record { weights = genesis }

-- `weight`
unfoldable pub weight : ReputationRegistry → String → String → ℤ
weight r pubkey domain = lookup_or (pos 0) domain (lookup_or [] pubkey r.weights)

-- `self._weights.setdefault(pubkey, {})[domain] = amount`
unfoldable pub put_weight : ReputationRegistry → String → String → ℤ → ReputationRegistry
put_weight r pubkey domain amount = record {
  weights = insert pubkey (insert domain amount (lookup_or [] pubkey r.weights)) r.weights;
}

-- `credit`
unfoldable pub credit : ReputationRegistry → String → String → ℤ → ReputationRegistry
unfolding put_weight weight
credit r pubkey domain amount = put_weight r pubkey domain (weight r pubkey domain +ℤ amount)

-- `debit`
unfoldable pub debit : ReputationRegistry → String → String → ℤ → ReputationRegistry
unfolding put_weight weight
debit r pubkey domain amount = put_weight r pubkey domain (max0 (weight r pubkey domain -ℤ amount))

-- `is_authority`
unfoldable pub is_authority : ReputationRegistry → String → ℤ → Bool
is_authority r pubkey threshold =
    any (λ w. leb_ℤ threshold w) (values (lookup_or [] pubkey r.weights))

-- the keys of a dict whose values pass a test
abbrev pub select : (Dict String ℤ → Bool) → Weights → List String
select test [] = []
select test ((pk, domains) ∷ rest) =
    if test domains then pk ∷ select test rest else select test rest

-- `authorities`
unfoldable pub authorities : ReputationRegistry → ℤ → List String
authorities r threshold =
    select (λ domains. any (λ w. leb_ℤ threshold w) (values domains)) r.weights

-- `authorities_in_domain`
unfoldable pub authorities_in_domain : ReputationRegistry → String → ℤ → List String
authorities_in_domain r domain threshold =
    select (λ domains. leb_ℤ threshold (lookup_or (pos 0) domain domains)) r.weights

-- `total_weight`
unfoldable pub total_weight : ReputationRegistry → String → ℤ
total_weight r pubkey = sum_ℤ (values (lookup_or [] pubkey r.weights))
