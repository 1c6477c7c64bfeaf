-- ===== src/Registry/Weights.antt =====
-- Weights under credit and debit (reputation/registry.py).
use hs_fob.Base.{◌≡◌, ◌&&◌, [], String, string_eq, ◌==◌, if◌then◌else◌, arith, eq_iff}
use hs_fob.Base.Int.{ℤ, pos, ◌+ℤ◌, ◌-ℤ◌, max0}
use hs_fob.Base.Dict.{lookup_or, insert, lookup_or-insert}
use hs_fob.Registry.{ReputationRegistry, weight, put_weight, credit, debit}

pub weight-put_weight :
    (r : ReputationRegistry) (pubkey domain other field : String) (amount : ℤ)
    → weight (put_weight r pubkey domain amount) other field
      ≡ (if other == pubkey && field == domain then amount else weight r other field)
unfolding weight put_weight
weight-put_weight r pubkey domain other field amount = ground (
  arith,
  eq_iff other pubkey,
  lookup_or-insert [] pubkey other (insert domain amount (lookup_or [] pubkey r.weights)) r.weights,
  lookup_or-insert (pos 0) domain field amount (lookup_or [] pubkey r.weights),
)

module _ (r : ReputationRegistry) (pubkey domain other field : String) (amount : ℤ) where
  -- A credit raises one participant's weight in one domain by its amount, and nothing else.
  pub weight-credit : weight (credit r pubkey domain amount) other field ≡ (
      if other == pubkey && field == domain
      then weight r pubkey domain +ℤ amount
      else weight r other field)
  unfolding credit
  weight-credit = weight-put_weight r pubkey domain other field (weight r pubkey domain +ℤ amount)

  -- A debit lowers one participant's weight in one domain by its amount, or to 0 if that is more than
  -- the weight, and nothing else.
  pub weight-debit : weight (debit r pubkey domain amount) other field ≡ (
      if other == pubkey && field == domain
      then max0 (weight r pubkey domain -ℤ amount)
      else weight r other field)
  unfolding debit
  weight-debit =
      weight-put_weight r pubkey domain other field (max0 (weight r pubkey domain -ℤ amount))
