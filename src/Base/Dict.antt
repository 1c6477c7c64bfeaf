-- ===== src/Base/Dict.antt =====
-- A Python dict as an association list in insertion order.
use mathlib.Core.Path.{◌≡◌, refl}
use mathlib.Core.Bool.{Bool, true, false, ◌||◌}
use mathlib.Core.List.{List, [], ◌∷◌}
use mathlib.Core.Option.{Option, none, some}
use native.Mathlib.Omega.{arith}
use hs_fob.Base.Tests.{Eq, ◌==◌, if◌then◌else◌}
use hs_fob.Base.Sets.{elem, Distinct}

abbrev pub Dict {ℓ κ} : Type ℓ → Type κ → Type (ℓ ⊔ κ)
Dict K V = List (K × V)

module _ {ℓ κ} {K : Type ℓ} {V : Type κ} ⦃e : Eq K⦄ where
  -- `d.get(k)`
  abbrev pub lookup : K → Dict K V → Option V
  lookup k [] = none
  lookup k ((j, v) ∷ d) = if k == j then some v else lookup k d

  -- `d.get(k, default)`
  abbrev pub lookup_or : V → K → Dict K V → V
  lookup_or z k d = elim (lookup k d) [ none ↦ z | some v ↦ v ]

  -- `k in d`
  abbrev pub contains : K → Dict K V → Bool
  contains k d = elim (lookup k d) [ none ↦ false | some _ ↦ true ]

  -- `d[k] = v`: an old key keeps its place
  abbrev pub insert : K → V → Dict K V → Dict K V
  insert k v [] = (k, v) ∷ []
  insert k v ((j, w) ∷ d) = if k == j then (j, v) ∷ d else (j, w) ∷ insert k v d

  -- `d.pop(k)` where `k` is known to be there
  abbrev pub erase : K → Dict K V → Dict K V
  erase k [] = []
  erase k ((j, w) ∷ d) = if k == j then d else (j, w) ∷ erase k d

  -- `d.keys()`
  abbrev pub keys : Dict K V → List K
  keys [] = []
  keys ((j, w) ∷ d) = j ∷ keys d

  pub lookup-insert :
      (k j : K) (v : V) (d : Dict K V)
      → lookup j (insert k v d) ≡ (if j == k then some v else lookup j d)
  lookup-insert k j v [] = refl
  lookup-insert k j v ((i, w) ∷ d) =
      ground (arith, e.equal_iff j k, e.equal_iff k i, e.equal_iff j i, lookup-insert k j v d)

  pub lookup_or-insert :
      (z : V) (k j : K) (v : V) (d : Dict K V)
      → lookup_or z j (insert k v d) ≡ (if j == k then v else lookup_or z j d)
  lookup_or-insert z k j v d = ground (arith, lookup-insert k j v d)

  -- `d.values()`
  abbrev pub values : Dict K V → List V
  values [] = []
  values ((j, w) ∷ d) = w ∷ values d

  pub elem-keys : (k : K) (d : Dict K V) → elem k (keys d) ≡ contains k d
  elem-keys k [] = refl
  elem-keys k ((j, w) ∷ d) = ground (arith, elem-keys k d)

  pub elem-keys-insert :
      (k j : K) (v : V) (d : Dict K V) → elem j (keys (insert k v d)) ≡ (j == k || elem j (keys d))
  elem-keys-insert k j v [] = refl
  elem-keys-insert k j v ((i, w) ∷ d) =
      ground (arith, e.equal_iff j k, e.equal_iff k i, e.equal_iff j i, elem-keys-insert k j v d)

  -- A write keeps the keys distinct.
  pub insert-Distinct :
      (k : K) (v : V) (d : Dict K V) → Distinct (keys d) → Distinct (keys (insert k v d))
  insert-Distinct k v [] h = (refl, tt)
  insert-Distinct k v ((i, w) ∷ d) h =
      ground (
        arith,
        e.equal_iff k i,
        e.equal_iff i k,
        elem-keys-insert k i v d,
        insert-Distinct k v d h.1,
      )

  -- The second of two writes of one entry changes nothing.
  pub insert-insert : (k : K) (v : V) (d : Dict K V) → insert k v (insert k v d) ≡ insert k v d
  insert-insert k v [] = ground (arith, e.equal_iff k k)
  insert-insert k v ((j, w) ∷ d) = ground (arith, e.equal_iff k j, insert-insert k v d)

  pub lookup_or-cons :
      (z : V) (k j : K) (v : V) (d : Dict K V)
      → lookup_or z k ((j, v) ∷ d) ≡ (if k == j then v else lookup_or z k d)
  lookup_or-cons z k j v d = ground arith

  pub lookup_or-head :
      (z : V) (k j : K) (v : V) (d : Dict K V) → (k == j) ≡ true → lookup_or z k ((j, v) ∷ d) ≡ v
  lookup_or-head z k j v d h = ground arith

  pub lookup_or-tail :
      (z : V) (k j : K) (v : V) (d : Dict K V)
      → (k == j) ≡ false
      → lookup_or z k ((j, v) ∷ d) ≡ lookup_or z k d
  lookup_or-tail z k j v d h = ground arith
