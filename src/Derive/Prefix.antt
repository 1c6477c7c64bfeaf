-- ===== src/Derive/Prefix.antt =====
-- The prefix rule (reputation/derive.py): what is derived for a block depends on the blocks before it,
-- and on nothing in it or after it.
use hs_fob.Base.{
  ℕ, zero, suc, ◌+◌, ◌≤◌, ◌<◌, ◌≡◌, refl, sym, ap, ◌∙◌, Option, none, some, List, [], ◌∷◌, ◌++◌,
  if◌then◌else◌, leb, take, length, arith,
}
use hs_fob.Crypto.{Platform}
use hs_fob.Block.{Block}
use hs_fob.Registry.{Weights, ReputationRegistry, new_registry}
use hs_fob.Derive.{consensus_validators, apply_block, replay, derive_registry}

-- The blocks of a chain carry their positions, counted from `n`.
abbrev pub IsIndexedFrom : ℕ → List Block → Type 0
IsIndexedFrom n [] = Unit
IsIndexedFrom n (b ∷ blocks) = (b.index ≡ n) × IsIndexedFrom (suc n) blocks

abbrev pub IsIndexed : List Block → Type 0
IsIndexed blocks = IsIndexedFrom 0 blocks

pub take-append : (k : ℕ) (xs ys : List Block) → k ≤ length xs → take k (xs ++ ys) ≡ take k xs
take-append zero xs ys h = refl
take-append (suc k) [] ys h = absurd (omega arith)
take-append (suc k) (x ∷ xs) ys h =
    ap (λ (l : List Block). x ∷ l) (take-append k xs ys (omega arith))

bind_cong :
    (o : Option ReputationRegistry) (f g : ReputationRegistry → Option ReputationRegistry)
    → ((r : ReputationRegistry) → f r ≡ g r)
    → elim o [ none ↦ none | some r ↦ f r ] ≡ elim o [ none ↦ none | some r ↦ g r ]
bind_cong none f g h = refl
bind_cong (some r) f g h = h r

module _ (p : Platform) (c1 c2 : List Block) (limit : ℕ)
    (agree : (k : ℕ) → k < limit → take k c1 ≡ take k c2) where
  replay-prefix :
      (xs ys zs : List Block) (n : ℕ) (r : ReputationRegistry)
      → IsIndexedFrom n (xs ++ ys)
      → IsIndexedFrom n (xs ++ zs)
      → n + length xs ≡ limit
      → replay p c1 limit r (xs ++ ys) ≡ replay p c2 limit r (xs ++ zs)
  unfolding replay
  replay-prefix [] [] [] n r iy iz e = refl
  replay-prefix [] [] (z ∷ zs) n r iy iz e = ground arith
  replay-prefix [] (y ∷ ys) [] n r iy iz e = ground arith
  replay-prefix [] (y ∷ ys) (z ∷ zs) n r iy iz e = ground arith
  replay-prefix (x ∷ xs) ys zs n r iy iz e =
      let before : x.index < limit = omega arith in
      let same = agree x.index before in
      rw same (
        ap (λ (z : Option ReputationRegistry). if leb limit x.index then some r else z)
          (bind_cong (apply_block p r x.transactions (take x.index c2) (consensus_validators r))
            (λ r'. replay p c1 limit r' (xs ++ ys)) (λ r'. replay p c2 limit r' (xs ++ zs))
            (λ r'. replay-prefix xs ys zs (suc n) r' iy.1 iz.1 (omega arith))))

-- Two chains whose blocks carry their positions and that agree on their first blocks derive one
-- reputation for the height after them, whatever follows.
pub derive_registry-prefix :
    (p : Platform) (shared ys zs : List Block) (genesis : Weights)
    → IsIndexed (shared ++ ys)
    → IsIndexed (shared ++ zs)
    → derive_registry p (shared ++ ys) (length shared) genesis
      ≡ derive_registry p (shared ++ zs) (length shared) genesis
unfolding derive_registry
derive_registry-prefix p shared ys zs genesis iy iz =
    replay-prefix p (shared ++ ys) (shared ++ zs) (length shared)
      (λ k h. take-append k shared ys (omega arith) ∙ sym (take-append k shared zs (omega arith)))
      shared ys zs 0 (new_registry genesis) iy iz (omega arith)
