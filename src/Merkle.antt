-- ===== src/Merkle.antt =====
-- blockchain/merkle.py: the Merkle tree over transaction hashes. SHA-256 is not the repository's, so
-- `sha256` (the hex digest of a text's UTF-8 bytes) is a parameter of every definition that hashes.
pub mod Levels
pub mod Inclusion
pub mod Digests
pub mod Binding
pub mod Soundness
use hs_fob.Base.{
  ℕ, zero, suc, ◌+◌, ◌/◌, ◌%◌, ◌-◌, Bool, true, false, Option, none, some, List, [], ◌∷◌, ◌++◌,
  String, leb, length, get_or, last_or, if◌then◌else◌, ◌==◌, string_eq, nat_eq,
}
use Prim.Native.String.{◌++◌ as concat}

-- The `side` of a proof step. The source stores a text; `other` is any text but "left" and "right".
pub data Side : Type 0 where
  left right other : Side

-- `MerkleProof`
pub record MerkleProof : Type 0 where
  pub leaf_hash : String
  pub path : List (String × Side)

-- `list.index`, which raises on a missing element
unfoldable pub index_of : String → List String → Option ℕ
index_of x [] = none
index_of x (y ∷ ys) =
    if y == x then some 0 else elim (index_of x ys) [ none ↦ none | some i ↦ some (suc i) ]

-- A level of odd width gets its last node once more.
unfoldable pub pad : List String → List String
pad nodes = if length nodes % 2 == 0 then nodes else nodes ++ last_or "" nodes ∷ []

module _ (sha256 : String → String) where
  -- `EMPTY_ROOT`
  abbrev pub empty_root : String
  empty_root = sha256 ""

  -- `_hash_pair`
  abbrev pub hash_pair : String → String → String
  hash_pair l r = sha256 (concat l r)

  -- the list of `_hash_pair(current[i], current[i + 1])` for `i` in steps of two
  unfoldable pub parents : List String → List String
  parents [] = []
  parents (x ∷ []) = []
  parents (x ∷ y ∷ rest) = hash_pair x y ∷ parents rest

  -- The `while` loop of `_build_levels`, on fuel: the levels from `current` up.
  unfoldable pub build_from : ℕ → List String → List (List String)
  build_from zero current = current ∷ []
  build_from (suc fuel) current =
      let rest = build_from fuel (parents (pad current)) in
      if leb (length current) 1 then current ∷ [] else current ∷ rest

  -- `_build_levels`; as many rounds as there are leaves are enough, see Merkle/Levels
  unfoldable pub build_levels : List String → List (List String)
  build_levels [] = (empty_root ∷ []) ∷ []
  build_levels (x ∷ xs) = build_from (length (x ∷ xs)) (x ∷ xs)

  -- `MerkleTree.root`: `self._levels[-1][0]`
  unfoldable pub root : List String → String
  root leaves = get_or (last_or [] (build_levels leaves)) 0 ""

  -- one round of the loop in `proof`, at position `index` of a level that is not the last
  unfoldable pub proof_step : List String → ℕ → String × Side
  proof_step level index =
      if index % 2 == 0
      then (get_or (pad level) (index + 1) "", right)
      else (get_or (pad level) (index - 1) "", left)

  -- the loop in `proof` over `self._levels[:-1]`
  unfoldable pub path_from : List (List String) → ℕ → List (String × Side)
  path_from [] index = []
  path_from (level ∷ []) index = []
  path_from (level ∷ next ∷ levels) index =
      proof_step level index ∷ path_from (next ∷ levels) (index / 2)

  -- `MerkleTree.proof`; `none` is the ValueError of a transaction that is not in the tree
  unfoldable pub proof : List String → String → Option MerkleProof
  proof leaves leaf = elim (index_of leaf leaves) [
    | none ↦ none
    | some i ↦ some (record { leaf_hash = leaf; path = path_from (build_levels leaves) i })
  ]

  -- the loop in `verify`; `none` is the early `return False` on an unknown side
  unfoldable pub fold_path : String → List (String × Side) → Option String
  fold_path running [] = some running
  fold_path running ((sibling, right) ∷ path) = fold_path (hash_pair running sibling) path
  fold_path running ((sibling, left) ∷ path) = fold_path (hash_pair sibling running) path
  fold_path running ((sibling, other) ∷ path) = none

  -- `verify`
  unfoldable pub verify : MerkleProof → String → Bool
  unfolding fold_path
  verify p r = elim (fold_path p.leaf_hash p.path) [ none ↦ false | some running ↦ running == r ]
