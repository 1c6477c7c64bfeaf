-- ===== src/Tally.antt =====
-- reputation/tally.py: who backs a claim, with how much weight, and how much of a cartel's counts.
use hs_fob.Base.{
  ℕ, zero, suc, ◌+◌, ◌*◌, ◌/◌, Bool, false, ◌&&◌, ◌||◌, List, [], ◌∷◌, ◌++◌, map, String, string_eq,
  ◌==◌, if◌then◌else◌, leb, length,
}
use hs_fob.Base.Int.{ℤ, pos, negsuc, ◌+ℤ◌, min_ℤ, sum_ℤ, int_eq}
use hs_fob.Base.Dict.{Dict, lookup_or, insert, values}
use hs_fob.Base.Sets.{add, to_set}
use hs_fob.Base.Order.{sorted, string_ord, text_less}
use hs_fob.Values.{Value, bool, Fields, equals_str, field_is, text_at, int_at}
use hs_fob.Transaction.{Transaction}
use hs_fob.Block.{Block}
use hs_fob.Attestation.{is_attestation, fields}
use hs_fob.Registry.{ReputationRegistry, weight}

-- The four values that a claim is about. A certificate's payload may hold anything there, `None` for
-- a missing key included; a claim made by `certify` holds texts.
pub record Scope : Type 0 where
  pub subject : Value
  pub rubric_root : Value
  pub domain : Value
  pub submission : Value

-- `for block in chain.blocks: for tx in block.transactions`
abbrev pub all_transactions : List Block → List Transaction
all_transactions [] = []
all_transactions (b ∷ blocks) = b.transactions ++ all_transactions blocks

-- `v is True`
abbrev pub is_true : Value → Bool
is_true (bool b) = b
is_true _ = false

-- the tests in the loop of `positive_attesters`, on an attestation's fields
unfoldable pub supports : Scope → Fields → Bool
supports scope fs =
    equals_str (text_at "subject" fs) scope.subject
    && equals_str (text_at "rubric_root" fs) scope.rubric_root
    && equals_str (text_at "domain" fs) scope.domain
    && equals_str (text_at "submission_tx_hash" fs) scope.submission
    && field_is is_true "verdict" fs

unfoldable pub supporters : Scope → List Transaction → List String
unfolding supports
supporters scope [] = []
supporters scope (tx ∷ txs) =
    if is_attestation tx && supports scope (fields tx)
    then tx.sender ∷ supporters scope txs
    else supporters scope txs

-- `positive_attesters`
unfoldable pub positive_attesters : List Block → Scope → List String
unfolding supporters
positive_attesters blocks scope = to_set (supporters scope (all_transactions blocks))

-- the loop of `positive_attesters_by_item`
unfoldable pub by_item_from : Scope → Dict ℤ (List String) → List Transaction → Dict ℤ (List String)
by_item_from scope found [] = found
by_item_from scope found (tx ∷ txs) =
    let item = int_at "item_index" (fields tx) in
    by_item_from scope
      (if is_attestation tx && supports scope (fields tx)
        then insert item (add tx.sender (lookup_or [] item found)) found
        else found)
      txs

-- `positive_attesters_by_item`
unfoldable pub positive_attesters_by_item : List Block → Scope → Dict ℤ (List String)
unfolding by_item_from
positive_attesters_by_item blocks scope = by_item_from scope [] (all_transactions blocks)

-- `weighted_support`; the domain of the scope is the text that weights are looked up under
unfoldable pub weighted_support : List Block → ReputationRegistry → Scope → String → ℤ
weighted_support blocks registry scope domain =
    sum_ℤ (map (λ a. weight registry a domain) (positive_attesters blocks scope))

-- `_positive_pairs`
unfoldable pub pairs_of : List Transaction → List (String × String)
pairs_of [] = []
pairs_of (tx ∷ txs) =
    if is_attestation tx && field_is is_true "verdict" (fields tx)
    then (tx.sender, text_at "subject" (fields tx)) ∷ pairs_of txs
    else pairs_of txs

abbrev pub has_pair : String → String → List (String × String) → Bool
has_pair a b [] = false
has_pair a b ((x, y) ∷ pairs) = (a == x && b == y) || has_pair a b pairs

-- The union-find forest of `attester_clusters`: `parent`.
abbrev pub Forest : Type 0
Forest = Dict String String

-- `{a: a for a in attesters}`
abbrev pub singletons : List String → Forest
singletons [] = []
singletons (a ∷ as') = (a, a) ∷ singletons as'

-- `parent[x]`
abbrev pub parent_of : Forest → String → String
parent_of parent x = lookup_or x x parent

-- `find`, with its path compression, on fuel
unfoldable pub find : ℕ → Forest → String → String × Forest
find zero parent x = (x, parent)
find (suc fuel) parent x =
    let halved = insert x (parent_of parent (parent_of parent x)) parent in
    let rest = find fuel halved (parent_of halved x) in
    if parent_of parent x == x then (x, parent) else rest

-- `union`: the larger root goes under the smaller
unfoldable pub unite : ℕ → Forest → String → String → Forest
unfolding find
unite fuel parent a b =
    let (ra, p1) = find fuel parent a in
    let (rb, p2) = find fuel p1 b in
    if ra == rb then p2 else if text_less rb ra then insert ra rb p2 else insert rb ra p2

-- the inner loop over `ordered[i + 1:]`
unfoldable pub unite_later : ℕ → List (String × String) → String → Forest → List String → Forest
unfolding unite
unite_later fuel pairs a parent [] = parent
unite_later fuel pairs a parent (b ∷ later) =
    unite_later fuel pairs a
      (if has_pair a b pairs && has_pair b a pairs then unite fuel parent a b else parent) later

-- the outer loop over `ordered`
unfoldable pub unite_all : ℕ → List (String × String) → Forest → List String → Forest
unfolding unite_later
unite_all fuel pairs parent [] = parent
unite_all fuel pairs parent (a ∷ later) =
    unite_all fuel pairs (unite_later fuel pairs a parent later) later

-- the loop that groups the attesters by their root
unfoldable pub group :
    ℕ → Forest → Dict String (List String) → List String → Dict String (List String)
unfolding find
group fuel parent clusters [] = clusters
group fuel parent clusters (a ∷ rest) =
    let (root, parent') = find fuel parent a in
    group fuel parent' (insert root (add a (lookup_or [] root clusters)) clusters) rest

-- `attester_clusters`; a chain of parents is no longer than there are attesters
unfoldable pub attester_clusters : List Block → List String → List (List String)
unfolding pairs_of unite_all group
attester_clusters blocks attesters =
    let fuel = length attesters in
    let forest =
      unite_all fuel (pairs_of (all_transactions blocks)) (singletons attesters)
        (sorted attesters) in
    values (group fuel forest [] attesters)

-- `ALPHA_NUM`, `ALPHA_DEN`
abbrev pub alpha_num : ℕ
alpha_num = 34

abbrev pub alpha_den : ℕ
alpha_den = 100

-- `(ALPHA_NUM * total) // ALPHA_DEN`, which rounds down
abbrev pub cap_of : ℤ → ℤ
cap_of (pos n) = pos (alpha_num * n / alpha_den)
cap_of (negsuc n) = negsuc ((alpha_num * n + 33) / alpha_den)

-- `sum(weights[a] for a in cluster)`. `weights` is `{a: weight(a) for a in attesters}`: a function.
abbrev pub cluster_weight : (String → ℤ) → List String → ℤ
cluster_weight w [] = pos 0
cluster_weight w (a ∷ as') = w a +ℤ cluster_weight w as'

-- what a cluster contributes
abbrev pub clamped : (String → ℤ) → ℤ → List String → ℤ
clamped w cap cluster =
    if leb 2 (length cluster)
    then min_ℤ (cluster_weight w cluster) cap
    else cluster_weight w cluster

abbrev pub clamped_sum : (String → ℤ) → ℤ → List (List String) → ℤ
clamped_sum w cap [] = pos 0
clamped_sum w cap (c ∷ clusters) = clamped w cap c +ℤ clamped_sum w cap clusters

-- `capped_support`
unfoldable pub capped_support : List Block → List String → (String → ℤ) → ℤ
capped_support blocks attesters w =
    clamped_sum w (cap_of (cluster_weight w attesters)) (attester_clusters blocks attesters)
