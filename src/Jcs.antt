-- ===== src/Jcs.antt =====
-- credentials/jcs.py: the canonical JSON text that a credential is signed over. `json.dumps` of a
-- text and of an integer are parameters.
use Prim.Native.Char.{Char, code}
use hs_fob.Base.{
  ℕ, ◌+◌, ◌-◌, ◌/◌, ◌%◌, Bool, true, false, Option, none, some, List, [], ◌∷◌, ◌++◌, String, ltb,
  ◌==◌, nat_eq, if◌then◌else◌, ◌&&◌, ◌||◌,
}
use hs_fob.Base.Int.{ℤ}
use hs_fob.Base.Errors.{◌>>=◌}
use hs_fob.Base.Text.{chars, joined}
use hs_fob.Values.{
  Value, Items, Fields, null, bool, int, float, str, list, dict, nil, cons, end, field,
}

-- The standard library's rendering of what stands inside a JSON text.
pub record Encoder : Type 0 where
  -- `json.dumps(text, ensure_ascii=False)`
  pub quote : String → String
  -- `str(n)`
  pub show : ℤ → String

-- A character's UTF-16 code units
abbrev units : ℕ → List ℕ
units c =
    if ltb c 65536 then c ∷ [] else (55296 + (c - 65536) / 1024) ∷ (56320 + (c - 65536) % 1024) ∷ []

abbrev units_of : List Char → List ℕ
units_of [] = []
units_of (c ∷ cs) = units (code c) ++ units_of cs

-- `_sort_key`
unfoldable pub sort_key : String → List ℕ
sort_key key = units_of (chars key)

-- `a < b` on tuples of integers
abbrev pub tuple_less : List ℕ → List ℕ → Bool
tuple_less [] [] = false
tuple_less [] (b ∷ bs) = true
tuple_less (a ∷ as_) [] = false
tuple_less (a ∷ as_) (b ∷ bs) = ltb a b || (a == b && tuple_less as_ bs)

abbrev pub insert_by_key : String × String → List (String × String) → List (String × String)
insert_by_key kv [] = kv ∷ []
insert_by_key kv (x ∷ xs) =
    if tuple_less (sort_key x.0) (sort_key kv.0) then x ∷ insert_by_key kv xs else kv ∷ x ∷ xs

-- `sorted(…, key=lambda kv: _sort_key(kv[0]))`
abbrev pub sort_by_key : List (String × String) → List (String × String)
sort_by_key [] = []
sort_by_key (x ∷ xs) = insert_by_key x (sort_by_key xs)

-- `",".join(…)`
abbrev pub comma_joined : List (List Char) → List Char
comma_joined [] = []
comma_joined (t ∷ []) = t
comma_joined (t ∷ u ∷ us) = t ++ chars "," ++ comma_joined (u ∷ us)

module _ (e : Encoder) where
  abbrev pairs : List (String × String) → List (List Char)
  pairs [] = []
  pairs ((k, v) ∷ kvs) = (chars (e.quote k) ++ chars ":" ++ chars v) ∷ pairs kvs

  -- `_canonicalize`; `none` is the TypeError of a float. The members of an object are rendered
  -- before they are sorted, which gives the same text.
  unfoldable mutual
    pub canonicalize : Value → Option String
    canonicalize null = some "null"
    canonicalize (bool true) = some "true"
    canonicalize (bool false) = some "false"
    canonicalize (int n) = some (e.show n)
    canonicalize (float x) = none
    canonicalize (str s) = some (e.quote s)
    canonicalize (list vs) = do
      items ← canonical_items vs
      some (joined (chars "[" ++ comma_joined items ++ chars "]"))
    canonicalize (dict fs) = do
      members ← canonical_fields fs
      some (joined (chars "{" ++ comma_joined (pairs (sort_by_key members)) ++ chars "}"))

    pub canonical_items : Items → Option (List (List Char))
    canonical_items nil = some []
    canonical_items (cons v vs) = do
      t ← canonicalize v
      ts ← canonical_items vs
      some (chars t ∷ ts)

    pub canonical_fields : Fields → Option (List (String × String))
    canonical_fields end = some []
    canonical_fields (field k v fs) = do
      t ← canonicalize v
      ts ← canonical_fields fs
      some ((k, t) ∷ ts)
