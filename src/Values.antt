-- ===== src/Values.antt =====
-- Python values as they come out of JSON: what a transaction's payload can hold. A dict is its
-- entries in insertion order, a float its `repr`.
use hs_fob.Base.{
  Bool, true, false, ◌&&◌, Option, none, some, List, [], ◌∷◌, String, if◌then◌else◌, ◌==◌,
  string_eq, all,
}
use hs_fob.Base.Int.{ℤ}
use hs_fob.Base.Sets.{elem}

mutual
  pub data Value : Type 0 where
    null : Value
    bool : Bool → Value
    int : ℤ → Value
    float : String → Value
    str : String → Value
    list : Items → Value
    dict : Fields → Value

  pub data Items : Type 0 where
    nil : Items
    cons : Value → Items → Items

  pub data Fields : Type 0 where
    end : Fields
    field : String → Value → Fields → Fields

abbrev pub to_list : Items → List Value
to_list nil = []
to_list (cons v vs) = v ∷ to_list vs

abbrev pub of_texts : List String → Items
of_texts [] = nil
of_texts (s ∷ ss) = cons (str s) (of_texts ss)

abbrev pub entries : Fields → List (String × Value)
entries end = []
entries (field k v fs) = (k, v) ∷ entries fs

abbrev pub keys : Fields → List String
keys end = []
keys (field k v fs) = k ∷ keys fs

-- `d.get(k)` on a dict
abbrev pub get_field : String → Fields → Option Value
get_field k end = none
get_field k (field j v fs) = if k == j then some v else get_field k fs

-- `set(payload) == {…}`
abbrev pub same_keys : List String → Fields → Bool
same_keys required fs = all (λ k. elem k (keys fs)) required && all (λ k. elem k required) (keys fs)

-- `isinstance(v, str)`
abbrev pub is_str : Value → Bool
is_str (str s) = true
is_str _ = false

-- `isinstance(v, str) and v`
abbrev pub is_text : Value → Bool
is_text (str s) = if s == "" then false else true
is_text _ = false

-- `v == literal`
abbrev pub equals_str : String → Value → Bool
equals_str t (str s) = s == t
equals_str t _ = false

-- `isinstance(v, int) and not isinstance(v, bool)`
abbrev pub is_int : Value → Bool
is_int (int n) = true
is_int _ = false

-- `isinstance(v, bool)`
abbrev pub is_bool : Value → Bool
is_bool (bool b) = true
is_bool _ = false

-- `isinstance(v, dict)`
abbrev pub is_dict : Value → Bool
is_dict (dict fs) = true
is_dict _ = false

-- A test on `payload[k]`, where a missing key fails it.
abbrev pub field_is : (Value → Bool) → String → Fields → Bool
field_is test k fs = elim (get_field k fs) [ none ↦ false | some v ↦ test v ]

-- `payload[k]` where a test before has shown it to be a text
abbrev pub text_of : Option Value → String
text_of (some (str s)) = s
text_of _ = ""

abbrev pub text_at : String → Fields → String
text_at k fs = text_of (get_field k fs)

-- `payload[k]` where a test before has shown it to be an integer
abbrev pub int_of : Option Value → ℤ
int_of (some (int n)) = n
int_of _ = ℤ.pos 0

abbrev pub int_at : String → Fields → ℤ
int_at k fs = int_of (get_field k fs)

abbrev pub fields_of : Option Value → Fields
fields_of (some (dict fs)) = fs
fields_of _ = end

abbrev pub items_of : Option Value → Items
items_of (some (list vs)) = vs
items_of _ = nil
