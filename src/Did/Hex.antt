-- ===== src/Did/Hex.antt =====
-- `bytes.hex()` and `bytes.fromhex(text)`, which crypto/did.py and credentials/vc.py use.
use Prim.Native.Char.{Char, code, nul}
use mathlib.Core.Path.{subst}
use mathlib.Core.Option.{none-ne-some, some-injective}
use hs_fob.Base.{
  ℕ, ◌+◌, ◌-◌, ◌*◌, ◌/◌, ◌%◌, ◌<◌, Bool, true, false, ◌&&◌, ◌||◌, Option, none, some, List, [], ◌∷◌,
  String, arith, ◌==◌, nat_eq, leb, if◌then◌else◌, get_or, ◌≡◌, refl, ap, ◌∙◌, inl, inr, Bool-cases,
  nat_beq_iff, zero, suc, not,
}
use hs_fob.Base.Digits.{AreDigits}
use hs_fob.Base.Text.{chars, joined, chars-joined}

abbrev digit_char : ℕ → Char
digit_char n = get_or (chars "0123456789abcdef") n nul

abbrev pub hex_chars : List ℕ → List Char
hex_chars [] = []
hex_chars (b ∷ bs) = digit_char (b / 16) ∷ digit_char (b % 16) ∷ hex_chars bs

-- `bytes.hex()`
unfoldable pub to_hex : List ℕ → String
to_hex bs = joined (hex_chars bs)

-- What a hexadecimal digit of either case stands for.
abbrev pub hex_value : ℕ → Option ℕ
hex_value c =
    if leb 48 c && leb c 57
    then some (c - 48)
    else if leb 97 c && leb c 102
    then some (c - 87)
    else if leb 65 c && leb c 70
    then some (c - 55)
    else none

abbrev pub is_space : ℕ → Bool
is_space c = (leb 9 c && leb c 13) || c == 32

-- White space is skipped between two bytes, not within one; `none` is a ValueError.
unfoldable pub read_hex : List Char → Option (List ℕ)
read_hex [] = some []
read_hex (c ∷ []) = if is_space (code c) then some [] else none
read_hex (c ∷ d ∷ cs) = elim (is_space (code c)) [
  | true ↦ read_hex (d ∷ cs)
  | false ↦ elim (hex_value (code c)) [
    | none ↦ none
    | some high ↦ elim (hex_value (code d)) [
      | none ↦ none
      | some low ↦ elim (read_hex cs) [ none ↦ none | some bs ↦ some ((high * 16 + low) ∷ bs) ]
    ]
  ]
]

-- `bytes.fromhex(text)`
unfoldable pub from_hex : String → Option (List ℕ)
from_hex t = read_hex (chars t)

abbrev all_below : ℕ → (ℕ → Bool) → Bool
all_below zero p = true
all_below (suc n) p = p n && all_below n p

at_below : (k n : ℕ) (p : ℕ → Bool) → all_below k p ≡ true → n < k → p n ≡ true
at_below zero n p h q = ground (arith, q)
at_below (suc k) n p h q = elim (Bool-cases (n == k)) [
  | inl e ↦ ap p ((nat_beq_iff n k).0 e) ∙ ground (arith, h)
  | inr e ↦ at_below k n p (ground (arith, h)) (ground (arith, e, q))
]

abbrev is_read_as : ℕ → Bool
is_read_as n =
    let c = code (digit_char n) in
    not (is_space c) && elim (hex_value c) [ none ↦ false | some m ↦ m == n ]

digit_char_lem :
    (n : ℕ)
    → n < 16
    → (is_space (code (digit_char n)) ≡ false) × (hex_value (code (digit_char n)) ≡ some n)
digit_char_lem n h = of (code (digit_char n)) (at_below 16 n is_read_as refl h)
  where
    of :
        (c : ℕ)
        → (not (is_space c) && elim (hex_value c) [ none ↦ false | some m ↦ m == n ]) ≡ true
        → (is_space c ≡ false) × (hex_value c ≡ some n)
    of c q = ground (arith, q)

read_hex-pair :
    (c d : Char) (cs : List Char) (high low : ℕ) (bs : List ℕ)
    → is_space (code c) ≡ false
    → hex_value (code c) ≡ some high
    → hex_value (code d) ≡ some low
    → read_hex cs ≡ some bs
    → read_hex (c ∷ d ∷ cs) ≡ some ((high * 16 + low) ∷ bs)
unfolding read_hex
read_hex-pair c d cs high low bs p q r h = rw (read_hex, p, q, r, h) refl

read_hex-hex_chars : (bs : List ℕ) → AreDigits 256 bs → read_hex (hex_chars bs) ≡ some bs
unfolding read_hex
read_hex-hex_chars [] h = refl
read_hex-hex_chars (b ∷ bs) h =
    let (clear, high) = digit_char_lem (b / 16) (ground (arith, h)) in
    let (_, low) = digit_char_lem (b % 16) (omega arith) in
    read_hex-pair (digit_char (b / 16)) (digit_char (b % 16)) (hex_chars bs) (b / 16) (b % 16) bs
      clear high low (read_hex-hex_chars bs (ground (arith, h)))
    ∙ ap (λ n. some (n ∷ bs)) (omega arith)

-- Bytes survive `hex` and `fromhex`.
pub from_hex-to_hex : (bs : List ℕ) → AreDigits 256 bs → from_hex (to_hex bs) ≡ some bs
unfolding from_hex to_hex
from_hex-to_hex bs h = rw (chars-joined (hex_chars bs)) (read_hex-hex_chars bs h)

hex_value-lt : (c n : ℕ) → hex_value c ≡ some n → n < 16
hex_value-lt c n h = ground (arith, h)

-- What is read is bytes.
read_hex-AreDigits : (cs : List Char) (bs : List ℕ) → read_hex cs ≡ some bs → AreDigits 256 bs
unfolding read_hex
read_hex-AreDigits [] bs h = ground (arith, h)
read_hex-AreDigits (c ∷ []) bs h = ground (arith, h)
read_hex-AreDigits (c ∷ d ∷ cs) bs h =
    of (is_space (code c)) (hex_value (code c)) (hex_value (code d)) (read_hex cs) refl refl
      (λ r q. read_hex-AreDigits cs r q) (λ q. read_hex-AreDigits (d ∷ cs) bs q) h
  where
    of :
        (s : Bool) (x y : Option ℕ) (r : Option (List ℕ))
        → hex_value (code c) ≡ x
        → hex_value (code d) ≡ y
        → ((bs : List ℕ) → r ≡ some bs → AreDigits 256 bs)
        → (read_hex (d ∷ cs) ≡ some bs → AreDigits 256 bs)
        → elim s [
          | true ↦ read_hex (d ∷ cs)
          | false ↦ elim x [
            | none ↦ none
            | some high ↦ elim y [
              | none ↦ none
              | some low ↦ elim r [ none ↦ none | some bs ↦ some ((high * 16 + low) ∷ bs) ]
            ]
          ]
        ]
          ≡ some bs
        → AreDigits 256 bs
    of true x y r p q rec more h = more h
    of false none y r p q rec more h = elim (none-ne-some _ h) [ ]
    of false (some x) none r p q rec more h = elim (none-ne-some _ h) [ ]
    of false (some x) (some y) none p q rec more h = elim (none-ne-some _ h) [ ]
    of false (some x) (some y) (some r) p q rec more h =
        subst (AreDigits 256) (some-injective _ _ h)
          (ground (arith, hex_value-lt (code c) x p, hex_value-lt (code d) y q, rec r refl))

pub from_hex-AreDigits : (t : String) (bs : List ℕ) → from_hex t ≡ some bs → AreDigits 256 bs
unfolding from_hex
from_hex-AreDigits t bs h = read_hex-AreDigits (chars t) bs h
