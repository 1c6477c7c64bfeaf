-- ===== src/Did/Base58.antt =====
-- crypto/did.py, `_b58encode` and `_b58decode`: base58btc. A byte is a number below 256; a text is
-- walked as the list of its characters.
use Prim.Native.Char.{Char, nul}
use hs_fob.Base.{
  ℕ, zero, suc, ◌+◌, ◌*◌, ◌/◌, ◌%◌, true, false, Option, none, some, List, [], ◌∷◌, ◌++◌, String,
  ◌==◌, nat_eq, nat_beq, if◌then◌else◌, get_or,
}
use hs_fob.Base.Digits.{value, repeat, leading}
use hs_fob.Base.Text.{chars, joined, char_eq}

-- `_B58_ALPHABET`
abbrev pub alphabet : List Char
alphabet = chars "123456789ABCDEFGHJKLMNPQRSTUVWXYZabcdefghijkmnopqrstuvwxyz"

abbrev pub one : Char
one = "1"

-- `_B58_ALPHABET[value]`
unfoldable pub symbol : ℕ → Char
symbol n = get_or alphabet n nul

abbrev pub index_from : ℕ → Char → List Char → Option ℕ
index_from n c [] = none
index_from n c (a ∷ as_) = if a == c then some n else index_from (suc n) c as_

-- `_B58_INDEX.get(char)`
unfoldable pub index : Char → Option ℕ
index c = index_from 0 c alphabet

-- The loop of `_b58encode`, on fuel: `number, remainder = divmod(number, 58)`.
unfoldable pub encode_loop : ℕ → ℕ → List Char → List Char
encode_loop zero number ds = ds
encode_loop (suc f) number ds = elim (nat_beq number 0) [
  | true ↦ ds
  | false ↦ encode_loop f (number / 58) (symbol (number % 58) ∷ ds)
]

-- `_b58encode`
unfoldable pub b58encode : List ℕ → String
b58encode bytes =
    let number = value 256 0 bytes in
    joined (repeat (leading 0 bytes) one ++ encode_loop number number [])

-- `number.bit_length()`, on fuel
unfoldable pub bits : ℕ → ℕ → ℕ
bits zero number = 0
bits (suc f) number = elim (nat_beq number 0) [ true ↦ 0 | false ↦ 1 + bits f (number / 2) ]

unfoldable pub bit_length : ℕ → ℕ
bit_length number = bits number number

-- `number.to_bytes(length, "big")`; `none` is an OverflowError.
unfoldable pub to_bytes : ℕ → ℕ → Option (List ℕ)
to_bytes zero number = if number == 0 then some [] else none
to_bytes (suc l) number = elim (to_bytes l (number / 256)) [
  | none ↦ none
  | some bs ↦ some (bs ++ number % 256 ∷ [])
]

-- The loop of `_b58decode`: `number = number * 58 + value`; `none` is a ValueError.
unfoldable pub read_number : ℕ → List Char → Option ℕ
read_number number [] = some number
read_number number (c ∷ cs) = elim (index c) [
  | none ↦ none
  | some v ↦ read_number (number * 58 + v) cs
]

unfoldable pub body_bytes : ℕ → Option (List ℕ)
body_bytes number = if number == 0 then some [] else to_bytes ((bit_length number + 7) / 8) number

unfoldable pub decode_chars : List Char → Option (List ℕ)
decode_chars cs = elim (read_number 0 cs) [
  | none ↦ none
  | some number ↦ elim (body_bytes number) [
    | none ↦ none
    | some body ↦ some (repeat (leading one cs) 0 ++ body)
  ]
]

-- `_b58decode`
unfoldable pub b58decode : String → Option (List ℕ)
b58decode t = decode_chars (chars t)
