-- ===== src/Did/RoundTrip.antt =====
-- crypto/did.py: base58btc encoding and decoding undo one another.
use Prim.Native.Char.{Char, nul}
use hs_fob.Base.{
  ℕ, zero, suc, ◌+◌, ◌-◌, ◌*◌, ◌/◌, ◌%◌, ◌≤◌, ◌<◌, Bool, true, false, Option, none, some, List, [],
  ◌∷◌, ◌++◌, String, arith, ◌==◌, ◌≡◌, refl, sym, ap, ◌∙◌, map, not, ◌&&◌, get_or, ==-refl, length,
  length-map,
}
use hs_fob.Base.Sets.{elem}
use hs_fob.Base.{Bool-cases, ◌⊎◌, if◌then◌else◌, nat_eq, inl, inr}
use mathlib.Core.Path.{subst}
use mathlib.Core.Option.{none-ne-some, some-injective}
use hs_fob.Base.Digits.{
  value, digits, AreDigits, repeat, leading, lstrip, convert, convert-convert, convert-AreDigits,
  IsBase-58, IsBase-256, digits-append, digits_step,
}
use hs_fob.Base.Text.{chars, joined, char_eq, chars-joined, joined-chars}
use hs_fob.Did.Base58.{
  symbol, index, encode_loop, b58encode, bits, bit_length, to_bytes, read_number, body_bytes,
  decode_chars, b58decode, one, alphabet, index_from,
}

abbrev symbols : List ℕ → List Char
symbols ds = map symbol ds

abbrev no_repeats : List Char → Bool
no_repeats [] = true
no_repeats (c ∷ cs) = not (elem c cs) && no_repeats cs

elem-get_or : (d : ℕ) (cs : List Char) → d < length cs → elem (get_or cs d nul) cs ≡ true
elem-get_or d [] h = ground (arith, h)
elem-get_or zero (c ∷ cs) h = rw (==-refl c) refl
elem-get_or (suc d) (c ∷ cs) h = ground (arith, elem-get_or d cs)

index_from-get_or :
    (n d : ℕ) (cs : List Char)
    → no_repeats cs ≡ true
    → d < length cs
    → index_from n (get_or cs d nul) cs ≡ some (n + d)
index_from-get_or n d [] u h = ground (arith, h)
index_from-get_or n zero (c ∷ cs) u h = rw (==-refl c) (ap some (omega arith))
index_from-get_or n (suc d) (c ∷ cs) u h =
    let inside : elem (get_or cs d nul) cs ≡ true = elem-get_or d cs (omega arith) in
    elim (Bool-cases (c == get_or cs d nul)) [
      | inl e ↦
          let same : elem c cs ≡ true = rw ((char_eq.equal_iff c (get_or cs d nul)).0 e) inside in
          ground (arith, u, same)
      | inr e ↦
          rw e (
            index_from-get_or (suc n) d cs (ground (arith, u)) (omega arith)
            ∙ ap some (omega arith))
    ]

-- The alphabet lists 58 different characters.
index-symbol : (d : ℕ) → d < 58 → index (symbol d) ≡ some d
unfolding index symbol
index-symbol d h = index_from-get_or 0 d alphabet refl h ∙ ap some (omega arith)

index_from-some :
    (n v : ℕ) (c : Char) (cs : List Char)
    → index_from n c cs ≡ some v
    → (d : ℕ) × (v ≡ n + d) × (d < length cs) × (get_or cs d nul ≡ c)
index_from-some n v c [] h = elim (none-ne-some _ h) [ ]
index_from-some n v c (a ∷ cs) h = elim (Bool-cases (a == c)) [
  | inl e ↦ (0, ground (arith, h, e), omega arith, (char_eq.equal_iff a c).0 e)
  | inr e ↦
      let (d, p, q, r) = index_from-some (suc n) v c cs (ground (arith, h, e)) in
      (suc d, omega arith, omega arith, r)
]

index-some : (v : ℕ) (c : Char) → index c ≡ some v → (v < 58) × (symbol v ≡ c)
unfolding index symbol
index-some v c h =
    let (d, p, q, r) = index_from-some 0 v c alphabet h in
    let same : v ≡ d = omega (arith, p) in (omega (arith, q, same), rw same r)

encode_loop-symbols :
    (f n : ℕ) (ds : List ℕ) → encode_loop f n (symbols ds) ≡ symbols (digits 58 f n ds)
unfolding encode_loop digits
encode_loop-symbols zero n ds = refl
encode_loop-symbols (suc f) n ds = ground (arith, encode_loop-symbols f (n / 58) (n % 58 ∷ ds))

read_number-symbols :
    (n : ℕ) (ds : List ℕ) → AreDigits 58 ds → read_number n (symbols ds) ≡ some (value 58 n ds)
unfolding read_number value
read_number-symbols n [] h = refl
read_number-symbols n (d ∷ ds) h =
    rw (read_number, index-symbol d (ground (arith, h)))
      (read_number-symbols (n * 58 + d) ds (ground (arith, h)))

map-repeat : (n : ℕ) (ds : List ℕ) → symbols (repeat n 0 ++ ds) ≡ repeat n one ++ symbols ds
unfolding symbol
map-repeat zero ds = refl
map-repeat (suc n) ds = ap (◌∷◌ one) (map-repeat n ds)

b58encode-symbols : (bs : List ℕ) → b58encode bs ≡ joined (symbols (convert 256 58 bs))
unfolding b58encode convert
b58encode-symbols bs =
    let n = value 256 0 bs in
    ap (λ cs. joined (repeat (leading 0 bs) one ++ cs)) (encode_loop-symbols n n [])
    ∙ ap joined (sym (map-repeat (leading 0 bs) (digits 58 n n [])))

-- A text that reads as a number is of symbols.
read_number-some :
    (n m : ℕ) (cs : List Char)
    → read_number n cs ≡ some m
    → (ds : List ℕ) × AreDigits 58 ds × (cs ≡ symbols ds)
unfolding read_number
read_number-some n m [] h = ([], refl, refl)
read_number-some n m (c ∷ cs) h = of (index c) refl h (λ v. read_number-some (n * 58 + v) m cs)
  where
    of :
        (o : Option ℕ)
        → index c ≡ o
        → elim o [ none ↦ none | some v ↦ read_number (n * 58 + v) cs ] ≡ some m
        → ((v : ℕ)
            → read_number (n * 58 + v) cs ≡ some m
            → (ds : List ℕ) × AreDigits 58 ds × (cs ≡ symbols ds))
        → (ds : List ℕ) × AreDigits 58 ds × (c ∷ cs ≡ symbols ds)
    of none e q rec = elim (none-ne-some _ q) [ ]
    of (some v) e q rec =
        let (ds, p, r) = rec v q in
        let (below, same) = index-some v c e in (v ∷ ds, ground (arith, below, p), cc (same, r))

symbol-one : (d : ℕ) → d < 58 → (symbol d == one) ≡ (d == 0)
unfolding index symbol
symbol-one zero h = refl
symbol-one (suc d) h = elim (Bool-cases (symbol (suc d) == one)) [
  | inl e ↦
      let same : some (suc d) ≡ some 0 =
        sym (index-symbol (suc d) h) ∙ ap index ((char_eq.equal_iff (symbol (suc d)) one).0 e) in
      ground (arith, same)
  | inr e ↦ e ∙ ground arith
]

lstrip-symbols : (ds : List ℕ) → AreDigits 58 ds → lstrip one (symbols ds) ≡ symbols (lstrip 0 ds)
lstrip-symbols [] h = refl
lstrip-symbols (d ∷ ds) h =
    rw (symbol-one d (ground (arith, h)))
      (elim (d == 0)
        as (λ z.
          (if z then lstrip one (symbols ds) else symbol d ∷ symbols ds)
          ≡ symbols (if z then lstrip 0 ds else d ∷ ds)) [
            | true ↦ lstrip-symbols ds (ground (arith, h))
            | false ↦ refl
          ])

leading-symbols : (ds : List ℕ) → AreDigits 58 ds → leading one (symbols ds) ≡ leading 0 ds
leading-symbols ds h =
    ap (λ cs. length (symbols ds) - length cs) (lstrip-symbols ds h)
    ∙ rw (length-map symbol ds, length-map symbol (lstrip 0 ds)) refl

bits-fuel : (f g n : ℕ) → n ≤ f → n ≤ g → bits f n ≡ bits g n
unfolding bits
bits-fuel zero zero n p q = refl
bits-fuel zero (suc g) n p q = ground arith
bits-fuel (suc f) zero n p q = ground arith
bits-fuel (suc f) (suc g) n p q = ground (arith, bits-fuel f g (n / 2))

bits_zero : bits 0 0 ≡ 0
unfolding bits
bits_zero = refl

bits_more : (f n : ℕ) → 0 < n → bits (suc f) n ≡ 1 + bits f (n / 2)
unfolding bits
bits_more f n h = ground arith

-- Halving a number takes one bit off.
bits-cases :
    (n : ℕ) → ((n ≡ 0) × (bit_length n ≡ 0)) ⊎ ((0 < n) × (bit_length n ≡ 1 + bit_length (n / 2)))
unfolding bit_length
bits-cases zero = inl (refl, bits_zero)
bits-cases (suc n) = inr (
  omega arith,
  bits_more n (suc n) (omega arith)
      ∙ ap (λ k. 1 + k) (bits-fuel n (suc n / 2) (suc n / 2) (omega arith) (omega arith)),
)

octets : (n : ℕ) → 0 < n → (bit_length n + 7) / 8 ≡ suc ((bit_length (n / 256) + 7) / 8)
octets n h =
    let eighth : bit_length (n / 2 / 2 / 2 / 2 / 2 / 2 / 2 / 2) ≡ bit_length (n / 256) =
      ap bit_length (omega arith) in
    ground (
      arith,
      eighth,
      bits-cases n,
      bits-cases (n / 2),
      bits-cases (n / 2 / 2),
      bits-cases (n / 2 / 2 / 2),
      bits-cases (n / 2 / 2 / 2 / 2),
      bits-cases (n / 2 / 2 / 2 / 2 / 2),
      bits-cases (n / 2 / 2 / 2 / 2 / 2 / 2),
      bits-cases (n / 2 / 2 / 2 / 2 / 2 / 2 / 2),
      bits-cases (n / 256),
    )

to_bytes_zero : to_bytes ((bit_length 0 + 7) / 8) 0 ≡ some (digits 256 0 0 [])
unfolding to_bytes bit_length bits digits
to_bytes_zero = refl

to_bytes_more :
    (l n : ℕ) (bs : List ℕ)
    → to_bytes l (n / 256) ≡ some bs
    → to_bytes (suc l) n ≡ some (bs ++ n % 256 ∷ [])
unfolding to_bytes
to_bytes_more l n bs h = rw h refl

-- `(bit_length + 7) // 8` bytes are the digits in base 256.
to_bytes-digits : (f n : ℕ) → n ≤ f → to_bytes ((bit_length n + 7) / 8) n ≡ some (digits 256 n n [])
to_bytes-digits f zero h = to_bytes_zero
to_bytes-digits zero (suc n) h = ground arith
to_bytes-digits (suc f) (suc n) h =
    let q = suc n / 256 in
    let r = suc n % 256 in
    rw (octets (suc n) (omega arith)) (
      to_bytes_more ((bit_length q + 7) / 8) (suc n) (digits 256 q q [])
        (to_bytes-digits f q (omega arith))
      ∙ ap some (
          sym (digits-append IsBase-256 q q [] (r ∷ []))
          ∙ sym (digits_step IsBase-256 (suc n) [] (omega arith))))

ne_zero : (n : ℕ) → (suc n == 0) ≡ false
ne_zero n = ground arith

to_bytes_nothing : some [] ≡ some (digits 256 0 0 [])
unfolding digits
to_bytes_nothing = refl

body_bytes-digits : (n : ℕ) → body_bytes n ≡ some (digits 256 n n [])
unfolding body_bytes
body_bytes-digits zero = to_bytes_nothing
body_bytes-digits (suc n) = rw (ne_zero n) (to_bytes-digits (suc n) (suc n) (omega arith))

decode_chars-symbols :
    (ds : List ℕ) → AreDigits 58 ds → decode_chars (symbols ds) ≡ some (convert 58 256 ds)
unfolding decode_chars convert
decode_chars-symbols ds h =
    rw
      (
        decode_chars,
        read_number-symbols 0 ds h,
        body_bytes-digits (value 58 0 ds),
        leading-symbols ds h,
      )
      refl

decode_chars-some :
    (cs : List Char) (bytes : List ℕ)
    → decode_chars cs ≡ some bytes
    → (ds : List ℕ) × AreDigits 58 ds × (cs ≡ symbols ds)
unfolding decode_chars
decode_chars-some cs bytes h = of (read_number 0 cs) refl h
  where
    of :
        (o : Option ℕ)
        → read_number 0 cs ≡ o
        → elim o [
          | none ↦ none
          | some number ↦ elim (body_bytes number) [
            | none ↦ none
            | some body ↦ some (repeat (leading one cs) 0 ++ body)
          ]
        ]
          ≡ some bytes
        → (ds : List ℕ) × AreDigits 58 ds × (cs ≡ symbols ds)
    of none e q = elim (none-ne-some _ q) [ ]
    of (some n) e q = read_number-some 0 n cs e

-- Every sequence of bytes survives `_b58encode` and `_b58decode`, leading zero bytes included.
pub b58decode-b58encode :
    (bytes : List ℕ) → AreDigits 256 bytes → b58decode (b58encode bytes) ≡ some bytes
unfolding b58decode
b58decode-b58encode bytes h =
    rw (b58encode-symbols bytes, chars-joined (symbols (convert 256 58 bytes)))
      (decode_chars-symbols (convert 256 58 bytes) (convert-AreDigits 256 IsBase-58 bytes)
        ∙ ap some (convert-convert IsBase-256 IsBase-58 bytes h))

-- A text that `_b58decode` accepts is the one encoding of the bytes that it stands for.
pub b58encode-b58decode :
    (t : String) (bytes : List ℕ)
    → b58decode t ≡ some bytes
    → AreDigits 256 bytes × (b58encode bytes ≡ t)
unfolding b58decode
b58encode-b58decode t bytes h =
    let (ds, p, e) = decode_chars-some (chars t) bytes h in
    let same : convert 58 256 ds ≡ bytes =
      some-injective _ _ (sym (decode_chars-symbols ds p) ∙ ap decode_chars (sym e) ∙ h) in
    (
      subst (AreDigits 256) same (convert-AreDigits 58 IsBase-256 ds),
      ap b58encode (sym same)
          ∙ b58encode-symbols (convert 58 256 ds)
          ∙ ap (λ x. joined (symbols x)) (convert-convert IsBase-58 IsBase-256 ds p)
          ∙ ap joined (sym e)
          ∙ joined-chars t,
    )
