-- ===== src/Credentials/Dates.antt =====
-- credentials/vc.py: times. A time in UTC is the number of microseconds since
-- the year 1 began.
use Prim.Native.Char.{Char}
use hs_fob.Base.{Option, none, some, List, [], ◌∷◌, ◌++◌, String, ◌==◌, if◌then◌else◌, ◌&&◌}
use hs_fob.Base.Int.{ℤ, ◌-ℤ◌, leb_ℤ, ltb_ℤ}
use hs_fob.Base.Text.{chars, joined, char_eq}
use hs_fob.Values.{Value, str}

-- A `datetime`: the reading of the clock, and the offset from UTC unless it is naive.
pub record Datetime : Type 0 where
  pub reading : ℤ
  pub offset : Option ℤ

-- What the standard library's `datetime` does.
pub record Calendar : Type 0 where
  -- `datetime.fromisoformat(text)`; `none` is a ValueError
  pub fromisoformat : String → Option Datetime
  -- `_iso(moment)`: the whole seconds of a UTC time as text that ends in "Z"
  pub iso : ℤ → String

-- `text.replace("Z", "+00:00")`
abbrev zulu : List Char → List Char
zulu [] = []
zulu (c ∷ cs) = let rest = zulu cs in if c == "Z" then chars "+00:00" ++ rest else c ∷ rest

-- The end of the year 9999, counted from the first moment of the year 1
abbrev pub end_of_time : ℤ
end_of_time = ℤ.pos 315537897600000000

-- `moment.replace(tzinfo=utc)` if it is naive, and `moment.astimezone(utc)`; `none` is the
-- OverflowError of a moment that the offset takes out of the years 1 to 9999.
unfoldable pub to_utc : Datetime → Option ℤ
to_utc d = elim d.offset [
  | none ↦ some d.reading
  | some o ↦
      let moment = d.reading -ℤ o in
      if leb_ℤ (ℤ.pos 0) moment && ltb_ℤ moment end_of_time then some moment else none
]

-- What a function returns, or that it raises an exception.
pub data Outcome {ℓ} (A : Type ℓ) : Type ℓ where
  returns : A → Outcome A
  raises : Outcome A

module _ (c : Calendar) where
  -- `parse_iso`
  unfoldable pub parse_iso : Value → Outcome (Option ℤ)
  parse_iso (str t) = elim (c.fromisoformat (joined (zulu (chars t)))) [
    | none ↦ returns none
    | some moment ↦ elim (to_utc moment) [ none ↦ raises | some m ↦ returns (some m) ]
  ]
  parse_iso _ = returns none
