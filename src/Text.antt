-- ===== src/Text.antt =====
-- Texts as the program prints and reads them: `u64` and `u16` in decimal (`Display`, `FromStr` of
-- the standard library), and `str::split` at one character.
pub mod Decimal
pub mod Split
pub mod Lines
use trust.Prelude.{
  ℕ, zero, suc, ◌+◌, ◌-◌, ◌*◌, ◌/◌, ◌%◌, ◌^◌, ◌≡◌, Bool, false, ◌&&◌, Option, none, some, List, [],
  ◌∷◌, All, Text, ltb, leb, ◌==◌, if◌then◌else◌,
}

abbrev pub colon : ℕ
colon = b':'

abbrev pub u16_bound : ℕ
u16_bound = 2 ^ 16

abbrev pub u64_bound : ℕ
u64_bound = 2 ^ 64

unfoldable pub is_digit : ℕ → Bool
is_digit c = leb b'0' c && leb c b'9'

-- `format!("{}", n)`. The fuel `n + 1` is more than the number of digits.
unfoldable pub show_fuel : ℕ → ℕ → Text → Text
show_fuel zero n rest = rest
show_fuel (suc f) n rest =
    let more = show_fuel f (n / 10) ((b'0' + n % 10) ∷ rest) in
    if ltb n 10 then (b'0' + n) ∷ rest else more

unfoldable pub show : ℕ → Text
unfolding show_fuel
show n = show_fuel (suc n) n []

unfoldable pub digits_value : ℕ → Text → Option ℕ
unfolding is_digit
digits_value acc [] = some acc
digits_value acc (c ∷ s) = if is_digit c then digits_value (acc * 10 + (c - b'0')) s else none

abbrev pub strip_plus : Text → Text
strip_plus [] = []
strip_plus (c ∷ s) = if c == b'+' then s else c ∷ s

abbrev pub below : ℕ → Option ℕ → Option ℕ
below bound none = none
below bound (some n) = if ltb n bound then some n else none

abbrev pub nonempty_value : ℕ → Text → Option ℕ
nonempty_value bound [] = none
nonempty_value bound (c ∷ s) = below bound (digits_value 0 (c ∷ s))

-- `s.parse::<u16>()` and `s.parse::<u64>()`: an optional `+`, then at least one digit, and a value
-- below the bound; `none` stands for the error.
unfoldable pub parse_uint : ℕ → Text → Option ℕ
unfolding digits_value
parse_uint bound s = nonempty_value bound (strip_plus s)

abbrev pub prepend : ℕ → List Text → List Text
prepend c [] = (c ∷ []) ∷ []
prepend c (w ∷ ws) = (c ∷ w) ∷ ws

-- `s.split(c)`.
unfoldable pub split : ℕ → Text → List Text
split c [] = [] ∷ []
split c (x ∷ s) = let rest = split c s in if x == c then [] ∷ rest else prepend x rest

-- The character does not occur in the text.
abbrev pub Without : ℕ → Text → Type 0
Without c = All (λ x. (x == c) ≡ false)
