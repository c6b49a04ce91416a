-- ===== src/Text/Decimal.antt =====
-- Printing a number and reading it back.
use trust.Prelude.{
  ℕ, zero, suc, ◌+◌, ◌*◌, ◌/◌, ◌%◌, ◌<◌, ◌≤◌, ◌≡◌, refl, ◌≢◌, true, none, some, [], ◌∷◌, All, Text,
  arith,
}
use trust.Text.{
  colon, is_digit, show_fuel, show, digits_value, strip_plus, below, nonempty_value, parse_uint,
  Without,
}

digits_value-cons :
    (acc d : ℕ) (rest : Text)
    → d < 10
    → digits_value acc ((b'0' + d) ∷ rest) ≡ digits_value (acc * 10 + d) rest
unfolding digits_value
digits_value-cons acc d rest h = ground arith

digits_value-show_fuel :
    (f n : ℕ) (rest : Text) → n < f → digits_value 0 (show_fuel f n rest) ≡ digits_value n rest
unfolding show_fuel
digits_value-show_fuel zero n rest h = absurd (omega arith)
digits_value-show_fuel (suc f) n rest h = ground (
  arith,
  digits_value-cons 0 n rest,
  digits_value-show_fuel f (n / 10) ((b'0' + n % 10) ∷ rest),
  digits_value-cons (n / 10) (n % 10) rest,
)

abbrev pub AllDigits : Text → Type 0
AllDigits = All (λ c. is_digit c ≡ true)

show_fuel-AllDigits : (f n : ℕ) (rest : Text) → AllDigits rest → AllDigits (show_fuel f n rest)
unfolding show_fuel is_digit
show_fuel-AllDigits zero n rest h = h
show_fuel-AllDigits (suc f) n rest h =
    ground (arith, show_fuel-AllDigits f (n / 10) ((b'0' + n % 10) ∷ rest))

pub show-AllDigits : (n : ℕ) → AllDigits (show n)
unfolding show
show-AllDigits n = show_fuel-AllDigits (suc n) n [] tt

pub digits_value-show : (n : ℕ) → digits_value 0 (show n) ≡ some n
unfolding show digits_value
digits_value-show n = digits_value-show_fuel (suc n) n [] (omega arith)

show_fuel-ne-nil : (f n : ℕ) (rest : Text) → n < f → show_fuel f n rest ≢ []
unfolding show_fuel
show_fuel-ne-nil zero n rest h = absurd (omega arith)
show_fuel-ne-nil (suc f) n rest h =
    ground (arith, show_fuel-ne-nil f (n / 10) ((b'0' + n % 10) ∷ rest))

pub show-ne-nil : (n : ℕ) → show n ≢ []
unfolding show
show-ne-nil n = show_fuel-ne-nil (suc n) n [] (omega arith)

nonempty_value-digits :
    (bound : ℕ) (t : Text) (n : ℕ)
    → AllDigits t
    → t ≢ []
    → digits_value 0 t ≡ some n
    → nonempty_value bound (strip_plus t) ≡ below bound (some n)
unfolding is_digit
nonempty_value-digits bound [] n d h e = absurd (h refl)
nonempty_value-digits bound (c ∷ s) n d h e = ground arith

-- A number below the bound is read back.
pub parse_uint-show : (bound n : ℕ) → n < bound → parse_uint bound (show n) ≡ some n
unfolding parse_uint
parse_uint-show bound n h = ground (
  arith,
  nonempty_value-digits bound (show n) n (show-AllDigits n) (show-ne-nil n) (digits_value-show n),
)

-- One at or above it is refused.
pub parse_uint-show_overflow : (bound n : ℕ) → bound ≤ n → parse_uint bound (show n) ≡ none
unfolding parse_uint
parse_uint-show_overflow bound n h = ground (
  arith,
  nonempty_value-digits bound (show n) n (show-AllDigits n) (show-ne-nil n) (digits_value-show n),
)

AllDigits-Without : (s : Text) → AllDigits s → Without colon s
unfolding is_digit
AllDigits-Without [] h = tt
AllDigits-Without (c ∷ s) h = ground (arith, AllDigits-Without s h.1)

pub show-Without : (n : ℕ) → Without colon (show n)
show-Without n = AllDigits-Without (show n) (show-AllDigits n)
