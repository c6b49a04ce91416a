-- ===== src/Alpn/RoundTrip.antt =====
-- Reading back the names that `display` writes.
use trust.Prelude.{
  ℕ, ◌<◌, ◌≤◌, ◌≡◌, ◌≢◌, refl, Bool, true, some, [], ◌∷◌, ◌++◌, Text, arith, text_eq,
}
use trust.Text.{show, is_digit, u64_bound}
use trust.Text.Decimal.{
  AllDigits, show-AllDigits, show-ne-nil, parse_uint-show, parse_uint-show_overflow,
}
use trust.Result.{ok, panic}
use trust.Alpn.{
  Protocol, control_plane, service, protocol_service, create_service_protocol, display, all_decimal,
  captured, parse_captured, parse,
}

-- The identifiers are `u64` values.
abbrev pub IsU64 : Protocol → Type 0
IsU64 control_plane = Unit
IsU64 (service service_id) = service_id < u64_bound

module _ (is_decimal : ℕ → Bool)
    (ascii_decimal : (c : ℕ) → is_digit c ≡ true → is_decimal c ≡ true) where
  all_decimal-AllDigits : (s : Text) → AllDigits s → all_decimal is_decimal s ≡ true
  all_decimal-AllDigits [] h = refl
  all_decimal-AllDigits (c ∷ s) h = ground (arith, ascii_decimal c h.0, all_decimal-AllDigits s h.1)

  captured-digits :
      (t : Text) → t ≢ [] → AllDigits t → captured is_decimal (protocol_service ++ t) ≡ some t
  unfolding captured
  captured-digits [] h d = absurd (h refl)
  captured-digits (c ∷ t) h d = ground (arith, all_decimal-AllDigits (c ∷ t) d)

  parse-create :
      (service_id : ℕ)
      → parse is_decimal (create_service_protocol service_id)
        ≡ parse_captured is_decimal (some (show service_id))
  unfolding parse create_service_protocol
  parse-create service_id = ground (
    arith,
    captured-digits (show service_id) (show-ne-nil service_id) (show-AllDigits service_id),
  )

  -- Where the regex class `\d` has the ten ASCII digits, every protocol whose identifier is a `u64` is parsed back from the name that is printed for it.
  pub parse-display : (p : Protocol) → IsU64 p → parse is_decimal (display p) ≡ ok (some p)
  unfolding parse display parse_captured
  parse-display control_plane h = refl
  parse-display (service service_id) h =
      ground (arith, parse-create service_id, parse_uint-show u64_bound service_id h)

  -- Where the regex class `\d` has the ten ASCII digits: on `T0SRV` followed by a number that is no `u64`, `parse` panics and does not return `None`.
  pub parse_panics : (n : ℕ) → u64_bound ≤ n → parse is_decimal (create_service_protocol n) ≡ panic
  unfolding parse_captured
  parse_panics n h = ground (arith, parse-create n, parse_uint-show_overflow u64_bound n h)
