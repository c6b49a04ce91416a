-- ===== src/Alpn.antt =====
-- crates/common/src/crypto/alpn.rs: the ALPN names by which a connection says what it is for.
pub mod RoundTrip
use trust.Prelude.{
  ℕ, Bool, true, false, ◌&&◌, Option, none, some, [], ◌∷◌, ◌++◌, Text, codes, beq, text_eq,
  if◌then◌else◌, ◌==◌,
}
use trust.Text.{show, parse_uint, u64_bound}
use trust.Result.{Result, ok, panic}

pub data Protocol : Type 0 where
  control_plane : Protocol
  service : ℕ → Protocol

abbrev pub protocol_control_plane : Text
protocol_control_plane = codes "T0CP"

abbrev pub protocol_service : Text
protocol_service = codes "T0SRV"

-- The rest of a text behind a prefix.
unfoldable pub strip_prefix : Text → Text → Option Text
strip_prefix [] s = some s
strip_prefix (c ∷ p) [] = none
strip_prefix (c ∷ p) (x ∷ s) = if x == c then strip_prefix p s else none

-- `Protocol::create_service_protocol`.
unfoldable pub create_service_protocol : ℕ → Text
create_service_protocol service_id = protocol_service ++ show service_id

-- `impl Display for Protocol`.
unfoldable pub display : Protocol → Text
unfolding create_service_protocol
display control_plane = protocol_control_plane
display (service service_id) = create_service_protocol service_id

-- `\d` of the crate `regex` is Unicode's class of decimal digits, a parameter here.
module _ (is_decimal : ℕ → Bool) where
  abbrev pub all_decimal : Text → Bool
  all_decimal [] = true
  all_decimal (c ∷ s) = is_decimal c && all_decimal s

  -- The group `(\d+)` of `^T0SRV(\d+)$`.
  unfoldable pub captured : Text → Option Text
  unfolding strip_prefix
  captured s = elim (strip_prefix protocol_service s) [
    | none ↦ none
    | some [] ↦ none
    | some (c ∷ t) ↦ if all_decimal (c ∷ t) then some (c ∷ t) else none
  ]

  -- The captured text is read as a `u64`, and the result unwrapped.
  unfoldable pub parse_captured : Option Text → Result (Option Protocol)
  parse_captured none = ok none
  parse_captured (some t) = elim (parse_uint u64_bound t) [
    | none ↦ panic
    | some service_id ↦ ok (some (service service_id))
  ]

  -- `Protocol::parse`.
  unfoldable pub parse : Text → Result (Option Protocol)
  unfolding captured parse_captured
  parse s =
      if beq s protocol_control_plane then ok (some control_plane) else parse_captured (captured s)
