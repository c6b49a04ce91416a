-- ===== src/Control/Request.antt =====
-- crates/common/src/control/request.rs: parsing a command line into a request. `shlex::split` and
-- clap's `try_get_matches_from` are parameters.
pub mod Trim
use trust.Prelude.{
  ℕ, Bool, true, false, ◌||◌, ◌&&◌, Option, none, some, List, [], ◌∷◌, ◌++◌, Text, codes, beq,
  text_eq, if◌then◌else◌, ◌==◌, leb,
}
use trust.AppError.{AppError, general, gen_with_code_and_msg}
use trust.Control.Codes.{code_ok, code_bad_request}
use trust.Result.{Result, ok, err, panic, ◌>>=◌, ok_or}

pub data Request : Type 0 where
  no_request about connections ping proxies services quit : Request
  start : Text → ℕ → Request
  stop : Text → Request

-- `get_one("service")` and `get_one("port")` of a subcommand's `ArgMatches`.
pub record ArgMatches : Type 0 where
  pub service : Option Text
  pub port : Option ℕ

-- What clap makes of the arguments: the subcommand, or an error of one of three kinds.
pub data Matches : Type 0 where
  subcommand : Option (Text × ArgMatches) → Matches
  display_help display_version other_error : Text → Matches

pub record CommandParser : Type 0 where
  pub split_args : Text → Option (List Text)
  pub try_get_matches_from : List Text → Matches

-- `char::is_whitespace`.
abbrev pub is_whitespace : ℕ → Bool
is_whitespace c =
    (leb 9 c && leb c 13)
    || c == 32
    || c == 0x85
    || c == 0xa0
    || c == 0x1680
    || (leb 0x2000 c && leb c 0x200a)
    || c == 0x2028
    || c == 0x2029
    || c == 0x202f
    || c == 0x205f
    || c == 0x3000

unfoldable pub trim_start : Text → Text
trim_start [] = []
trim_start (c ∷ s) = let rest = trim_start s in if is_whitespace c then rest else c ∷ s

abbrev pub end_cons : ℕ → Text → Text
end_cons c [] = if is_whitespace c then [] else c ∷ []
end_cons c (x ∷ t) = c ∷ x ∷ t

unfoldable pub trim_end : Text → Text
trim_end [] = []
trim_end (c ∷ s) = end_cons c (trim_end s)

-- `str::trim`.
unfoldable pub trim : Text → Text
unfolding trim_start trim_end
trim s = trim_end (trim_start s)

-- `RequestProcessor::parse_start_request`.
unfoldable pub parse_start_request : ArgMatches → Result Request
parse_start_request m = elim m.service [
  | none ↦ err (general (codes "Service name is required for the \"start\" command"))
  | some service_name ↦ elim m.port [
    | none ↦ err (general (codes "Local port is required for the \"start\" command"))
    | some local_port ↦ ok (start service_name local_port)
  ]
]

-- `RequestProcessor::parse_stop_request`.
unfoldable pub parse_stop_request : ArgMatches → Result Request
parse_stop_request m = elim m.service [
  | none ↦ err (general (codes "Service name is required for the \"stop\" command"))
  | some service_name ↦ ok (stop service_name)
]

abbrev pub is_empty : Text → Bool
is_empty [] = true
is_empty (c ∷ s) = false

-- The `match` on the subcommand's name.
unfoldable pub parse_subcommand : Text → ArgMatches → Result Request
unfolding parse_start_request parse_stop_request
parse_subcommand name m =
    if beq name (codes "about")
    then ok about
    else if beq name (codes "connections")
    then ok connections
    else if beq name (codes "ping")
    then ok ping
    else if beq name (codes "proxies")
    then ok proxies
    else if beq name (codes "services")
    then ok services
    else if beq name (codes "start")
    then parse_start_request m
    else if beq name (codes "stop")
    then parse_stop_request m
    else if beq name (codes "quit")
    then ok quit
    else if is_empty name
    then ok no_request
    else err (gen_with_code_and_msg code_bad_request (codes "Unknown command: cmd=" ++ name))

unfoldable pub parse_matches : Matches → Result Request
unfolding parse_subcommand
parse_matches (subcommand (some (name, m))) = parse_subcommand name m
parse_matches (subcommand none) = panic
parse_matches (display_help text) = err (gen_with_code_and_msg code_ok text)
parse_matches (display_version text) = err (gen_with_code_and_msg code_ok text)
parse_matches (other_error text) = err (gen_with_code_and_msg code_bad_request text)

-- `RequestProcessor::parse`.
unfoldable pub parse : CommandParser → Text → Result Request
unfolding trim parse_matches
parse p line = do
  let trimmed = trim line
  args ←
      ok_or (p.split_args trimmed)
        (gen_with_code_and_msg code_bad_request (codes "Invalid command line: line=" ++ trimmed))
  parse_matches (p.try_get_matches_from args)
