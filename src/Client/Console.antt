-- ===== src/Client/Console.antt =====
-- crates/client/src/console.rs: the client's shell, which the user types into. The writer and standard
-- input are arguments.
use trust.Prelude.{
  ℕ, ◌⊎◌, inl, inr, Bool, Option, none, some, List, [], ◌∷◌, ◌++◌, Text, codes, if◌then◌else◌,
}
use trust.AppError.{ForeignError, general, gen_with_msg_and_err}
use trust.Channel.{Channel, send}
use trust.Result.{Result, ok, err, panic}

-- What was written, and why writing or flushing fails, if it does.
pub record ShellOutputWriter : Type 0 where
  pub written : Text
  pub write_error : Option ForeignError
  pub flush_error : Option ForeignError

-- An action on a state goes on after a success.
abbrev pub and_then : {A B S : Type 0} → Result A × S → (A → S → Result B × S) → Result B × S
and_then (ok a, s) next = next a s
and_then (err e, s) next = (err e, s)
and_then (panic, s) next = (panic, s)

-- `write_all(…).map_err(…)`.
unfoldable pub write_all : Text → Text → ShellOutputWriter → Result (Unit {0}) × ShellOutputWriter
write_all msg text w = elim w.write_error [
  | none ↦ (ok tt, record w { written = w.written ++ text })
  | some e ↦ (err (gen_with_msg_and_err msg e), w)
]

-- `flush`.
abbrev pub flush : ShellOutputWriter → Result (Unit {0}) × ShellOutputWriter
flush w = elim w.flush_error [
  | none ↦ (ok tt, w)
  | some e ↦ (err (gen_with_msg_and_err (codes "Error flushing STDOUT") e), w)
]

abbrev pub shell_prompt : Text
shell_prompt = codes "> "

abbrev pub newline : ℕ
newline = 10

abbrev pub welcome : Text → Text
welcome version =
    codes "Trust0 SDP Platform v"
    ++ (version ++ (codes " (enter 'help' for commands)" ++ newline ∷ []))

-- `write_shell_prompt`, of a package version.
unfoldable pub write_shell_prompt :
    Text → Bool → ShellOutputWriter → Result (Unit {0}) × ShellOutputWriter
unfolding write_all
write_shell_prompt version include_welcome w =
    let greeted =
      if include_welcome
      then write_all (codes "Error writing welcome msg") (welcome version) w
      else (ok tt, w) in
    and_then greeted
      λ g v. and_then (write_all (codes "Error writing prompt") shell_prompt v) λ p u. flush u

-- A line of standard input, or why it could not be read.
abbrev pub InputLine : Type 0
InputLine = Text ⊎ ForeignError

-- `lines_connector_processor`: the lines go into the channel until a send fails.
unfoldable pub lines_connector_processor : List InputLine → Channel InputLine → Channel InputLine
lines_connector_processor [] c = c
lines_connector_processor (line ∷ lines) c =
    let sent = send line c in
    let rest = lines_connector_processor lines sent.1 in if sent.0 then rest else sent.1

-- The queue of the reader: the lines that wait, and whether a sender is left.
pub record ShellInputReader : Type 0 where
  pub queue : List InputLine
  pub connected : Bool

-- `next_line`: the next line that waits, with its line end.
unfoldable pub next_line : ShellInputReader → Result (Option Text) × ShellInputReader
next_line r = elim r.queue [
  | inl line ∷ queue ↦ (ok (some (line ++ newline ∷ [])), record r { queue = queue })
  | inr e ∷ queue ↦
      (err (gen_with_msg_and_err (codes "Error processing input") e), record r { queue = queue })
  | [] ↦ (
    if r.connected then ok none else err (general (codes "Input channel sender disconnected")),
    r,
  )
]
