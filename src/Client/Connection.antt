-- ===== src/Client/Connection.antt =====
-- crates/client/src/gateway/connection.rs: the client's end of the control connection. The sender of
-- the connection's events is the field's channel.
pub mod Typed
use trust.Prelude.{
  ℕ, ◌⊎◌, inl, inr, Bool, true, false, Option, none, some, List, [], ◌∷◌, ◌++◌, Text, codes,
  if◌then◌else◌,
}
use trust.AppError.{AppError, ForeignError, to_string, gen_with_msg_and_err}
use trust.Channel.{Channel, send, send_error}
use trust.Result.{Result, ok, err, panic}
use trust.Text.Lines.{lines}
use trust.Control.Request.{Request, no_request}
use trust.Gateway.Controller.{ConnectionEvent, closing, write}
use trust.Client.Manager.{ClientServiceMgr}
use trust.Client.Console.{
  ShellOutputWriter, ShellInputReader, write_all, write_shell_prompt, next_line, and_then, newline,
}
use trust.Client.Controller.{Outside, Shared, process_response, validate_request}

pub record ServerConnVisitor : Type 0 where
  pub stdin_connector : Option ShellInputReader
  pub event_channel_sender : Option (Channel ConnectionEvent)
  pub shared : Shared

-- `ServerConnVisitor::new`.
unfoldable pub new : ClientServiceMgr → ShellOutputWriter → ServerConnVisitor
new service_mgr console = record {
  stdin_connector = none;
  event_channel_sender = none;
  shared = record { service_mgr = service_mgr; console = console };
}

-- `set_event_channel_sender`.
unfoldable pub set_event_channel_sender :
    Channel ConnectionEvent → ServerConnVisitor → ServerConnVisitor
set_event_channel_sender events v = record v { event_channel_sender = some events }

abbrev pub Outcome : Type 0
Outcome = Result (Unit {0}) × ServerConnVisitor

abbrev pub with_shared : ServerConnVisitor → Shared → ServerConnVisitor
with_shared v s = record v { shared = s }

abbrev pub with_console : ServerConnVisitor → ShellOutputWriter → ServerConnVisitor
with_console v w = record v { shared = record (v.shared) { console = w } }

-- The prompt, without the welcome.
abbrev pub prompt : Text → ServerConnVisitor → Outcome
prompt version v =
    let shown = write_shell_prompt version false v.shared.console in
    (shown.0, with_console v shown.1)

-- A command goes to the gateway.
unfoldable pub send_command : Text → ServerConnVisitor → Outcome
send_command line v = elim v.event_channel_sender [
  | none ↦ (panic, v)
  | some events ↦
      let sent = send (write line) events in
      if sent.0 then (ok tt, record v { event_channel_sender = some sent.1 }) else (
        err (gen_with_msg_and_err (codes "Error sending write event") send_error),
        record v { event_channel_sender = some (send closing sent.1).1 },
      )
]

module _ (o : Outside) where
  -- `on_connected`. The thread that reads standard input is not run here.
  unfoldable pub on_connected : ServerConnVisitor → Outcome
  unfolding write_shell_prompt
  on_connected v =
      let shown = write_shell_prompt o.version true v.shared.console in
      and_then (shown.0, with_console v shown.1)
        λ t w.
          (ok tt, record w { stdin_connector = some (record { queue = []; connected = true }) })

  -- The loop over the lines, up to the first that fails.
  unfoldable pub process_lines : List Text → Shared → Result (Unit {0}) × Shared
  unfolding process_response
  process_lines [] s = (ok tt, s)
  process_lines (line ∷ rest) s = and_then (process_response o line s) λ r t. process_lines rest t

  -- `on_connection_read`. `from_utf8` is an argument.
  unfoldable pub on_connection_read :
      (List ℕ → Text ⊎ ForeignError) → List ℕ → ServerConnVisitor → Outcome
  unfolding process_lines lines write_shell_prompt
  on_connection_read from_utf8 bytes v = elim (from_utf8 bytes) [
    | inr e ↦
        (err (gen_with_msg_and_err (codes "Error converting gateway response data as UTF8") e), v)
    | inl text ↦
        let done = process_lines (lines text) v.shared in
        and_then (done.0, with_shared v done.1) λ t w. prompt o.version w
  ]

  -- A line that is no command: the error is shown.
  unfoldable pub show_invalid : AppError → ServerConnVisitor → Outcome
  unfolding write_all write_shell_prompt to_string
  show_invalid e v =
      let shown =
        write_all (codes "Error writing invalid command response to STDOUT")
          (to_string e ++ newline ∷ []) v.shared.console in
      and_then (shown.0, with_console v shown.1) λ t w. prompt o.version w

  unfoldable pub on_request : Text → Result Request → ServerConnVisitor → Outcome
  unfolding show_invalid send_command write_shell_prompt
  on_request line (ok no_request) v = prompt o.version v
  on_request line (ok _) v = send_command line v
  on_request line (err e) v = show_invalid e v
  on_request line panic v = (panic, v)

  unfoldable pub on_line : Result (Option Text) → ServerConnVisitor → Outcome
  unfolding on_request validate_request
  on_line (ok none) v = (ok tt, v)
  on_line (ok (some line)) v = on_request line (validate_request o line) v
  on_line (err e) v = (err e, v)
  on_line panic v = (panic, v)

  -- `on_polling_cycle`.
  unfoldable pub on_polling_cycle : ServerConnVisitor → Outcome
  unfolding on_line next_line
  on_polling_cycle v = elim v.stdin_connector [
    | none ↦ (panic, v)
    | some reader ↦
        let read = next_line reader in on_line read.0 (record v { stdin_connector = some read.1 })
  ]
