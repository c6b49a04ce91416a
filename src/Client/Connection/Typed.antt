-- ===== src/Client/Connection/Typed.antt =====
-- What becomes of a line that the user types.
use trust.Prelude.{
  ◌≡◌, inl, inr, refl, Bool, true, false, some, List, [], ◌∷◌, ◌++◌, Text, if◌then◌else◌, codes,
}
use trust.AppError.{AppError, to_string}
use trust.Channel.{Channel, IsOpen, accept, send-IsOpen}
use trust.Result.{Result, ok, err, panic, Result-cases}
use trust.Control.Request.{
  Request, no_request, about, connections, ping, proxies, services, quit, start, stop,
}
use trust.Gateway.Controller.{ConnectionEvent, write}
use trust.Client.Console.{InputLine, write_all, next_line, newline}
use trust.Client.Controller.{Outside, validate_request}
use trust.Client.Connection.{
  ServerConnVisitor, show_invalid, send_command, on_request, on_line, on_polling_cycle, prompt,
}

abbrev pub is_command : Result Request → Bool
is_command (ok no_request) = false
is_command (ok _) = true
is_command (err e) = false
is_command panic = false

-- The visitor after a line was dealt with: only the events and the shell's output may have changed.
pub record Typed (v w : ServerConnVisitor) (events : Channel ConnectionEvent) : Type 0 where
  pub sent : w.event_channel_sender ≡ some events
  pub same_input : w.stdin_connector ≡ v.stdin_connector
  pub same_services : w.shared.service_mgr ≡ v.shared.service_mgr

module _ (o : Outside) (v : ServerConnVisitor) (events : Channel ConnectionEvent)
    (connected : v.event_channel_sender ≡ some events) where
  prompt-Typed : (version : Text) → Typed v (prompt version v).1 events
  prompt-Typed version = record { sent = connected; same_input = refl; same_services = refl }

  show_invalid-Typed : (e : AppError) → Typed v (show_invalid o e v).1 events
  unfolding show_invalid
  show_invalid-Typed e =
      elim (Result-cases
        (write_all (codes "Error writing invalid command response to STDOUT")
          (to_string e ++ newline ∷ []) v.shared.console).0) [
            | inl (t, q) ↦
                rw (q, show_invalid)
                  (record { sent = connected; same_input = refl; same_services = refl })
            | inr (inl (x, q)) ↦
                rw (q, show_invalid)
                  (record { sent = connected; same_input = refl; same_services = refl })
            | inr (inr q) ↦
                rw (q, show_invalid)
                  (record { sent = connected; same_input = refl; same_services = refl })
          ]

  send_command-Typed :
      (line : Text) → IsOpen events → Typed v (send_command line v).1 (accept (write line) events)
  unfolding send_command
  send_command-Typed line listening =
      rw (connected, send_command)
        (rw (send-IsOpen (write line) events listening)
          (record { sent = refl; same_input = refl; same_services = refl }))

  on_request-Typed :
      (line : Text) (r : Result Request)
      → IsOpen events
      → Typed v
          (on_request o line r v).1
          (if is_command r then accept (write line) events else events)
  unfolding on_request
  on_request-Typed line (ok no_request) listening = prompt-Typed o.version
  on_request-Typed line (ok about) listening = send_command-Typed line listening
  on_request-Typed line (ok connections) listening = send_command-Typed line listening
  on_request-Typed line (ok ping) listening = send_command-Typed line listening
  on_request-Typed line (ok proxies) listening = send_command-Typed line listening
  on_request-Typed line (ok services) listening = send_command-Typed line listening
  on_request-Typed line (ok quit) listening = send_command-Typed line listening
  on_request-Typed line (ok (start service_name local_port)) listening =
      send_command-Typed line listening
  on_request-Typed line (ok (stop service_name)) listening = send_command-Typed line listening
  on_request-Typed line (err e) listening = show_invalid-Typed e
  on_request-Typed line panic listening = record {
    sent = connected;
    same_input = refl;
    same_services = refl;
  }

-- While the connection takes events, a polling cycle takes the next line that the user typed, and
-- sends it to the gateway, with its line end, just if it reads as a command. It changes no service.
pub on_polling_cycle-Typed :
    (o : Outside) (v : ServerConnVisitor) (events : Channel ConnectionEvent) (line : Text)
    (queue : List InputLine) (is_connected : Bool)
    → v.event_channel_sender ≡ some events
    → IsOpen events
    → v.stdin_connector ≡ some (record { queue = inl line ∷ queue; connected = is_connected })
    → let text = line ++ newline ∷ [] in
      Typed
        (record v { stdin_connector = some (record { queue = queue; connected = is_connected }) })
        (on_polling_cycle o v).1
        (if is_command (validate_request o text) then accept (write text) events else events)
unfolding on_polling_cycle on_line next_line
on_polling_cycle-Typed o v events line queue is_connected taken listening input =
    rw (input, on_polling_cycle)
      (on_request-Typed o
        (record v { stdin_connector = some (record { queue = queue; connected = is_connected }) })
        events taken (line ++ newline ∷ []) (validate_request o (line ++ newline ∷ [])) listening)
