-- ===== src/Tests/Answers.antt =====
-- Runs of crates/client/src/gateway, and of crates/common/src/net/tcp_server/conn_std.rs.
use trust.Prelude.{
  ℕ, zero, suc, ◌≡◌, ◌⊎◌, inl, refl, true, false, Option, none, some, List, [], ◌∷◌, ◌++◌, Text,
  codes, text_eq, nat_eq, if◌then◌else◌, arith, length, take,
}
use trust.HashMap.{get}
use trust.AppError.{ForeignError, to_string}
use trust.Channel.{accept}
use trust.Result.{ok, panic}
use trust.Model
use trust.Model.{tcp, Service}
use trust.Control.Response
use trust.Control.Response.{Response, to_model}
use trust.Repository.AccessRepo
use trust.Repository.AccessRepo.{AccessRepo}
use trust.Gateway.Manager
use trust.Gateway.Manager.{GatewayServiceMgr}
use trust.Gateway.Controller
use trust.Gateway.Controller.{
  ControlPlane, prepare_response_service, ConnectionEvent, closing, closed, write,
}
use trust.Gateway.Controller.Commands.{process_cmd_start}
use trust.Client.Manager as ClientManager
use trust.Client.Manager.{ClientServiceMgr, startup}
use trust.Client.Controller.{Outside, Shared, process_response, validate_request}
use trust.Client.Controller.Start.{process_cmd_start-process_response}
use trust.Client.Console.{newline}
use trust.Client.Connection.{ServerConnVisitor, on_polling_cycle}
use trust.Client.Connection.Typed.{Typed, is_command, on_polling_cycle-Typed}
use trust.Net.Connection.{
  Connection, ConnectionVisitor, got, ends_unexpectedly, would_block, stops, handle_events,
  poll_connection, read_chunks,
}
use trust.Net.Connection.Events.{Handles, handle_events-Handles}
use trust.Net.Connection.Polling.{poll_connection-closes}
use trust.Net.Connection.Content.{read_chunks-full, handle_events-reorders, concat}
use trust.Tests.Samples.{config, control, tasks, events, parser, outside}
use trust.Tests.Wire.{wire, wire-IsCodec, wire-ReadsBack}

-- A service with a name of one character, to which Ann has access.
abbrev talk : Service
talk = record {
  service_id = 300;
  name = codes "c";
  transport = tcp;
  host = codes "talk.local";
  port = 9000;
}

abbrev talk_control : ControlPlane
talk_control = record control {
  access_repo = record {
    is_poisoned = false;
    table = ((7, 300), record { user_id = 7; service_id = 300 }) ∷ [];
  };
  services_by_name = (codes "c", talk) ∷ [];
}

abbrev gateway_side : Controller.Outside
gateway_side = record outside { json = wire }

abbrev gateway_mgr : GatewayServiceMgr
gateway_mgr = Manager.new (record config { gateway_service_host = some (codes "h") }) tasks

abbrev pretty : Response wire.Value → Text ⊎ ForeignError
pretty r = inl (codes "{}")

abbrev client_side : Outside
client_side = record {
  json = wire;
  to_string_pretty = pretty;
  parser = parser;
  debug_error = to_string;
  version = codes "0.1";
}

abbrev shell : Shared
shell = record {
  service_mgr = ClientManager.new tasks;
  console = record { written = []; write_error = none; flush_error = none };
}

abbrev answer_line : Text
answer_line = 200 ∷ b'c' ∷ 5000 ∷ 300 ∷ b'c' ∷ b'h' ∷ 8500 ∷ 5000 ∷ []

gateway_answers :
    (process_cmd_start gateway_side talk_control (codes "c") 5000 gateway_mgr).0 ≡ ok answer_line
unfolding process_cmd_start get AccessRepo.get Manager.startup Manager.new Manager.start_new
    Response.try_into Controller.prepare_response prepare_response_service
gateway_answers = refl

process_cmd_start-process_response_example :
    (service : Model.Service) × (address : Option Text × ℕ) × ((Manager.startup service
        gateway_mgr).0
      ≡ ok address)
    × (address.0 ≡ none → (process_response client_side answer_line shell).0 ≡ panic)
    × ((host : Text)
        → address.0 ≡ some host
        → (process_response client_side answer_line shell).1.service_mgr
          ≡ (startup
              (to_model (prepare_response_service service talk_control.mask_addresses))
              (record { client_port = 5000; gateway_host = host; gateway_port = address.1 })
              shell.service_mgr).1)
process_cmd_start-process_response_example =
    process_cmd_start-process_response gateway_side talk_control (codes "c") 5000 gateway_mgr
      answer_line pretty parser to_string (codes "0.1") shell wire-IsCodec wire-ReadsBack
      gateway_answers

-- Two lines wait; the first reads as a command.
abbrev typing : ServerConnVisitor
typing = record {
  stdin_connector =
      some (record { queue = inl (codes "ping") ∷ inl (codes "quit") ∷ []; connected = true });
  event_channel_sender = some events;
  shared = shell;
}

on_polling_cycle-Typed_example :
    let text = codes "ping" ++ newline ∷ [] in
    Typed
      (record typing {
        stdin_connector = some (record { queue = inl (codes "quit") ∷ []; connected = true });
      })
      (on_polling_cycle client_side typing).1
      (if is_command (validate_request client_side text)
        then accept (write text) events
        else events)
on_polling_cycle-Typed_example =
    on_polling_cycle-Typed client_side typing events (codes "ping") (inl (codes "quit") ∷ []) true
      refl refl refl

-- A visitor that does nothing.
abbrev quiet : ConnectionVisitor ℕ
quiet = record {
  on_connection_read = λ bytes s. (ok tt, s, []);
  on_polling_cycle = λ s. (ok tt, s, []);
  on_shutdown = λ s. (ok tt, s, []);
}

-- Its next read gives `UnexpectedEof`, and two writes wait, of which the first blocks.
abbrev conn : Connection ℕ
conn = record {
  visitor = 0;
  incoming = ends_unexpectedly ∷ [];
  outgoing = stops 1 would_block ∷ [];
  written = [];
  shutdown_error = none;
  event_channel = write (1 ∷ 2 ∷ []) ∷ write (3 ∷ []) ∷ [];
  is_closed = false;
}

handle_events-Handles_example : Handles quiet conn (handle_events quiet 5 conn)
handle_events-Handles_example = handle_events-Handles quiet 5 conn (omega arith)

poll_connection-closes_example :
    let done = poll_connection quiet 1 conn in
    (done.1.is_closed ≡ true) × ((done.0 ≡ some (ok tt)) ⊎ (done.0 ≡ some panic))
poll_connection-closes_example =
    poll_connection-closes quiet 0 conn ends_unexpectedly [] refl refl ((λ q. cc), ((λ q. cc), tt))
      refl (λ q. cc) tt

abbrev blocks_of : ℕ → List ℕ
blocks_of zero = []
blocks_of (suc n) = 7 ∷ blocks_of n

length-blocks_of : (n : ℕ) → length (blocks_of n) ≡ n
length-blocks_of zero = refl
length-blocks_of (suc n) = omega (arith, length-blocks_of n)

read_chunks-full_example :
    read_chunks (got (blocks_of 1024) ∷ got (1 ∷ 2 ∷ []) ∷ ends_unexpectedly ∷ []) ≡ record {
      buffer = ok (concat (blocks_of 1024 ∷ []) ++ 1 ∷ 2 ∷ []);
      left = ends_unexpectedly ∷ [];
      at_end = false;
    }
read_chunks-full_example =
    read_chunks-full (blocks_of 1024 ∷ []) (1 ∷ 2 ∷ []) (ends_unexpectedly ∷ [])
      (length-blocks_of 1024, tt) (omega arith)

handle_events-reorders_example :
    (handle_events quiet 5 (record conn {
      event_channel = write (1 ∷ 2 ∷ []) ∷ write (3 ∷ []) ∷ [];
      outgoing = stops 1 would_block ∷ [];
    })).1.written
    ≡ [] ++ (take 1 (1 ∷ 2 ∷ []) ++ (3 ∷ [] ++ 1 ∷ 2 ∷ []))
handle_events-reorders_example = handle_events-reorders quiet conn 1 (1 ∷ 2 ∷ []) (3 ∷ []) 1
