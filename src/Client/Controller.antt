-- ===== src/Client/Controller.antt =====
-- crates/client/src/gateway/controller.rs: checking the user's commands, and acting on the gateway's
-- answers.
pub mod Start
pub mod Quit
use trust.Prelude.{
  ℕ, ◌⊎◌, inl, inr, Bool, true, false, Option, none, some, List, [], ◌∷◌, ◌++◌, map, Text, codes,
  ◌==◌, if◌then◌else◌,
}
use trust.AppError.{AppError, ForeignError}
use trust.Result.{Result, ok, err, panic, ◌>>=◌, unwrap}
use trust.Control.Codes.{code_ok}
use trust.Control.Request
use trust.Control.Request.{Request, CommandParser, proxies, start, quit}
use trust.Control.Response
use trust.Control.Response.{
  Json, Response, Proxy, or_msg, collect, proxies_from_serde_value, to_model,
}
use trust.Client.Manager.{
  ClientServiceMgr, ProxyAddrs, get_proxy_addrs_for_service, startup, shutdown,
}
use trust.Client.Console.{ShellOutputWriter, write_all, and_then, newline}

-- JSON, with its pretty printer, the command line's parser, what `{:?}` prints of
-- an error, and the version of the package.
pub record Outside : Type 1 where
  pub json : Json
  pub to_string_pretty : Response json.Value → Text ⊎ ForeignError
  pub parser : CommandParser
  pub debug_error : AppError → Text
  pub version : Text

-- What the control plane shares with others: the service manager and the shell's output.
pub record Shared : Type 0 where
  pub service_mgr : ClientServiceMgr
  pub console : ShellOutputWriter

-- The port of a proxy that the client listens on.
unfoldable pub with_client_port : ClientServiceMgr → Proxy → Proxy
unfolding get_proxy_addrs_for_service
with_client_port m p = elim (get_proxy_addrs_for_service p.service.id m) [
  | none ↦ p
  | some addrs ↦ record p { client_port = some addrs.client_port }
]

-- `proxies.get(0).unwrap()`.
abbrev pub first : List Proxy → Result Proxy
first [] = panic
first (p ∷ ps) = ok p

module _ (o : Outside) where
  -- `process_response_proxies`: the response with the ports filled in.
  unfoldable pub process_response_proxies :
      ClientServiceMgr → Response o.json.Value → Result (Response o.json.Value)
  unfolding with_client_port collect
  process_response_proxies m r = do
    value ← unwrap r.data_value
    found ← proxies_from_serde_value o.json value
    values ←
        collect
          (λ p.
            or_msg (codes "Failed converting Proxies vector to serde Value::Array")
              (o.json.proxy.to_value p))
          (map (with_client_port m) found)
    ok (record r { data_value = some (o.json.array values) })

  -- The service and the addresses that an answer to `start` asks for.
  unfoldable pub start_args : Response o.json.Value → Result (Proxy × ProxyAddrs)
  start_args r = do
    value ← unwrap r.data_value
    found ← proxies_from_serde_value o.json value
    p ← first found
    client_port ← unwrap p.client_port
    gateway_host ← unwrap p.gateway_host
    ok (
      p,
      record {
        client_port = client_port;
        gateway_host = gateway_host;
        gateway_port = p.gateway_port;
      },
    )

  -- `process_response_start`.
  unfoldable pub process_response_start :
      ClientServiceMgr → Response o.json.Value → Result (Unit {0}) × ClientServiceMgr
  unfolding start_args startup to_model
  process_response_start m r = elim (start_args r) [
    | ok (p, addrs) ↦
        let started = startup (to_model p.service) addrs m in
        (started.0 >>= λ known. ok tt, started.1)
    | err e ↦ (err e, m)
    | panic ↦ (panic, m)
  ]

  -- What an answer makes of the service manager, and the answer that is then shown.
  unfoldable pub act_on :
      Request
      → Response o.json.Value
      → ClientServiceMgr
      → Result (Response o.json.Value) × ClientServiceMgr
  unfolding process_response_proxies process_response_start shutdown
  act_on proxies r m = (process_response_proxies m r, m)
  act_on (start service_name local_port) r m =
      let done = process_response_start m r in (done.0 >>= λ t. ok r, done.1)
  act_on quit r m = let done = shutdown o.debug_error m in (done.0 >>= λ t. ok r, done.1)
  act_on _ r m = (ok r, m)

  unfoldable pub act :
      Response o.json.Value → ClientServiceMgr → Result (Response o.json.Value) × ClientServiceMgr
  unfolding act_on
  act r m = if r.code == code_ok then act_on r.request r m else (ok r, m)

  -- "Write response to REPL shell".
  unfoldable pub show_response :
      Response o.json.Value → ShellOutputWriter → Result (Unit {0}) × ShellOutputWriter
  unfolding write_all
  show_response r w =
      and_then (or_msg (codes "error serializing response") (o.to_string_pretty r), w)
        λ text v. write_all (codes "Error writing response to STDOUT") (text ++ newline ∷ []) v

  -- `process_response`.
  unfoldable pub process_response : Text → Shared → Result (Response o.json.Value) × Shared
  unfolding Response.parse act show_response
  process_response response_line s =
      and_then (Response.parse o.json response_line, s)
        λ r t.
          let acted = act r t.service_mgr in
          and_then (acted.0, record t { service_mgr = acted.1 })
            λ answer u.
              let shown = show_response answer u.console in
              (shown.0 >>= λ done. ok answer, record u { console = shown.1 })

  -- `validate_request`.
  unfoldable pub validate_request : Text → Result Request
  unfolding Request.parse
  validate_request command_line = Request.parse o.parser command_line
