-- ===== src/Client/Controller/Start.antt =====
-- What the client makes of the gateway's answer to `start`: crates/gateway/src/client/controller.rs on
-- one side, crates/client/src/gateway/controller.rs on the other.
use trust.Prelude.{
  ℕ, codes, ◌∙◌, ◌≡◌, ◌⊎◌, inl, inr, refl, Option, none, some, [], ◌∷◌, Text, arith,
}
use trust.AppError.{AppError, ForeignError}
use trust.Result.{ok, panic, Result-cases, >>=-eq-ok}
use trust.Model
use trust.Control.Codes.{code_ok}
use trust.Control.Request.{CommandParser, start}
use trust.Control.Response
use trust.Control.Response.{
  Json, Response, Proxy, or_msg, try_into, to_model, proxies_from_serde_value,
}
use trust.Control.Response.Values.{IsCodec, from_serde_value-one}
use trust.Gateway.Manager
use trust.Gateway.Manager.{GatewayServiceMgr}
use trust.Gateway.Controller
use trust.Gateway.Controller.{ControlPlane, prepare_response, prepare_response_service}
use trust.Gateway.Controller.Commands.{startable, started, process_cmd_start}
use trust.Client.Manager.{ClientServiceMgr, startup}
use trust.Client.Controller.{
  Outside, Shared, start_args, process_response_start, act_on, act, process_response,
}

-- An answer that holds a proxy, which JSON writes as an object, is read back from its line.
abbrev pub ReadsBack : Json → Type 0
ReadsBack j =
    (r : Response j.Value) (p : Proxy) (v : j.Value) (t : Text)
    → j.proxy.to_value p ≡ inl v
    → r.data_value ≡ some v
    → j.to_string r ≡ inl t
    → j.from_str t ≡ inl r

-- What the gateway tells of a service that it started.
abbrev pub proxy_told : ControlPlane → ℕ → Model.Service → Option Text × ℕ → Proxy
proxy_told c local_port service address = record {
  service = prepare_response_service service c.mask_addresses;
  gateway_host = address.0;
  gateway_port = address.1;
  client_port = some local_port;
}

module _ (o : Controller.Outside) (c : ControlPlane) (service_name : Text) (local_port : ℕ)
    (m : GatewayServiceMgr) where
  told :
      (line : Text)
      → (process_cmd_start o c service_name local_port m).0 ≡ ok line
      → (service : Model.Service) × (address : Option Text × ℕ) × (value : o.json.Value)
        × ((Manager.startup service m).0 ≡ ok address)
        × (o.json.proxy.to_value (proxy_told c local_port service address) ≡ inl value)
        × (o.json.to_string (record {
          code = code_ok;
          message = none;
          request = start service_name local_port;
          data_value = some value;
        })
            ≡ inl line)
  unfolding process_cmd_start prepare_response try_into
  told line h = elim (Result-cases (startable c service_name)) [
    | inr (inl (e, q)) ↦ ground (arith, q, h)
    | inr (inr q) ↦ ground (arith, q, h)
    | inl (service, q) ↦
        let (address, a, b) =
          >>=-eq-ok {b = line} (started o c service_name local_port service)
            (Manager.startup service m).0 (ground (arith, q, h)) in
        elim (Result-cases (
          try_into o.json o.json.proxy (codes "Proxy") (proxy_told c local_port service address))) [
            | inr (inl (e, t)) ↦ ground (arith, t, b)
            | inr (inr t) ↦ ground (arith, t, b)
            | inl (value, t) ↦ (service, address, value, a, ground (arith, t), ground (arith, t, b))
          ]
  ]

-- What an answer that was read does to the service manager.
module _ (o : Outside) (line : Text) (s : Shared) (r : Response o.json.Value)
    (e : o.json.from_str line ≡ inl r) where
  parsed : Response.parse o.json line ≡ ok r
  unfolding Response.parse
  parsed = ground arith

  pub process_response-mgr : (process_response o line s).1.service_mgr ≡ (act o r s.service_mgr).1
  unfolding process_response
  process_response-mgr = elim (Result-cases (act o r s.service_mgr).0) [
    | inl (a, q) ↦ rw (parsed, process_response) (rw (q, process_response) refl)
    | inr (inl (x, q)) ↦ rw (parsed, process_response) (rw (q, process_response) refl)
    | inr (inr q) ↦ rw (parsed, process_response) (rw (q, process_response) refl)
  ]

  pub process_response-panics :
      (act o r s.service_mgr).0 ≡ panic → (process_response o line s).0 ≡ panic
  unfolding process_response
  process_response-panics q = rw (parsed, process_response) (rw (q, process_response) refl)

-- The answer to `start` with one proxy in it.
module _ (o : Outside) (service_name : Text) (local_port : ℕ) (value : o.json.Value) (p : Proxy)
    (m : ClientServiceMgr) (read : proxies_from_serde_value o.json value ≡ ok (p ∷ []))
    (ported : p.client_port ≡ some local_port) where
  abbrev answer : Response o.json.Value
  answer = record {
    code = code_ok;
    message = none;
    request = start service_name local_port;
    data_value = some value;
  }

  act-hostless : p.gateway_host ≡ none → (act o answer m).0 ≡ panic
  unfolding act act_on process_response_start start_args
  act-hostless h = ground (arith, read, ported, h)

  act-hosted :
      (host : Text)
      → p.gateway_host ≡ some host
      → (act o answer m).1
        ≡ (startup
            (to_model p.service)
            (record {
              client_port = local_port;
              gateway_host = host;
              gateway_port = p.gateway_port;
            })
            m).1
  unfolding act act_on process_response_start start_args
  act-hosted host h = ground (arith, read, ported, h)

-- Where the JSON library reads back proxies and answers that hold one, the client does on an answer that
-- the gateway gives to `start` what its service manager's `startup` does for the same service, as it was
-- told, with the port that the user asked for and the host and port that the gateway's manager gave. If
-- the gateway has no host configured, the client panics on the answer.
pub process_cmd_start-process_response :
    (g : Controller.Outside) (c : ControlPlane) (service_name : Text) (local_port : ℕ)
    (m : GatewayServiceMgr) (line : Text)
    (to_string_pretty : Response g.json.Value → Text ⊎ ForeignError) (parser : CommandParser)
    (debug_error : AppError → Text) (version : Text) (s : Shared)
    → IsCodec g.json g.json.proxy
    → ReadsBack g.json
    → (process_cmd_start g c service_name local_port m).0 ≡ ok line
    → let o : Outside = record {
      json = g.json;
      to_string_pretty = to_string_pretty;
      parser = parser;
      debug_error = debug_error;
      version = version;
    } in
      (service : Model.Service) × (address : Option Text × ℕ) × ((Manager.startup service m).0
        ≡ ok address)
      × (address.0 ≡ none → (process_response o line s).0 ≡ panic)
      × ((host : Text)
          → address.0 ≡ some host
          → (process_response o line s).1.service_mgr
            ≡ (startup
                (to_model (prepare_response_service service c.mask_addresses))
                (record { client_port = local_port; gateway_host = host; gateway_port = address.1 })
                s.service_mgr).1)
unfolding try_into
process_cmd_start-process_response g c name port m line pretty parser debug version s codec wire h =
    let (service, address, value, a, b, t) = told g c name port m line h in
    let o : Outside = record {
      json = g.json;
      to_string_pretty = pretty;
      parser = parser;
      debug_error = debug;
      version = version;
    } in
    let p = proxy_told c port service address in
    let read =
      from_serde_value-one g.json g.json.proxy (codes "Proxy") codec _ _ p value
        (ground (arith, b)) in
    let r = answer o name port value p s.service_mgr read refl in
    let e = wire r p value line b refl t in
    (
      service,
      address,
      a,
      λ q.
          process_response-panics o line s r e
            (act-hostless o name port value p s.service_mgr read refl q),
      λ host q.
          process_response-mgr o line s r e
          ∙ act-hosted o name port value p s.service_mgr read refl host q,
    )
