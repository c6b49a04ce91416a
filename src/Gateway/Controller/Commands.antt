-- ===== src/Gateway/Controller/Commands.antt =====
-- crates/gateway/src/client/controller.rs: the commands of the control plane.
use trust.Prelude.{
  ℕ, Bool, false, Option, none, some, List, [], ◌∷◌, ◌++◌, map, Text, codes, nat_eq, text_eq, ◌==◌,
  ◌||◌, if◌then◌else◌,
}
use trust.HashMap.{HashMap, get}
use trust.Text.{show}
use trust.AppError.{AppError, gen_with_code_and_msg, gen_with_msg_and_err}
use trust.Channel.{send, send_error}
use trust.Result.{Result, ok, err, panic, ◌>>=◌, ◌>>◌, ok_or, ensure}
use trust.Model
use trust.Model.{ServiceAccess}
use trust.Control.Codes.{code_ok, code_forbidden, code_not_found}
use trust.Control.Request.{
  Request, no_request, about, connections, ping, proxies, services, quit, start, stop,
}
use trust.Control.Response
use trust.Control.Response.{Json, or_msg, collect, try_into, of_model}
use trust.Repository.AccessRepo
use trust.Repository.AccessRepo.{AccessRepo}
use trust.Repository.UserRepo
use trust.Repository.UserRepo.{UserRepo}
use trust.Gateway.Authorization.{debug_status, is_some}
use trust.Gateway.Visitor.{TcpGatewayProxyServerVisitor, ProxyAddrs, get_proxy_addrs_for_user}
use trust.Gateway.Manager.{
  GatewayServiceMgr, get_service_proxies, has_proxy_for_user_and_service, startup,
}
use trust.Gateway.Manager.Shutdown.{shutdown_connections}
use trust.Gateway.Controller.{
  ControlPlane, Outside, State, closing, prepare_response, prepare_response_service, with_events,
}

-- The addresses of a connection that are told.
abbrev pub bind : Bool → ProxyAddrs → List Text
bind mask_addrs proxy_addrs =
    if mask_addrs then proxy_addrs.0 ∷ [] else proxy_addrs.0 ∷ proxy_addrs.1 ∷ []

abbrev pub grants : ℕ → List ServiceAccess → Bool
grants service_id [] = false
grants service_id (access ∷ accesses) =
    access.service_id == service_id || grants service_id accesses

unfoldable pub granted :
    List ServiceAccess → List TcpGatewayProxyServerVisitor → List TcpGatewayProxyServerVisitor
granted accesses [] = []
granted accesses (v ∷ vs) =
    let rest = granted accesses vs in
    if grants v.service.service_id accesses then v ∷ rest else rest

-- `filter_map(|access| services_by_id.get(&access.service_id))`.
abbrev pub found_cons : Option Model.Service → List Model.Service → List Model.Service
found_cons none ss = ss
found_cons (some s) ss = s ∷ ss

unfoldable pub services_of : HashMap ℕ Model.Service → List ServiceAccess → List Model.Service
services_of services_by_id [] = []
services_of services_by_id (access ∷ accesses) =
    found_cons (get access.service_id services_by_id) (services_of services_by_id accesses)

abbrev pub unknown_service : Text → AppError
unknown_service service_name =
    gen_with_code_and_msg code_not_found (codes "Unknown service: svc_name=" ++ service_name)

abbrev pub user_and_service : ℕ → ℕ → Text
user_and_service user_id service_id =
    codes "user_id=" ++ (show user_id ++ (codes ", svc_id=" ++ show service_id))

abbrev pub unauthorized : ℕ → ℕ → AppError
unauthorized user_id service_id =
    gen_with_code_and_msg code_forbidden
      (codes "User is not authorized for service: " ++ user_and_service user_id service_id)

abbrev pub no_active_proxy : ℕ → ℕ → AppError
no_active_proxy user_id service_id =
    gen_with_code_and_msg code_not_found
      (codes "No active proxy found: " ++ user_and_service user_id service_id)

-- The service of a name, if the user has access to it.
unfoldable pub startable : ControlPlane → Text → Result Model.Service
startable c service_name = do
  service ← ok_or (get service_name c.services_by_name) (unknown_service service_name)
  access ← AccessRepo.get c.user.user_id service.service_id c.access_repo
  ensure (is_some access) (unauthorized c.user.user_id service.service_id)
  ok service

-- The service of a name, if the user has a connection to it.
unfoldable pub stoppable : ControlPlane → GatewayServiceMgr → Text → Result Model.Service
stoppable c m service_name = do
  service ← ok_or (get service_name c.services_by_name) (unknown_service service_name)
  ensure (has_proxy_for_user_and_service c.user.user_id service.service_id m)
      (no_active_proxy c.user.user_id service.service_id)
  ok service

module _ (o : Outside) where
  abbrev pub about_of : ControlPlane → Option Model.User → Response.About
  about_of c u = record {
    cert_subject = some (o.debug_names c.device.cert_subj);
    cert_alt_subj = some (o.debug_names c.device.cert_alt_subj);
    cert_context = some (o.debug_context c.device.cert_access_context);
    user = elim u [
      | none ↦ none
      | some u ↦
          some (record { user_id = u.user_id; name = u.name; status = debug_status u.status })
    ];
  }

  unfoldable pub process_cmd_about : ControlPlane → Result Text
  unfolding prepare_response try_into
  process_cmd_about c = do
    user ← UserRepo.get c.device.cert_access_context.user_id c.user_repo
    value ← try_into o.json o.json.about (codes "About") (about_of c user)
    prepare_response o code_ok none about (some value)

  abbrev pub connection_of : ControlPlane → TcpGatewayProxyServerVisitor → Response.Connection
  connection_of c v = record {
    service_name = v.service.name;
    binds = map (bind c.mask_addresses) (get_proxy_addrs_for_user c.user.user_id v);
  }

  unfoldable pub process_cmd_connections : ControlPlane → GatewayServiceMgr → Result Text
  unfolding prepare_response try_into collect
  process_cmd_connections c m = do
    values ←
        collect (λ v. try_into o.json o.json.connection (codes "Connection") (connection_of c v))
          (get_service_proxies m)
    prepare_response o code_ok none connections (some (o.json.array values))

  abbrev pub proxy_of : TcpGatewayProxyServerVisitor → Response.Proxy
  proxy_of v = record {
    service = of_model v.service;
    gateway_host = v.proxy_host;
    gateway_port = v.proxy_port;
    client_port = none;
  }

  unfoldable pub process_cmd_proxies : ControlPlane → GatewayServiceMgr → Result Text
  unfolding prepare_response try_into collect granted
  process_cmd_proxies c m = do
    accesses ← AccessRepo.get_all_for_user c.user.user_id c.access_repo
    values ←
        collect (λ v. try_into o.json o.json.proxy (codes "Proxy") (proxy_of v))
          (granted accesses (get_service_proxies m))
    prepare_response o code_ok none proxies (some (o.json.array values))

  unfoldable pub process_cmd_services : ControlPlane → Result Text
  unfolding prepare_response try_into collect services_of prepare_response_service
  process_cmd_services c = do
    accesses ← AccessRepo.get_all_for_user c.user.user_id c.access_repo
    values ←
        collect
          (λ s.
            try_into o.json o.json.service (codes "Service")
              (prepare_response_service s c.mask_addresses))
          (services_of c.services_by_id accesses)
    prepare_response o code_ok none services (some (o.json.array values))

  abbrev pub started : ControlPlane → Text → ℕ → Model.Service → Option Text × ℕ → Result Text
  started c service_name local_port service address = do
    value ← try_into o.json o.json.proxy (codes "Proxy") (record {
      service = prepare_response_service service c.mask_addresses;
      gateway_host = address.0;
      gateway_port = address.1;
      client_port = some local_port;
    })
    prepare_response o code_ok none (start service_name local_port) (some value)

  unfoldable pub process_cmd_start :
      ControlPlane → Text → ℕ → GatewayServiceMgr → Result Text × GatewayServiceMgr
  unfolding startable
  process_cmd_start c service_name local_port m = elim (startable c service_name) [
    | ok service ↦
        let begun = startup service m in
        (begun.0 >>= started c service_name local_port service, begun.1)
    | err e ↦ (err e, m)
    | panic ↦ (panic, m)
  ]

  unfoldable pub process_cmd_stop :
      ControlPlane → Text → GatewayServiceMgr → Result Text × GatewayServiceMgr
  unfolding stoppable prepare_response
  process_cmd_stop c service_name m = elim (stoppable c m service_name) [
    | ok service ↦
        let ended =
          shutdown_connections o.debug_error (some c.user.user_id) (some service.service_id) m in
        (ended.0 >> prepare_response o code_ok none (stop service_name) none, ended.1)
    | err e ↦ (err e, m)
    | panic ↦ (panic, m)
  ]

  unfoldable pub process_cmd_quit : ControlPlane → Result Text × ControlPlane
  unfolding prepare_response
  process_cmd_quit c =
      let sent = send closing c.event_channel_sender in
      (
        if sent.0
            then prepare_response o code_ok none quit (some (o.json.string (codes "bye")))
            else err (gen_with_msg_and_err (codes "Error sending closing event") send_error),
        with_events c sent.1,
      )

  -- The answer to a request that was read.
  unfoldable pub process_cmd : Request → State → Result Text × State
  process_cmd about (c, m) = (process_cmd_about c, (c, m))
  process_cmd connections (c, m) = (process_cmd_connections c m, (c, m))
  process_cmd ping (c, m) = (prepare_response o code_ok (some (codes "pong")) ping none, (c, m))
  process_cmd proxies (c, m) = (process_cmd_proxies c m, (c, m))
  process_cmd services (c, m) = (process_cmd_services c, (c, m))
  process_cmd (start service_name local_port) (c, m) =
      let r = process_cmd_start c service_name local_port m in (r.0, (c, r.1))
  process_cmd (stop service_name) (c, m) =
      let r = process_cmd_stop c service_name m in (r.0, (c, r.1))
  process_cmd quit (c, m) = let r = process_cmd_quit c in (r.0, (r.1, m))
  process_cmd no_request (c, m) = (prepare_response o code_ok (some []) no_request none, (c, m))
