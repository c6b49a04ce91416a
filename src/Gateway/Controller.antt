-- ===== src/Gateway/Controller.antt =====
-- crates/gateway/src/client/controller.rs: the control plane of one client connection. What stands
-- outside is the parameter `Outside`. A text that is written stands for its UTF-8 bytes.
pub mod Commands
pub mod Process
pub mod Start
pub mod Answer
pub mod Masking
use trust.Prelude.{
  ℕ, ◌≡◌, Bool, true, false, Option, none, some, List, [], ◌∷◌, ◌++◌, map, Text, codes, nat_eq,
  text_eq, ◌==◌, ◌||◌, if◌then◌else◌, inl, inr,
}
use trust.HashMap.{HashMap, get, insert}
use trust.Text.{show}
use trust.AppError.{AppError, get_code, to_string, gen_with_code_and_msg, gen_with_msg_and_err}
use trust.Channel.{Channel, send, send_error}
use trust.Result.{Result, ok, err, panic, ◌>>=◌, ◌>>◌, ok_or, ensure}
use trust.Model
use trust.Model.{ServiceAccess}
use trust.Control.Codes.{
  code_ok, code_bad_request, code_forbidden, code_not_found, code_internal_server_error,
}
use trust.Control.Request
use trust.Control.Request.{
  Request, CommandParser, no_request, about, connections, ping, proxies, services, quit, start,
  stop, is_empty,
}
use trust.Control.Response
use trust.Control.Response.{Json, or_msg, collect, try_into, of_model}
use trust.Repository.AccessRepo
use trust.Repository.AccessRepo.{AccessRepo}
use trust.Repository.ServiceRepo
use trust.Repository.ServiceRepo.{ServiceRepo}
use trust.Repository.UserRepo
use trust.Repository.UserRepo.{UserRepo}
use trust.Gateway.Authorization.{debug_status, is_some}
use trust.Gateway.Device.{Device, CertAccessContext}
use trust.Gateway.Visitor.{TcpGatewayProxyServerVisitor, ProxyAddrs, get_proxy_addrs_for_user}
use trust.Gateway.Manager.{
  GatewayServiceMgr, get_service_proxies, has_proxy_for_user_and_service, startup,
}
use trust.Gateway.Manager.Shutdown.{shutdown_connections}

-- `ConnectionEvent` of crates/common/src/net/tls_server/conn_std.rs.
pub data ConnectionEvent : Type 0 where
  closing closed : ConnectionEvent
  write : Text → ConnectionEvent

-- JSON, the command line's parser, and what `{:?}` prints.
pub record Outside : Type 1 where
  pub json : Json
  pub parser : CommandParser
  pub debug_error : AppError → Text
  pub debug_names : HashMap Text (List Text) → Text
  pub debug_context : CertAccessContext → Text

pub record ControlPlane : Type 0 where
  pub mask_addresses : Bool
  pub access_repo : AccessRepo
  pub user_repo : UserRepo
  pub event_channel_sender : Channel ConnectionEvent
  pub device : Device
  pub user : Model.User
  pub services_by_id : HashMap ℕ Model.Service
  pub services_by_name : HashMap Text Model.Service

-- `setup_services_maps`: of two services with a key, the later one is kept.
unfoldable pub by_id : List Model.Service → HashMap ℕ Model.Service → HashMap ℕ Model.Service
by_id [] m = m
by_id (s ∷ ss) m = by_id ss (insert s.service_id s m)

unfoldable pub by_name :
    List Model.Service → HashMap Text Model.Service → HashMap Text Model.Service
by_name [] m = m
by_name (s ∷ ss) m = by_name ss (insert s.name s m)

unfoldable pub setup_services_maps :
    ServiceRepo → Result (HashMap ℕ Model.Service × HashMap Text Model.Service)
unfolding by_id by_name
setup_services_maps service_repo =
    ServiceRepo.get_all service_repo >>= λ services. ok (by_id services [], by_name services [])

-- `ControlPlane::new`.
unfoldable pub new :
    Bool
    → AccessRepo
    → ServiceRepo
    → UserRepo
    → Channel ConnectionEvent
    → Device
    → Model.User
    → Result ControlPlane
unfolding setup_services_maps
new mask_addresses access_repo service_repo user_repo event_channel_sender device user =
    setup_services_maps service_repo >>= λ maps. ok (record {
      mask_addresses = mask_addresses;
      access_repo = access_repo;
      user_repo = user_repo;
      event_channel_sender = event_channel_sender;
      device = device;
      user = user;
      services_by_id = maps.0;
      services_by_name = maps.1;
    })

-- `prepare_response_service`.
unfoldable pub prepare_response_service : Model.Service → Bool → Response.Service
unfolding of_model
prepare_response_service service mask_addrs =
    of_model (if mask_addrs then record service { host = []; port = 0 } else service)

abbrev pub State : Type 0
State = ControlPlane × GatewayServiceMgr

abbrev pub with_events : ControlPlane → Channel ConnectionEvent → ControlPlane
with_events c events = record c { event_channel_sender = events }

abbrev pub newline : ℕ
newline = 10

module _ (o : Outside) where
  -- `prepare_response`, with `jsonify`.
  unfoldable pub prepare_response : ℕ → Option Text → Request → Option o.json.Value → Result Text
  prepare_response code message request data_value = or_msg (codes "Error serializing response") (
      o.json.to_string
        (record { code = code; message = message; request = request; data_value = data_value }))
