-- ===== src/Gateway/Manager.antt =====
-- crates/gateway/src/service/manager.rs: the services that are started, their ports and visitors.
-- Threads and listeners are not run here: a started listener is its port. `u16` additions panic on
-- overflow where the build checks for it, and wrap otherwise. A visitor is the same record for TCP and
-- UDP. The senders of proxy events, which the manager only hands on, are left out.
pub mod Startup
pub mod Shutdown
pub mod Events
pub mod Coherent
pub mod Closed
pub mod Sweeping
pub mod History
use trust.Prelude.{
  ℕ, ◌+◌, ◌-◌, ◌%◌, ◌≡◌, ◌⊎◌, inl, inr, Bool, true, false, ◌||◌, Option, none, some, List, [], ◌∷◌,
  ◌++◌, map, Text, codes, ltb, ◌==◌, text_eq, nat_eq, if◌then◌else◌,
}
use trust.HashMap.{HashMap, get, insert, values}
use trust.Text.{show, u16_bound, u64_bound}
use trust.AppError.{AppError, general}
use trust.Channel.{Channel}
use trust.Result.{Result, ok, err, panic, ◌>>=◌}
use trust.Model.{Service}
use trust.Gateway.Visitor
use trust.Gateway.Visitor.{
  TcpGatewayProxyServerVisitor, ProxyExecutorEvent, Closing, join, get_proxy_addrs_for_user,
  remove_proxy_for_key,
}

-- The fields of the gateway's `AppConfig` that the manager reads, and whether `u16` overflow is
-- checked in this build.
pub record AppConfig : Type 0 where
  pub server_port : ℕ
  pub gateway_service_host : Option Text
  pub gateway_service_ports : Option (ℕ × ℕ)
  pub overflow_checks : Bool

pub record GatewayServiceMgr : Type 0 where
  pub app_config : AppConfig
  pub proxy_tasks_sender : Channel ProxyExecutorEvent
  pub service_proxies : HashMap ℕ ℕ
  pub service_proxy_visitors : HashMap ℕ TcpGatewayProxyServerVisitor
  pub service_proxy_threads : HashMap ℕ ℕ
  pub services_by_proxy_key : HashMap Text ℕ
  pub service_ports : HashMap ℕ ℕ
  pub shared_service_port : Option ℕ
  pub next_service_port : ℕ
  pub last_service_port : ℕ

abbrev pub default_service_port_start : ℕ
default_service_port_start = 8200

abbrev pub default_service_port_end : ℕ
default_service_port_end = 8250

-- The shared port, and the first and last port of the range.
abbrev pub port_plan : AppConfig → Option ℕ × ℕ × ℕ
port_plan c = elim c.gateway_service_ports [
  | some range ↦ (none, range.0, range.1)
  | none ↦ (some c.server_port, default_service_port_start, default_service_port_end)
]

-- `GatewayServiceMgr::new`.
unfoldable pub new : AppConfig → Channel ProxyExecutorEvent → GatewayServiceMgr
new c tasks = record {
  app_config = c;
  proxy_tasks_sender = tasks;
  service_proxies = [];
  service_proxy_visitors = [];
  service_proxy_threads = [];
  services_by_proxy_key = [];
  service_ports = [];
  shared_service_port = (port_plan c).0;
  next_service_port = (port_plan c).1;
  last_service_port = (port_plan c).2;
}

-- `get_service_id_by_proxy_key`.
unfoldable pub get_service_id_by_proxy_key : Text → GatewayServiceMgr → Option ℕ
get_service_id_by_proxy_key proxy_key m = get proxy_key m.services_by_proxy_key

-- `get_service_proxies`.
unfoldable pub get_service_proxies : GatewayServiceMgr → List TcpGatewayProxyServerVisitor
get_service_proxies m = values m.service_proxy_visitors

-- `get_service_proxy`.
unfoldable pub get_service_proxy : ℕ → GatewayServiceMgr → Option TcpGatewayProxyServerVisitor
get_service_proxy service_id m = get service_id m.service_proxy_visitors

abbrev pub ports_exhausted : AppError
ports_exhausted = general (codes "Service ports exhausted, please extend range")

-- `next_service_port += 1`, on a `u16`.
abbrev pub next_port : Bool → ℕ → Result ℕ
next_port checked port =
    if ltb (port + 1) u16_bound then ok (port + 1) else if checked then panic else ok 0

-- `next_service_port - 1`, after the addition.
abbrev pub port_before : Bool → ℕ → Result ℕ
port_before checked port =
    if port == 0 then (if checked then panic else ok (u16_bound - 1)) else ok (port - 1)

-- The port of a new proxy, and the manager with the next one.
unfoldable pub take_port : GatewayServiceMgr → Result (ℕ × GatewayServiceMgr)
take_port m = elim m.shared_service_port [
  | some port ↦ ok (port, m)
  | none ↦
      if ltb m.last_service_port m.next_service_port
      then err ports_exhausted
      else (next_port m.app_config.overflow_checks m.next_service_port >>= λ next.
          port_before m.app_config.overflow_checks next >>= λ port.
          ok (port, record m { next_service_port = next }))
]

-- The maps of a service that starts on a port. A listener is started only if no port is shared.
unfoldable pub add_service : Service → ℕ → GatewayServiceMgr → GatewayServiceMgr
unfolding Visitor.new insert
add_service s port m = record m {
  service_ports = insert s.service_id port m.service_ports;
  service_proxies = insert s.service_id port m.service_proxies;
  service_proxy_visitors =
      insert s.service_id
        (Visitor.new s m.app_config.gateway_service_host port m.services_by_proxy_key)
        m.service_proxy_visitors;
  service_proxy_threads = elim m.shared_service_port [
    | none ↦ insert s.service_id port m.service_proxy_threads
    | some shared ↦ m.service_proxy_threads
  ];
}

abbrev pub Started : Type 0
Started = Result (Option Text × ℕ) × GatewayServiceMgr

unfoldable pub start_new : Service → GatewayServiceMgr → Started
unfolding take_port add_service
start_new s m = elim (take_port m) [
  | ok (port, m') ↦ (ok (m.app_config.gateway_service_host, port), add_service s port m')
  | err e ↦ (err e, m)
  | panic ↦ (panic, m)
]

-- `startup`.
unfoldable pub startup : Service → GatewayServiceMgr → Started
unfolding get
startup s m = elim (get s.service_id m.service_ports) [
  | some service_port ↦ (ok (m.app_config.gateway_service_host, service_port), m)
  | none ↦ start_new s m
]

-- A visitor sees the shared map as it is now.
abbrev pub lend : GatewayServiceMgr → TcpGatewayProxyServerVisitor → TcpGatewayProxyServerVisitor
lend m v = record v { services_by_proxy_key = m.services_by_proxy_key }

-- The manager after a call of the visitor of a service.
abbrev pub take_back : ℕ → TcpGatewayProxyServerVisitor → GatewayServiceMgr → GatewayServiceMgr
take_back service_id v m = record m {
  services_by_proxy_key = v.services_by_proxy_key;
  service_proxy_visitors = insert service_id v m.service_proxy_visitors;
}

abbrev pub is_nonempty : {A : Type 0} → List A → Bool
is_nonempty [] = false
is_nonempty (x ∷ xs) = true

-- `has_proxy_for_user_and_service`.
unfoldable pub has_proxy_for_user_and_service : ℕ → ℕ → GatewayServiceMgr → Bool
has_proxy_for_user_and_service user_id service_id m =
    elim (get service_id m.service_proxy_visitors) [
      | some v ↦ is_nonempty (get_proxy_addrs_for_user user_id v)
      | none ↦ false
    ]

-- `on_closed_proxy`. A key of no service looks for the service `u64::MAX`.
abbrev pub service_or_max : Option ℕ → ℕ
service_or_max none = u64_bound - 1
service_or_max (some service_id) = service_id

unfoldable pub on_closed_proxy : Text → GatewayServiceMgr → Result (Unit {0}) × GatewayServiceMgr
unfolding get_service_id_by_proxy_key get_service_proxy
on_closed_proxy proxy_key m =
    let service_id = service_or_max (get_service_id_by_proxy_key proxy_key m) in
    elim (get_service_proxy service_id m) [
      | none ↦ (ok tt, m)
      | some v ↦
          let removed = remove_proxy_for_key proxy_key (lend m v) in
          elim removed.0 [
            | ok b ↦ (ok tt, take_back service_id removed.1 m)
            | err e ↦ (ok tt, take_back service_id removed.1 m)
            | panic ↦ (panic, take_back service_id removed.1 m)
          ]
    ]
