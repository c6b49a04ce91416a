-- ===== src/Client/Manager.antt =====
-- crates/client/src/service/manager.rs: the services that the client has opened, and their visitors.
-- Threads and listeners are not run here: a started listener is its port. The UDP listener's address
-- `[::]:port` always parses, so that neither proxy fails to be made. The senders of proxy events, which
-- the manager only hands on, are left out.
pub mod Coherent
pub mod Closed
pub mod Startup
pub mod Shutdown
pub mod Requests
pub mod History
use trust.Prelude.{
  ℕ, Bool, true, false, Option, none, some, List, [], ◌∷◌, ◌++◌, ◌-◌, Text, codes, text_eq, nat_eq,
  if◌then◌else◌,
}
use trust.HashMap.{HashMap, get, insert}
use trust.Text.{show}
use trust.AppError.{AppError, general, gen_with_msg_and_err}
use trust.Channel.{Channel}
use trust.Result.{Result, ok, err, panic}
use trust.Model.{Service, Transport, tcp, udp}
use trust.Proxy.Event.{ProxyEvent, closed, message}
use trust.Proxy.Executor.{ProxyExecutorEvent, recv_error}
use trust.Gateway.Visitor.{join}
use trust.Gateway.Manager.{service_or_max}
use trust.Client.Visitor
use trust.Client.Visitor.{TcpClientProxyServerVisitor}
use trust.Client.Visitor.Udp
use trust.Client.Visitor.Udp.{UdpClientProxyServerVisitor}

-- `ProxyAddrs`, and its accessors.
pub record ProxyAddrs : Type 0 where
  pub client_port : ℕ
  pub gateway_host : Text
  pub gateway_port : ℕ

-- `dyn ClientServiceProxyVisitor`.
pub data ClientServiceProxyVisitor : Type 0 where
  tcp_visitor : TcpClientProxyServerVisitor → ClientServiceProxyVisitor
  udp_visitor : UdpClientProxyServerVisitor → ClientServiceProxyVisitor

-- The fields that both visitors have, and a visitor with others.
abbrev pub base : ClientServiceProxyVisitor → TcpClientProxyServerVisitor
base (tcp_visitor v) = v
base (udp_visitor v) = v.base

abbrev pub with_base :
    ClientServiceProxyVisitor → TcpClientProxyServerVisitor → ClientServiceProxyVisitor
with_base (tcp_visitor v) b = tcp_visitor b
with_base (udp_visitor v) b = udp_visitor (record v { base = b })

abbrev pub transport_name : ClientServiceProxyVisitor → Text
transport_name (tcp_visitor v) = codes "TCP"
transport_name (udp_visitor v) = codes "UDP"

pub record ClientServiceMgr : Type 0 where
  pub service_proxies : HashMap ℕ ℕ
  pub service_proxy_visitors : HashMap ℕ ClientServiceProxyVisitor
  pub service_proxy_threads : HashMap ℕ ℕ
  pub service_addrs : HashMap ℕ ProxyAddrs
  pub services_by_proxy_key : HashMap Text ℕ
  pub proxy_tasks_sender : Channel ProxyExecutorEvent
  pub testing_mode : Bool

-- `ClientServiceMgr::new`.
unfoldable pub new : Channel ProxyExecutorEvent → ClientServiceMgr
new proxy_tasks_sender = record {
  service_proxies = [];
  service_proxy_visitors = [];
  service_proxy_threads = [];
  service_addrs = [];
  services_by_proxy_key = [];
  proxy_tasks_sender = proxy_tasks_sender;
  testing_mode = false;
}

-- `get_proxy_service_for_proxy_key`.
unfoldable pub get_proxy_service_for_proxy_key : Text → ClientServiceMgr → Option ℕ
get_proxy_service_for_proxy_key proxy_key m = get proxy_key m.services_by_proxy_key

-- `get_proxy_addrs_for_service`.
unfoldable pub get_proxy_addrs_for_service : ℕ → ClientServiceMgr → Option ProxyAddrs
get_proxy_addrs_for_service service_id m = get service_id m.service_addrs

-- `get_proxy_visitor_for_service`.
unfoldable pub get_proxy_visitor_for_service :
    ℕ → ClientServiceMgr → Option ClientServiceProxyVisitor
get_proxy_visitor_for_service service_id m = get service_id m.service_proxy_visitors

-- The fields of a visitor, which sees the shared map as it is now.
abbrev pub lend : ClientServiceMgr → ClientServiceProxyVisitor → TcpClientProxyServerVisitor
lend m v = record (base v) { services_by_proxy_key = m.services_by_proxy_key }

-- The manager after a call of the visitor of a service.
abbrev pub take_back : ℕ → ClientServiceProxyVisitor → ClientServiceMgr → ClientServiceMgr
take_back service_id v m = record m {
  services_by_proxy_key = (base v).services_by_proxy_key;
  service_proxy_visitors = insert service_id v m.service_proxy_visitors;
}

-- `if let ProxyEvent::Closed(proxy_key) = proxy_event { … }`. A key of no service looks for the service
-- `u64::MAX`.
unfoldable pub on_closed : Text → ClientServiceMgr → Bool × ClientServiceMgr
unfolding get_proxy_service_for_proxy_key get_proxy_visitor_for_service Visitor.remove_proxy_for_key
on_closed proxy_key m =
    let service_id = service_or_max (get_proxy_service_for_proxy_key proxy_key m) in
    elim (get_proxy_visitor_for_service service_id m) [
      | none ↦ (false, m)
      | some v ↦
          let removed = Visitor.remove_proxy_for_key proxy_key (lend m v) in
          (removed.0, take_back service_id (with_base v removed.1) m)
    ]

-- `process_next_proxy_event`, where `recv` gives an event, or nothing once all senders are gone.
unfoldable pub process_next_proxy_event :
    Option ProxyEvent → ClientServiceMgr → Result Bool × ClientServiceMgr
unfolding on_closed
process_next_proxy_event none m =
    (err (gen_with_msg_and_err (codes "Error receiving proxy event") recv_error), m)
process_next_proxy_event (some (closed proxy_key)) m =
    let done = on_closed proxy_key m in (ok done.0, done.1)
process_next_proxy_event (some (message proxy_key addr bytes)) m = (ok false, m)

-- `poll_proxy_events`, over the events that come before all senders are gone.
unfoldable pub poll_proxy_events :
    List ProxyEvent → ClientServiceMgr → Result (Unit {0}) × ClientServiceMgr
unfolding process_next_proxy_event
poll_proxy_events [] m =
    let next = process_next_proxy_event none m in
    elim next.0 [ ok b ↦ (ok tt, next.1) | err e ↦ (err e, next.1) | panic ↦ (panic, next.1) ]
poll_proxy_events (event ∷ events) m =
    let next = process_next_proxy_event (some event) m in
    let rest = poll_proxy_events events next.1 in
    elim next.0 [ ok b ↦ rest | err e ↦ (err e, next.1) | panic ↦ (panic, next.1) ]

-- The visitor of a service that starts.
unfoldable pub new_visitor : Service → ProxyAddrs → ClientServiceMgr → ClientServiceProxyVisitor
unfolding Visitor.new Udp.new
new_visitor s addrs m = elim s.transport [
  | tcp ↦ tcp_visitor (
      Visitor.new s addrs.client_port addrs.gateway_host addrs.gateway_port m.services_by_proxy_key)
  | udp ↦
      udp_visitor
        (Udp.new s addrs.client_port addrs.gateway_host addrs.gateway_port m.services_by_proxy_key)
]

-- `startup`.
unfoldable pub add_service : Service → ProxyAddrs → ClientServiceMgr → ClientServiceMgr
unfolding new_visitor
add_service s addrs m = record m {
  service_proxy_threads =
      if m.testing_mode
      then m.service_proxy_threads
      else insert s.service_id addrs.client_port m.service_proxy_threads;
  service_addrs = insert s.service_id addrs m.service_addrs;
  service_proxies = insert s.service_id addrs.client_port m.service_proxies;
  service_proxy_visitors = insert s.service_id (new_visitor s addrs m) m.service_proxy_visitors;
}

unfoldable pub startup :
    Service → ProxyAddrs → ClientServiceMgr → Result ProxyAddrs × ClientServiceMgr
unfolding add_service
startup s addrs m = elim (get s.service_id m.service_addrs) [
  | some known ↦ (ok known, m)
  | none ↦ (ok addrs, add_service s addrs m)
]

-- What the loop of `shutdown` changes.
pub record Sweep : Type 0 where
  pub mgr : ClientServiceMgr
  pub errors : List Text

-- `debug` is `{:?}` of an error.
module _ (debug : AppError → Text) where
  abbrev pub sweep_error : ℕ → AppError → Text
  sweep_error service_id e =
      codes "Failed shutting down service proxy: svc_id="
      ++ (show service_id ++ (codes ", err=" ++ debug e))

  unfoldable pub shutdown_service : ℕ → ClientServiceProxyVisitor → Sweep → Sweep
  unfolding Visitor.shutdown_connections Visitor.set_shutdown_requested
  shutdown_service service_id v s =
      let done =
        Visitor.shutdown_connections (transport_name v)
          (Visitor.set_shutdown_requested (lend s.mgr v)) s.mgr.proxy_tasks_sender in
      record {
        mgr =
            take_back service_id (with_base v done.1)
              (record (s.mgr) { proxy_tasks_sender = done.2 });
        errors = elim done.0 [
          | ok t ↦ s.errors
          | err e ↦ s.errors ++ sweep_error service_id e ∷ []
          | panic ↦ s.errors
        ];
      }

  unfoldable pub sweep : List (ℕ × ClientServiceProxyVisitor) → Sweep → Sweep
  unfolding shutdown_service
  sweep [] s = s
  sweep ((service_id, v) ∷ rest) s = sweep rest (shutdown_service service_id v s)

  -- `shutdown`.
  unfoldable pub shutdown : ClientServiceMgr → Result (Unit {0}) × ClientServiceMgr
  unfolding sweep
  shutdown m =
      let swept = sweep m.service_proxy_visitors (record { mgr = m; errors = [] }) in
      elim swept.errors [
        | [] ↦ (ok tt, swept.mgr)
        | e ∷ es ↦ (
          err (
              general (codes "Error shutting down services: err(s)=" ++ join (codes ",") (e ∷ es))),
          swept.mgr,
        )
      ]
