-- ===== src/Gateway/Manager/History.antt =====
-- What the service manager can be after any history of requests and connections.
use trust.Prelude.{
  ℕ, ◌≡◌, ◌≢◌, inl, inr, refl, Option, some, Text, same, text_eq, nat_eq, pair_eq, arith,
  Option-cases, Bool-cases,
}
use trust.HashMap.{get}
use trust.HashMap.Laws.{get-insert}
use trust.AppError.{AppError}
use trust.Channel.{Channel, send}
use trust.Result.{Result, ok, err, panic}
use trust.Model.{Service}
use trust.Alpn.{Protocol}
use trust.Repository.ServiceRepo.{ServiceRepo}
use trust.Gateway.Authorization.{Platform, TlsConnection, ClientConnVisitor, process_authorization}
use trust.Gateway.Visitor.{
  TcpGatewayProxyServerVisitor, ProxyAddrs, ProxyExecutorEvent, open_tcp_and_tcp_proxy,
  open_tcp_and_udp_proxy,
}
use trust.Gateway.Visitor.Safety.{Keeps, Keeps-refl}
use trust.Gateway.Visitor.Accept.{
  Network, TcpStream, create_proxy_addrs, file_user, create_client_conn, prepare_proxy, file_proxy,
  open_proxy, on_conn_accepted,
}
use trust.Gateway.Visitor.AcceptUdp.{UdpNetwork, prepare_udp_proxy, on_udp_conn_accepted}
use trust.Gateway.Visitor.Filing.{
  IsFreeAddrs, IsNew, file_user-IsConsistent, open_proxy-IsConsistent,
}
use trust.Gateway.Manager.{
  AppConfig, GatewayServiceMgr, new, lend, take_back, startup, on_closed_proxy,
}
use trust.Gateway.Manager.Shutdown.{shutdown_connections}
use trust.Gateway.Manager.Coherent.{
  IsCoherent, take_back-IsCoherent, startup-IsCoherent, on_closed_proxy-IsCoherent,
}
use trust.Gateway.Manager.Sweeping.{shutdown_connections-IsCoherent}

-- The key that is made, if one is, is filed with no other service.
abbrev pub IsFreeKey : GatewayServiceMgr → ℕ → Result Text → Type 0
IsFreeKey m service_id prepared =
    (key : Text) (other_id : ℕ)
    → prepared ≡ ok key
    → get key m.services_by_proxy_key ≡ some other_id
    → other_id ≡ service_id

file_user-Keeps :
    (repo : ServiceRepo) (sock : TcpStream) (r : Result Protocol × ClientConnVisitor)
    (v : TcpGatewayProxyServerVisitor)
    → Keeps v (file_user repo sock r v).1
unfolding file_user
file_user-Keeps repo sock (err e, c) v = Keeps-refl v
file_user-Keeps repo sock (panic, c) v = Keeps-refl v
file_user-Keeps repo sock (ok protocol, c) v = elim (Option-cases c.user) [
  | inl e ↦ rw (e, file_user) (Keeps-refl v)
  | inr (u, e) ↦ rw (e, file_user) (record { same_service = refl; elsewhere = λ k o h n. h })
]

file_proxy-Keeps :
    (debug : ProxyAddrs → Text) (key : Text) (addrs : ProxyAddrs) (v : TcpGatewayProxyServerVisitor)
    → ((other_id : ℕ)
        → get key v.services_by_proxy_key ≡ some other_id
        → other_id ≡ v.service.service_id)
    → Keeps v (file_proxy debug key addrs v).1
unfolding file_proxy
file_proxy-Keeps debug key addrs v free = elim (Option-cases (get addrs v.users_by_proxy_addrs)) [
  | inl e ↦
      rw (e, file_proxy)
        (record {
          same_service = refl;
          elsewhere = λ k o h n. ground (
            arith,
            get-insert key k v.service.service_id v.services_by_proxy_key,
            same key k,
            free o,
          );
        })
  | inr (u, e) ↦
      rw (e, file_proxy)
        (record {
          same_service = refl;
          elsewhere = λ k o h n. ground (
            arith,
            get-insert key k v.service.service_id v.services_by_proxy_key,
            same key k,
            free o,
          );
        })
]

open_proxy-Keeps :
    (request : Text → ProxyExecutorEvent) (debug : ProxyAddrs → Text) (addrs : ProxyAddrs)
    (prepared : Result Text) (v : TcpGatewayProxyServerVisitor) (tasks : Channel ProxyExecutorEvent)
    → ((key : Text) (other_id : ℕ)
        → prepared ≡ ok key
        → get key v.services_by_proxy_key ≡ some other_id
        → other_id ≡ v.service.service_id)
    → Keeps v (open_proxy request debug addrs prepared v tasks).1
unfolding open_proxy
open_proxy-Keeps request debug addrs (err e) v tasks free = Keeps-refl v
open_proxy-Keeps request debug addrs panic v tasks free = Keeps-refl v
open_proxy-Keeps request debug addrs (ok key) v tasks free =
    elim (Bool-cases (send (request key) tasks).0) [
      | inl s ↦ rw (s, open_proxy) (file_proxy-Keeps debug key addrs v λ o h. free key o refl h)
      | inr s ↦ rw (s, open_proxy) (Keeps-refl v)
    ]

-- The manager after a connection to a service is accepted: what it got, put back.
abbrev pub accepted :
    ℕ
    → Result (Unit {0}) × TcpGatewayProxyServerVisitor × Channel ProxyExecutorEvent
    → GatewayServiceMgr
    → GatewayServiceMgr
accepted service_id (r, w, tasks) m =
    take_back service_id w (record m { proxy_tasks_sender = tasks })

-- What can happen to the manager: a service is started, connections are shut down, a proxy closes, and
-- a connection to a service is made or accepted, with an address pair and key of which no proxy is
-- still filed.
pub data Step (m : GatewayServiceMgr) : GatewayServiceMgr → Type 1 where
  starts : (s : Service) → Step m (startup s m).1
  shuts_down :
      (debug : AppError → Text) (user_id service_id : Option ℕ)
      → Step m (shutdown_connections debug user_id service_id m).1
  closes : (key : Text) → Step m (on_closed_proxy key m).1
  connects :
      (service_id : ℕ) (v : TcpGatewayProxyServerVisitor) (p : Platform) (c : ClientConnVisitor)
      (repo : ServiceRepo) (tls : TlsConnection p.Certificate) (sock : TcpStream)
      → get service_id m.service_proxy_visitors ≡ some v
      → IsFreeAddrs (lend m v) (create_proxy_addrs sock)
      → Step m (take_back service_id (create_client_conn p c repo tls sock (lend m v)).1 m)
  accepts :
      (service_id : ℕ) (v : TcpGatewayProxyServerVisitor) (n : Network) (debug : ProxyAddrs → Text)
      (sock : TcpStream)
      → get service_id m.service_proxy_visitors ≡ some v
      → IsNew (prepare_proxy n v.service sock) sock (lend m v)
      → IsFreeKey m service_id (prepare_proxy n v.service sock)
      → Step m
          (accepted service_id (on_conn_accepted n debug sock (lend m v) m.proxy_tasks_sender) m)
  accepts_udp :
      (service_id : ℕ) (v : TcpGatewayProxyServerVisitor) (n : UdpNetwork)
      (debug : ProxyAddrs → Text) (sock : TcpStream)
      → get service_id m.service_proxy_visitors ≡ some v
      → IsNew (prepare_udp_proxy n v.service sock) sock (lend m v)
      → IsFreeKey m service_id (prepare_udp_proxy n v.service sock)
      → Step m (
          accepted service_id (on_udp_conn_accepted n debug sock (lend m v) m.proxy_tasks_sender) m)

pub data Reach (m : GatewayServiceMgr) : GatewayServiceMgr → Type 1 where
  start : Reach m m
  step : {n o : GatewayServiceMgr} → Step n o → Reach m n → Reach m o

accepted-IsCoherent :
    (m : GatewayServiceMgr) (service_id : ℕ) (v : TcpGatewayProxyServerVisitor)
    (request : Text → ProxyExecutorEvent) (debug : ProxyAddrs → Text) (sock : TcpStream)
    (prepared : Result Text)
    → get service_id m.service_proxy_visitors ≡ some v
    → IsNew prepared sock (lend m v)
    → IsFreeKey m service_id prepared
    → IsCoherent m
    → IsCoherent (
        accepted service_id
          (open_proxy request debug
            (create_proxy_addrs sock)
            prepared
            (lend m v)
            m.proxy_tasks_sender)
          m)
accepted-IsCoherent m service_id v request debug sock prepared e fresh free inv =
    let own = inv.visitors service_id v e in
    let opened =
      open_proxy request debug (create_proxy_addrs sock) prepared (lend m v) m.proxy_tasks_sender in
    take_back-IsCoherent (record m { proxy_tasks_sender = opened.2 }) service_id v opened.1 own
      (record {
        consistent =
            open_proxy-IsConsistent request debug sock prepared (lend m v) m.proxy_tasks_sender
              own.1 fresh;
        keeps =
            open_proxy-Keeps request debug (create_proxy_addrs sock) prepared (lend m v)
              m.proxy_tasks_sender (λ key o q h. ground (arith, free key o q h, own.0));
      })
      (record { distinct = inv.distinct; visitors = inv.visitors })

Step-IsCoherent : {m n : GatewayServiceMgr} → Step m n → IsCoherent m → IsCoherent n
unfolding create_client_conn on_conn_accepted on_udp_conn_accepted
Step-IsCoherent {m} (starts s) inv = startup-IsCoherent s m inv
Step-IsCoherent {m} (shuts_down debug u i) inv = (shutdown_connections-IsCoherent debug u i m inv).1
Step-IsCoherent {m} (closes key) inv = (on_closed_proxy-IsCoherent key m inv).1
Step-IsCoherent {m} (connects service_id v p c repo tls sock e free) inv =
    let own = inv.visitors service_id v e in
    let r = process_authorization p c tls (some v.service.service_id) in
    take_back-IsCoherent m service_id v (create_client_conn p c repo tls sock (lend m v)).1 own
      (record {
        consistent = file_user-IsConsistent repo sock r (lend m v) own.1 free;
        keeps = file_user-Keeps repo sock r (lend m v);
      })
      inv
Step-IsCoherent {m} (accepts service_id v n debug sock e fresh free) inv =
    accepted-IsCoherent m service_id v open_tcp_and_tcp_proxy debug sock
      (prepare_proxy n v.service sock) e fresh free inv
Step-IsCoherent {m} (accepts_udp service_id v n debug sock e fresh free) inv =
    accepted-IsCoherent m service_id v open_tcp_and_udp_proxy debug sock
      (prepare_udp_proxy n v.service sock) e fresh free inv

new-IsCoherent : (c : AppConfig) (tasks : Channel ProxyExecutorEvent) → IsCoherent (new c tasks)
unfolding new get
new-IsCoherent c tasks = record { distinct = tt; visitors = λ i v h. cc }

-- After any history of a new manager, in which services are started, connections made, accepted and
-- shut down, and proxies closed, and in which no connection has the address pair, or is given the key,
-- of a proxy that is still filed (for a key: with another service, too), every visitor is the one of its
-- service, and its maps and the map of keys that all visitors share agree.
pub Reach-IsCoherent :
    (c : AppConfig) (tasks : Channel ProxyExecutorEvent) {m : GatewayServiceMgr}
    → Reach (new c tasks) m
    → IsCoherent m
Reach-IsCoherent c tasks start = new-IsCoherent c tasks
Reach-IsCoherent c tasks (step st r) = Step-IsCoherent st (Reach-IsCoherent c tasks r)

-- After any history of a new manager, in which services are started, connections made, accepted and
-- shut down, and proxies closed, and in which no connection has the address pair, or is given the key,
-- of a proxy that is still filed (for a key: with another service, too), the report that a proxy closed
-- is taken without a panic, and shutting down the connections of any user and service does not panic.
pub Reach-keeps_running :
    (c : AppConfig) (tasks : Channel ProxyExecutorEvent) {m : GatewayServiceMgr} (key : Text)
    (debug : AppError → Text) (user_id service_id : Option ℕ)
    → Reach (new c tasks) m
    → ((on_closed_proxy key m).0 ≡ ok tt)
      × ((shutdown_connections debug user_id service_id m).0 ≢ panic)
Reach-keeps_running c tasks {m} key debug user_id service_id r =
    let inv = Reach-IsCoherent c tasks r in
    (
      (on_closed_proxy-IsCoherent key m inv).0,
      (shutdown_connections-IsCoherent debug user_id service_id m inv).0,
    )
