-- ===== src/Gateway/Visitor/History.antt =====
-- What a visitor can be after any history of its connections.
use trust.Prelude.{ℕ, ◌≡◌, ◌≢◌, Option, some, Text, text_eq, nat_eq, pair_eq}
use trust.HashMap.{HashMap, get}
use trust.Channel.{Channel}
use trust.Result.{panic}
use trust.Model.{Service}
use trust.Gateway.Visitor.{
  TcpGatewayProxyServerVisitor, ProxyAddrs, ProxyExecutorEvent, new, remove_proxy_for_key,
  shutdown_connections, open_tcp_and_tcp_proxy, open_tcp_and_udp_proxy,
}
use trust.Gateway.Visitor.Invariant.{IsConsistent, remove_proxy_for_key-Drops}
use trust.Gateway.Visitor.Safety.{shutdown_connections-IsSafe}
use trust.Gateway.Visitor.Accept.{
  Network, TcpStream, create_proxy_addrs, create_client_conn, prepare_proxy, on_conn_accepted,
}
use trust.Repository.ServiceRepo.{ServiceRepo}
use trust.Gateway.Authorization.{Platform, TlsConnection, ClientConnVisitor, process_authorization}
use trust.Gateway.Visitor.AcceptUdp.{UdpNetwork, prepare_udp_proxy, on_udp_conn_accepted}
use trust.Gateway.Visitor.Filing.{
  with_service-IsConsistent, file_user-IsConsistent, new-IsConsistent, IsFreeAddrs, IsNew,
  open_proxy-IsConsistent,
}

-- What can happen to a visitor: a call of one of its methods, or a change that another visitor makes
-- to the shared map at keys that are not this visitor's.
pub data Step (v : TcpGatewayProxyServerVisitor) : TcpGatewayProxyServerVisitor → Type 1 where
  connects :
      (p : Platform) (c : ClientConnVisitor) (repo : ServiceRepo)
      (tls : TlsConnection p.Certificate) (sock : TcpStream)
      → IsFreeAddrs v (create_proxy_addrs sock)
      → Step v (create_client_conn p c repo tls sock v).1
  accepts :
      (n : Network) (debug : ProxyAddrs → Text) (sock : TcpStream)
      (tasks : Channel ProxyExecutorEvent)
      → IsNew (prepare_proxy n v.service sock) sock v
      → Step v (on_conn_accepted n debug sock v tasks).1
  accepts_udp :
      (n : UdpNetwork) (debug : ProxyAddrs → Text) (sock : TcpStream)
      (tasks : Channel ProxyExecutorEvent)
      → IsNew (prepare_udp_proxy n v.service sock) sock v
      → Step v (on_udp_conn_accepted n debug sock v tasks).1
  removes : (key : Text) → Step v (remove_proxy_for_key key v).1
  shuts_down :
      (user_id : Option ℕ) (tasks : Channel ProxyExecutorEvent)
      → Step v (shutdown_connections user_id v tasks).1.visitor
  elsewhere :
      (services : HashMap Text ℕ)
      → ((k : Text) (a : ProxyAddrs)
          → get k v.proxy_addrs_by_proxy_key ≡ some a
          → get k services ≡ get k v.services_by_proxy_key)
      → Step v (record v { services_by_proxy_key = services })

pub data Reach (v : TcpGatewayProxyServerVisitor) : TcpGatewayProxyServerVisitor → Type 1 where
  here : Reach v v
  next : {w x : TcpGatewayProxyServerVisitor} → Reach v w → Step w x → Reach v x

Step-IsConsistent :
    {v w : TcpGatewayProxyServerVisitor} → Step v w → IsConsistent v → IsConsistent w
unfolding create_client_conn on_conn_accepted on_udp_conn_accepted
Step-IsConsistent {v} (connects p c repo tls sock free) inv =
    file_user-IsConsistent repo sock (process_authorization p c tls (some v.service.service_id)) v
      inv free
Step-IsConsistent {v} (accepts n debug sock tasks fresh) inv =
    open_proxy-IsConsistent open_tcp_and_tcp_proxy debug sock (prepare_proxy n v.service sock) v
      tasks inv fresh
Step-IsConsistent {v} (accepts_udp n debug sock tasks fresh) inv =
    open_proxy-IsConsistent open_tcp_and_udp_proxy debug sock (prepare_udp_proxy n v.service sock) v
      tasks inv fresh
Step-IsConsistent {v} (removes key) inv = (remove_proxy_for_key-Drops v key inv).2.consistent
Step-IsConsistent {v} (shuts_down user_id tasks) inv =
    (shutdown_connections-IsSafe user_id v tasks inv).consistent
Step-IsConsistent {v} (elsewhere services same_there) inv =
    with_service-IsConsistent v services inv same_there

-- After any history of a new visitor in which no connection has the address pair, or is given the key,
-- of a proxy that is still filed, its maps agree: each key's addresses belong to a user, no
-- two keys have the same addresses, a user's list has just the keys that lead to the user, and the
-- service manager finds the service of each key.
pub Reach-IsConsistent :
    (s : Service) (host : Option Text) (port : ℕ) (services : HashMap Text ℕ)
    {v : TcpGatewayProxyServerVisitor}
    → Reach (new s host port services) v
    → IsConsistent v
Reach-IsConsistent s host port services here = new-IsConsistent s host port services
Reach-IsConsistent s host port services (next r st) =
    Step-IsConsistent st (Reach-IsConsistent s host port services r)

-- On a visitor with any history of connections, accepted proxies, removals, shutdowns and changes of
-- other services' keys, in which no connection has the address pair, or is given the key, of a proxy
-- that is still filed, neither `remove_proxy_for_key` nor `shutdown_connections` panics.
pub Reach-never_panics :
    (s : Service) (host : Option Text) (port : ℕ) (services : HashMap Text ℕ)
    {v : TcpGatewayProxyServerVisitor} (key : Text) (user_id : Option ℕ)
    (tasks : Channel ProxyExecutorEvent)
    → Reach (new s host port services) v
    → ((remove_proxy_for_key key v).0 ≢ panic) × ((shutdown_connections user_id v tasks).0 ≢ panic)
Reach-never_panics s host port services {v} key user_id tasks r =
    let inv = Reach-IsConsistent s host port services r in
    let (b, e, d) = remove_proxy_for_key-Drops v key inv in
    (λ q. cc, (shutdown_connections-IsSafe user_id v tasks inv).no_panic)
