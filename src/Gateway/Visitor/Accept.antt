-- ===== src/Gateway/Visitor/Accept.antt =====
-- crates/gateway/src/service/proxy/tcp_proxy.rs: how a connection is let in and becomes a proxy.
-- Sockets, the DNS client and connecting are arguments.
use trust.Prelude.{
  ℕ, ◌⊎◌, inl, inr, Option, none, some, List, [], ◌∷◌, ◌++◌, Text, codes, text_eq, nat_eq, pair_eq,
  if◌then◌else◌,
}
use trust.HashMap.{get, insert}
use trust.AppError.{AppError, ForeignError, general, gen_with_msg_and_err}
use trust.Channel.{Channel, send, send_error}
use trust.Result.{Result, ok, err, panic, ◌>>=◌}
use trust.Model.{Service}
use trust.Alpn.{Protocol}
use trust.Proxy.Event.{tcp_and_tcp, key_value}
use trust.Repository.ServiceRepo
use trust.Repository.ServiceRepo.{ServiceRepo}
use trust.Gateway.Authorization.{Platform, TlsConnection, ClientConnVisitor, process_authorization}
use trust.Gateway.Visitor.{
  TcpGatewayProxyServerVisitor, ProxyAddrs, ProxyExecutorEvent, open_tcp_and_tcp_proxy,
  push_for_user,
}

-- A TCP stream: its two addresses as they are printed, and why an operation on it fails, if it does.
pub record TcpStream : Type 0 where
  pub peer_addr : Option Text
  pub local_addr : Option Text
  pub set_nonblocking : Option ForeignError
  pub try_clone : Option ForeignError

abbrev pub or_na : Option Text → Text
or_na none = codes "(NA)"
or_na (some addr) = addr

-- `create_proxy_addrs`.
unfoldable pub create_proxy_addrs : TcpStream → ProxyAddrs
create_proxy_addrs sock = (or_na sock.peer_addr, or_na sock.local_addr)

-- `Connection::new` sets up the control plane of the connection, which reads all services.
unfoldable pub new_connection : ServiceRepo → Protocol → Result Protocol
new_connection service_repo protocol = ServiceRepo.get_all service_repo >>= λ services. ok protocol

-- `create_client_conn`: the address pair is filed before the connection is made.
unfoldable pub file_user :
    ServiceRepo
    → TcpStream
    → Result Protocol × ClientConnVisitor
    → TcpGatewayProxyServerVisitor
    → Result Protocol × TcpGatewayProxyServerVisitor
unfolding create_proxy_addrs new_connection
file_user service_repo sock (ok protocol, conn_visitor) v = elim conn_visitor.user [
  | none ↦ (panic, v)
  | some user ↦ (
    new_connection service_repo protocol,
    record v {
      users_by_proxy_addrs = insert (create_proxy_addrs sock) user.user_id v.users_by_proxy_addrs;
    },
  )
]
file_user service_repo sock (err e, conn_visitor) v = (err e, v)
file_user service_repo sock (panic, conn_visitor) v = (panic, v)

unfoldable pub create_client_conn :
    (p : Platform)
    → ClientConnVisitor
    → ServiceRepo
    → TlsConnection p.Certificate
    → TcpStream
    → TcpGatewayProxyServerVisitor
    → Result Protocol × TcpGatewayProxyServerVisitor
unfolding file_user
create_client_conn p conn_visitor service_repo tls_conn sock v =
    file_user service_repo sock
      (process_authorization p conn_visitor tls_conn (some v.service.service_id)) v

-- The addresses of a host, and what connecting to one of them gives.
pub record Network : Type 1 where
  pub IpAddr : Type 0
  pub query_addrs : Text → List IpAddr ⊎ ForeignError
  pub connect : IpAddr → ℕ → TcpStream ⊎ ForeignError
  pub debug_service : Service → Text
  pub debug_stream : TcpStream → Text

abbrev pub or_fail : {A : Type 0} → A → Text → Option ForeignError → Result A
or_fail a msg none = ok a
or_fail a msg (some e) = err (gen_with_msg_and_err msg e)

module _ (n : Network) where
  abbrev pub no_endpoint : Service → Option ForeignError → AppError
  no_endpoint s (some e) =
      gen_with_msg_and_err
        (codes "Failed connect to service endpoint(s): svc=" ++ n.debug_service s) e
  no_endpoint s none = general (codes "No resolved service endpoints: svc=" ++ n.debug_service s)

  -- The loop over the resolved addresses, up to the first that answers.
  unfoldable pub connect_any : Service → List n.IpAddr → Option ForeignError → Result TcpStream
  connect_any s [] response_err = err (no_endpoint s response_err)
  connect_any s (host_addr ∷ addrs) response_err = elim (n.connect host_addr s.port) [
    | inl socket ↦
        or_fail socket (codes "Failed making socket non-blocking: socket=" ++ n.debug_stream socket)
          socket.set_nonblocking
    | inr e ↦ connect_any s addrs (some e)
  ]

  unfoldable pub connect_service : Service → Result TcpStream
  unfolding connect_any
  connect_service s = elim (n.query_addrs s.host) [
    | inr e ↦ err (gen_with_msg_and_err (codes "Failed resolving host: host=" ++ s.host) e)
    | inl resolved_host ↦ connect_any s resolved_host none
  ]

  -- The streams of the new proxy, and its key.
  unfoldable pub prepare_proxy : Service → TcpStream → Result Text
  unfolding connect_service
  prepare_proxy s sock = do
    service_stream ← connect_service s
    client_stream ←
        or_fail sock
          (codes "Unable to clone client service proxy stream: client_stream="
            ++ n.debug_stream sock)
          sock.try_clone
    copy ←
        or_fail service_stream
          (codes "Unable to clone service stream: service_stream=" ++ n.debug_stream service_stream)
          service_stream.try_clone
    ok (key_value tcp_and_tcp sock.peer_addr service_stream.peer_addr)

abbrev pub open_failed : Text → AppError
open_failed proxy_key = general (
    codes "Error while sending request for new TCP proxy: proxy_key="
    ++ (proxy_key ++ (codes ", err=" ++ send_error.debug)))

abbrev pub unknown_user : (ProxyAddrs → Text) → ProxyAddrs → AppError
unknown_user debug addrs =
    general (codes "Unknown user for proxy address pair: addrs=" ++ debug addrs)

-- "Set up proxy maps". The service of the key is filed first, also if the user is missing.
unfoldable pub file_proxy :
    (ProxyAddrs → Text)
    → Text
    → ProxyAddrs
    → TcpGatewayProxyServerVisitor
    → Result (Unit {0}) × TcpGatewayProxyServerVisitor
unfolding push_for_user
file_proxy debug proxy_key proxy_addrs v =
    let services = insert proxy_key v.service.service_id v.services_by_proxy_key in
    elim (get proxy_addrs v.users_by_proxy_addrs) [
      | none ↦ (err (unknown_user debug proxy_addrs), record v { services_by_proxy_key = services })
      | some user_id ↦ (
        ok tt,
        record v {
          services_by_proxy_key = services;
          proxy_addrs_by_proxy_key = insert proxy_key proxy_addrs v.proxy_addrs_by_proxy_key;
          proxy_keys_by_user = push_for_user proxy_key user_id v.proxy_keys_by_user;
        },
      )
    ]

-- The end of `on_conn_accepted`: the request to the proxy executor, and the maps.
unfoldable pub open_proxy :
    (Text → ProxyExecutorEvent)
    → (ProxyAddrs → Text)
    → ProxyAddrs
    → Result Text
    → TcpGatewayProxyServerVisitor
    → Channel ProxyExecutorEvent
    → Result (Unit {0}) × TcpGatewayProxyServerVisitor × Channel ProxyExecutorEvent
open_proxy request debug proxy_addrs (err e) v tasks = (err e, v, tasks)
open_proxy request debug proxy_addrs panic v tasks = (panic, v, tasks)
open_proxy request debug proxy_addrs (ok proxy_key) v tasks =
    let sent = send (request proxy_key) tasks in
    let filed = file_proxy debug proxy_key proxy_addrs v in
    if sent.0 then (filed.0, filed.1, sent.1) else (err (open_failed proxy_key), v, sent.1)

-- `on_conn_accepted`.
unfoldable pub on_conn_accepted :
    Network
    → (ProxyAddrs → Text)
    → TcpStream
    → TcpGatewayProxyServerVisitor
    → Channel ProxyExecutorEvent
    → Result (Unit {0}) × TcpGatewayProxyServerVisitor × Channel ProxyExecutorEvent
unfolding create_proxy_addrs prepare_proxy open_proxy
on_conn_accepted n debug sock v tasks =
    open_proxy open_tcp_and_tcp_proxy debug (create_proxy_addrs sock)
      (prepare_proxy n v.service sock) v tasks
