-- ===== src/Gateway/Visitor/AcceptUdp.antt =====
-- crates/gateway/src/service/proxy/udp_proxy.rs: how a connection to a UDP service becomes a proxy.
-- The rest of that file is the code of tcp_proxy.rs on the same fields, and is not repeated here: its
-- visitor is a `TcpGatewayProxyServerVisitor` too.
use trust.Prelude.{
  ℕ, ◌⊎◌, inl, inr, Option, none, some, List, [], ◌∷◌, ◌++◌, Text, codes, text_eq, nat_eq, pair_eq,
}
use trust.AppError.{AppError, ForeignError, general, gen_with_msg_and_err}
use trust.Channel.{Channel}
use trust.Result.{Result, ok, err, ◌>>=◌}
use trust.Model.{Service}
use trust.Proxy.Event.{tcp_and_udp, key_value}
use trust.Gateway.Visitor.{
  TcpGatewayProxyServerVisitor, ProxyAddrs, ProxyExecutorEvent, open_tcp_and_udp_proxy,
}
use trust.Gateway.Visitor.Accept.{TcpStream, or_fail, create_proxy_addrs, open_proxy}

-- The addresses of a host, and the UDP sockets. Connecting gives the socket as it then is.
pub record UdpNetwork : Type 1 where
  pub IpAddr : Type 0
  pub UdpSocket : Type 0
  pub reply_host : Text
  pub query_addrs : Text → List IpAddr ⊎ ForeignError
  pub bind : Text → UdpSocket ⊎ ForeignError
  pub connect : UdpSocket → IpAddr → ℕ → UdpSocket ⊎ ForeignError
  pub set_nonblocking : UdpSocket → Option ForeignError
  pub local_addr : UdpSocket → Option Text
  pub debug_addr : IpAddr → ℕ → Text
  pub debug_service : Service → Text
  pub debug_socket : UdpSocket → Text
  pub debug_stream : TcpStream → Text

module _ (n : UdpNetwork) where
  abbrev pub no_udp_endpoint : Service → Option ForeignError → AppError
  no_udp_endpoint s (some e) =
      gen_with_msg_and_err
        (codes "Failed connect to service endpoint(s): svc=" ++ n.debug_service s) e
  no_udp_endpoint s none =
      general (codes "No resolved service endpoints: svc=" ++ n.debug_service s)

  -- The loop over the resolved addresses, up to the first that the socket connects to.
  unfoldable pub connect_udp :
      Service → List n.IpAddr → Option ForeignError → n.UdpSocket → Result (n.UdpSocket × n.IpAddr)
  connect_udp s [] response_err socket = err (no_udp_endpoint s response_err)
  connect_udp s (host_addr ∷ addrs) response_err socket = elim (n.connect socket host_addr s.port) [
    | inl connected ↦
        or_fail (connected, host_addr)
          (codes "Failed making socket non-blocking: socket=" ++ n.debug_socket connected)
          (n.set_nonblocking connected)
    | inr e ↦ connect_udp s addrs (some e) socket
  ]

  unfoldable pub connect_udp_service : Service → Result (n.UdpSocket × n.IpAddr)
  unfolding connect_udp
  connect_udp_service s = elim (n.query_addrs s.host) [
    | inr e ↦ err (gen_with_msg_and_err (codes "Failed resolving host: host=" ++ s.host) e)
    | inl resolved_host ↦ elim (n.bind (n.reply_host ++ codes ":0")) [
      | inr e ↦ err (
          gen_with_msg_and_err
            (codes "Error binding service reply UDP socket: reply_host=" ++ n.reply_host) e)
      | inl udp_socket ↦ connect_udp s resolved_host none udp_socket
    ]
  ]

  -- The socket of the new proxy, and its key.
  unfoldable pub prepare_udp_proxy : Service → TcpStream → Result Text
  unfolding connect_udp_service
  prepare_udp_proxy s sock = do
    connection ← connect_udp_service s
    client_stream ←
        or_fail sock
          (codes "Unable to clone client service proxy stream: client_stream="
            ++ n.debug_stream sock)
          sock.try_clone
    ok (key_value tcp_and_udp (n.local_addr connection.0) (some (n.debug_addr connection.1 s.port)))

  -- `on_conn_accepted`.
  unfoldable pub on_udp_conn_accepted :
      (ProxyAddrs → Text)
      → TcpStream
      → TcpGatewayProxyServerVisitor
      → Channel ProxyExecutorEvent
      → Result (Unit {0}) × TcpGatewayProxyServerVisitor × Channel ProxyExecutorEvent
  unfolding create_proxy_addrs prepare_udp_proxy open_proxy
  on_udp_conn_accepted debug sock v tasks =
      open_proxy open_tcp_and_udp_proxy debug (create_proxy_addrs sock)
        (prepare_udp_proxy v.service sock) v tasks
