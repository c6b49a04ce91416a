-- ===== src/Net/TlsClient.antt =====
-- crates/common/src/net/tls_client/client_std.rs: connecting to a server over TLS. Name resolution,
-- sockets and the TLS library are arguments.
use trust.Prelude.{ℕ, ◌⊎◌, inl, inr, Option, none, some, List, [], ◌∷◌, ◌++◌, Text, codes}
use trust.Text.{show}
use trust.AppError.{AppError, ForeignError, general, gen_with_msg_and_err, io}
use trust.Result.{Result, ok, err, panic, ◌>>=◌}

-- `Client`, before it is connected: the ALPN protocol of its configuration, and its server.
pub record Client : Type 0 where
  pub alpn_protocol : Text
  pub server_host : Text
  pub server_port : ℕ

-- `ClientVisitor`, with TLS streams `S` and connections `C`: a handler's result and its state.
pub record ClientVisitor (S V C : Type 0) : Type 0 where
  pub create_server_conn : S → V → Result C × V
  pub on_connected : V → Result (Unit {0}) × V

-- What connecting uses. An operation that gives nothing says why it fails, if it does.
pub record TlsNetwork : Type 1 where
  pub ServerName : Type 0
  pub SocketAddr : Type 0
  pub ClientConnection : Type 0
  pub TcpStream : Type 0
  pub server_name : Text → ServerName ⊎ ForeignError
  pub to_socket_addrs : Text → ℕ → List SocketAddr ⊎ ForeignError
  pub new_connection : Text → ServerName → ClientConnection ⊎ ForeignError
  pub connect : SocketAddr → TcpStream ⊎ ForeignError
  pub complete_io : ClientConnection → TcpStream → Option ForeignError
  pub set_nonblocking : TcpStream → Option ForeignError
  pub try_clone : TcpStream → Option ForeignError
  pub debug_name : ServerName → Text
  pub debug_addr : SocketAddr → Text
  pub display_addr : SocketAddr → Text

-- `map_err`.
abbrev pub or_map_err : {A : Type 0} → A ⊎ ForeignError → (ForeignError → AppError) → Result A
or_map_err (inl a) f = ok a
or_map_err (inr e) f = err (f e)

abbrev pub done_or : Option ForeignError → Text → Result (Unit {0})
done_or none msg = ok tt
done_or (some e) msg = err (gen_with_msg_and_err msg e)

module _ (n : TlsNetwork) where
  -- `to_socket_addrs()?.next().ok_or(…)`.
  unfoldable pub first_addr : Client → List n.SocketAddr → Result n.SocketAddr
  first_addr c [] = err (
      general (
        codes "Unable to create socket addr: host="
        ++ (c.server_host ++ (codes ", port=" ++ show c.server_port))))
  first_addr c (addr ∷ addrs) = ok addr

  -- `connect` up to the TLS stream, which is known by its socket.
  unfoldable pub establish : Client → Result n.TcpStream
  unfolding first_addr
  establish c = do
    server_host ←
        or_map_err (n.server_name c.server_host)
          (gen_with_msg_and_err (codes "Failed to resolve server host: host=" ++ c.server_host))
    addrs ← or_map_err (n.to_socket_addrs c.server_host c.server_port) io
    server_addr ← first_addr c addrs
    tls_cli_conn ← or_map_err (n.new_connection c.alpn_protocol server_host) (
        gen_with_msg_and_err
          (codes "Error setting up TLS client connection: server=" ++ n.debug_name server_host))
    tcp_stream ← or_map_err (n.connect server_addr) (
        gen_with_msg_and_err
          (codes "Error establishing TCP connection: addr=" ++ n.debug_addr server_addr))
    handshake ←
        done_or (n.complete_io tls_cli_conn tcp_stream)
          (codes "Error completing TLS client connection")
    nonblocking ←
        done_or (n.set_nonblocking tcp_stream)
          (codes "Failed making socket non-blocking: addr=" ++ n.display_addr server_addr)
    ok tcp_stream

  module _ {V C : Type 0} (visitor : ClientVisitor n.TcpStream V C) where
    -- `connect`, with the visitor's state: the connection that the client keeps.
    unfoldable pub connect : Client → V → Result C × V
    unfolding establish
    connect c v = elim (establish c) [
      | err e ↦ (err e, v)
      | panic ↦ (panic, v)
      | ok stream ↦
          let made = visitor.create_server_conn stream v in
          elim made.0 [
            | err e ↦ (err e, made.1)
            | panic ↦ (panic, made.1)
            | ok connection ↦
                let told = visitor.on_connected made.1 in (told.0 >>= λ t. ok connection, told.1)
          ]
    ]
