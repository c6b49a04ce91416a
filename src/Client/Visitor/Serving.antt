-- ===== src/Client/Visitor/Serving.antt =====
-- crates/client/src/service/proxy/tcp_proxy.rs: the visitor as the listener of its port calls it.
use trust.Prelude.{◌≢◌, Text, arith}
use trust.Channel.{Channel}
use trust.Result.{Result, ok, panic}
use trust.Gateway.Visitor.Accept.{TcpStream}
use trust.Proxy.Executor.{ProxyExecutorEvent}
use trust.Net.TlsClient
use trust.Net.TlsClient.{TlsNetwork}
use trust.Net.Server.{ServerVisitor}
use trust.Net.Server.Polling.{IsCalm}
use trust.Client.Visitor.{
  TcpClientProxyServerVisitor, create_client_conn, on_conn_accepted, prepare_proxy, open_proxy,
  connect_gateway,
}

-- The visitor, and the channel to the proxy executor.
abbrev pub Served : Type 0
Served = TcpClientProxyServerVisitor × Channel ProxyExecutorEvent

module _ (n : TlsNetwork) (debug_stream : TcpStream → Text) where
  -- `impl ServerVisitor for TcpClientProxyServerVisitor`.
  unfoldable pub as_server_visitor : ServerVisitor Served TcpStream TcpStream
  unfolding create_client_conn on_conn_accepted
  as_server_visitor = record {
    create_client_conn = λ stream w.
        let made = create_client_conn debug_stream stream w.0 in (made.0, (made.1, w.1));
    on_listening = λ w. (ok tt, w);
    on_conn_accepted = λ stream w.
        let done = on_conn_accepted n debug_stream stream w.0 w.1 in (done.0, (done.1, done.2));
    get_shutdown_requested = λ w. w.0.shutdown_requested;
  }

  connect_gateway-panic : (v : TcpClientProxyServerVisitor) → connect_gateway n v ≢ panic
  unfolding connect_gateway TlsClient.connect TlsClient.establish TlsClient.first_addr
  connect_gateway-panic v = ground arith

  create_client_conn-panic :
      (stream : TcpStream) (v : TcpClientProxyServerVisitor)
      → (create_client_conn debug_stream stream v).0 ≢ panic
  unfolding create_client_conn
  create_client_conn-panic stream v = ground arith

  prepare_proxy-panic :
      (stream : TcpStream) (v : TcpClientProxyServerVisitor)
      → prepare_proxy n debug_stream stream v ≢ panic
  unfolding prepare_proxy
  prepare_proxy-panic stream v = ground (arith, connect_gateway-panic v)

  open_proxy-panic :
      (r : Result Text) (v : TcpClientProxyServerVisitor) (tasks : Channel ProxyExecutorEvent)
      → r ≢ panic
      → (open_proxy r v tasks).0 ≢ panic
  unfolding open_proxy
  open_proxy-panic r v tasks h = ground arith

  -- No handler of the visitor panics.
  pub as_server_visitor-IsCalm : IsCalm as_server_visitor
  unfolding as_server_visitor on_conn_accepted
  as_server_visitor-IsCalm = record {
    creates = λ stream w. create_client_conn-panic stream w.0;
    accepts = λ stream w.
        open_proxy-panic (prepare_proxy n debug_stream stream w.0) w.0 w.1
          (prepare_proxy-panic stream w.0);
  }
