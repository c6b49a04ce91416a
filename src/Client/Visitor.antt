-- ===== src/Client/Visitor.antt =====
-- crates/client/src/service/proxy/tcp_proxy.rs and udp_proxy.rs: the connections of one service, on
-- the client. The visitors of the two transports share their fields and their methods, but for the
-- word `TCP` or `UDP` in a message; the UDP visitor has one map more (Udp). The map
-- `services_by_proxy_key` is shared with the service manager and the other visitors: a method is given
-- its present content in the field, and leaves the new content there.
pub mod Udp
pub mod Shutdown
pub mod Filing
pub mod Datagram
pub mod Serving
use trust.Prelude.{
  ℕ, ◌⊎◌, Bool, true, false, Option, none, some, List, [], ◌∷◌, ◌++◌, Text, codes, text_eq,
  if◌then◌else◌,
}
use trust.HashMap.{HashMap, insert, remove, contains_key, keys}
use trust.AppError.{AppError, ForeignError, general}
use trust.Channel.{Channel, send, send_error}
use trust.Result.{Result, ok, err, panic, ◌>>=◌}
use trust.Model.{Service}
use trust.Alpn.{create_service_protocol}
use trust.Proxy.Event.{tcp_and_tcp, key_value}
use trust.Proxy.Executor.{ProxyExecutorEvent, open_tcp_and_tcp_proxy, close}
use trust.Gateway.Visitor.{join}
use trust.Gateway.Visitor.Accept.{TcpStream, or_fail}
use trust.Net.TlsClient
use trust.Net.TlsClient.{TlsNetwork, ClientVisitor, Client, done_or}

-- `HashSet`.
abbrev pub HashSet : Type 0 → Type 0
HashSet K = HashMap K (Unit {0})

pub record TcpClientProxyServerVisitor : Type 0 where
  pub service : Service
  pub client_proxy_port : ℕ
  pub gateway_proxy_host : Text
  pub gateway_proxy_port : ℕ
  pub services_by_proxy_key : HashMap Text ℕ
  pub proxy_keys : HashSet Text
  pub shutdown_requested : Bool

-- `TcpClientProxyServerVisitor::new`.
unfoldable pub new : Service → ℕ → Text → ℕ → HashMap Text ℕ → TcpClientProxyServerVisitor
new service client_proxy_port gateway_proxy_host gateway_proxy_port services_by_proxy_key = record {
  service = service;
  client_proxy_port = client_proxy_port;
  gateway_proxy_host = gateway_proxy_host;
  gateway_proxy_port = gateway_proxy_port;
  services_by_proxy_key = services_by_proxy_key;
  proxy_keys = [];
  shutdown_requested = false;
}

-- `set_shutdown_requested`.
unfoldable pub set_shutdown_requested : TcpClientProxyServerVisitor → TcpClientProxyServerVisitor
set_shutdown_requested v = record v { shutdown_requested = true }

-- `remove_proxy_for_key`.
unfoldable pub remove_proxy_for_key :
    Text → TcpClientProxyServerVisitor → Bool × TcpClientProxyServerVisitor
remove_proxy_for_key proxy_key v =
    if contains_key proxy_key v.proxy_keys
    then (
      true,
      record v {
        services_by_proxy_key = remove proxy_key v.services_by_proxy_key;
        proxy_keys = remove proxy_key v.proxy_keys;
      },
    )
    else (false, v)

-- What the loop of `shutdown_connections` changes: the shared map, the channel, the error texts.
pub record Draining : Type 0 where
  pub services : HashMap Text ℕ
  pub tasks : Channel ProxyExecutorEvent
  pub errors : List Text

abbrev pub close_error : Text → Text → Text
close_error transport proxy_key =
    codes "Error while sending request to close a "
    ++ (transport
        ++ (codes " proxy connection: proxy_stream="
            ++ (proxy_key ++ (codes ", err=" ++ send_error.debug))))

-- One round: a request that cannot be sent is an error, and the key is forgotten all the same.
unfoldable pub drain_key : Text → Text → Draining → Draining
drain_key transport proxy_key d =
    let sent = send (close proxy_key) d.tasks in
    record {
      services = remove proxy_key d.services;
      tasks = sent.1;
      errors = if sent.0 then d.errors else d.errors ++ close_error transport proxy_key ∷ [];
    }

unfoldable pub drain_keys : Text → List Text → Draining → Draining
unfolding drain_key
drain_keys transport [] d = d
drain_keys transport (key ∷ rest) d = drain_keys transport rest (drain_key transport key d)

abbrev pub closing_failed : List Text → AppError
closing_failed errors =
    general (codes "Errors closing proxy connection(s), err=" ++ join (codes ", ") errors)

-- `shutdown_connections`. After an error the visitor keeps its set of keys.
unfoldable pub shutdown_connections :
    Text
    → TcpClientProxyServerVisitor
    → Channel ProxyExecutorEvent
    → Result (Unit {0}) × TcpClientProxyServerVisitor × Channel ProxyExecutorEvent
unfolding drain_keys
shutdown_connections transport v tasks =
    let d =
      drain_keys transport (keys v.proxy_keys)
        (record { services = v.services_by_proxy_key; tasks = tasks; errors = [] }) in
    elim d.errors [
      | [] ↦ (ok tt, record v { services_by_proxy_key = d.services; proxy_keys = [] }, d.tasks)
      | e ∷ es ↦
          (err (closing_failed (e ∷ es)), record v { services_by_proxy_key = d.services }, d.tasks)
    ]

-- The client's connection to the gateway, for the proxies of a service.
abbrev pub gateway_client : TcpClientProxyServerVisitor → Client
gateway_client v = record {
  alpn_protocol = create_service_protocol v.service.service_id;
  server_host = v.gateway_proxy_host;
  server_port = v.gateway_proxy_port;
}

-- `ClientVisitor` of crates/client/src/service/proxy/proxy_client.rs, which has no state. Its connection
-- is known by the socket.
abbrev pub proxy_client : {S : Type 0} → ClientVisitor S (Unit {0}) S
proxy_client = record {
  create_server_conn = λ stream v. (ok stream, v);
  on_connected = λ v. (ok tt, v);
}

module _ (n : TlsNetwork) where
  -- The connection to the gateway, whose stream is then cloned.
  unfoldable pub connect_gateway : TcpClientProxyServerVisitor → Result (Unit {0})
  unfolding TlsClient.connect
  connect_gateway v = do
    sock ← (TlsClient.connect n proxy_client (gateway_client v) tt).0
    done_or (n.try_clone sock) (codes "Error trying to clone gateway proxy TLS stream")

  -- The streams of the new proxy, and its key.
  unfoldable pub prepare_proxy :
      (TcpStream → Text) → TcpStream → TcpClientProxyServerVisitor → Result Text
  unfolding connect_gateway
  prepare_proxy debug_stream tcp_stream v = do
    gateway_stream ← connect_gateway v
    client_stream ←
        or_fail tcp_stream
          (codes "Unable to clone client stream: client_stream=" ++ debug_stream tcp_stream)
          tcp_stream.try_clone
    ok (key_value tcp_and_tcp tcp_stream.peer_addr tcp_stream.local_addr)

abbrev pub open_failed : Text → Text → AppError
open_failed transport proxy_key = general (
    codes "Error while sending request for new "
    ++ (transport
        ++ (codes " proxy: proxy_key=" ++ (proxy_key ++ (codes ", err=" ++ send_error.debug)))))

-- "Setup proxy maps".
unfoldable pub file_proxy : Text → TcpClientProxyServerVisitor → TcpClientProxyServerVisitor
file_proxy proxy_key v = record v {
  services_by_proxy_key = insert proxy_key v.service.service_id v.services_by_proxy_key;
  proxy_keys = insert proxy_key tt v.proxy_keys;
}

-- The end of `on_conn_accepted`: the request to the proxy executor, and the maps.
unfoldable pub open_proxy :
    Result Text
    → TcpClientProxyServerVisitor
    → Channel ProxyExecutorEvent
    → Result (Unit {0}) × TcpClientProxyServerVisitor × Channel ProxyExecutorEvent
unfolding file_proxy
open_proxy (err e) v tasks = (err e, v, tasks)
open_proxy panic v tasks = (panic, v, tasks)
open_proxy (ok proxy_key) v tasks =
    let sent = send (open_tcp_and_tcp_proxy proxy_key) tasks in
    if sent.0
    then (ok tt, file_proxy proxy_key v, sent.1)
    else (err (open_failed (codes "TCP") proxy_key), v, sent.1)

-- `on_conn_accepted`.
unfoldable pub on_conn_accepted :
    TlsNetwork
    → (TcpStream → Text)
    → TcpStream
    → TcpClientProxyServerVisitor
    → Channel ProxyExecutorEvent
    → Result (Unit {0}) × TcpClientProxyServerVisitor × Channel ProxyExecutorEvent
unfolding prepare_proxy open_proxy
on_conn_accepted n debug_stream tcp_stream v tasks =
    open_proxy (prepare_proxy n debug_stream tcp_stream v) v tasks

-- `create_client_conn`: a connection, which is known by its socket, clones it to read and to write.
unfoldable pub create_client_conn :
    (TcpStream → Text)
    → TcpStream
    → TcpClientProxyServerVisitor
    → Result TcpStream × TcpClientProxyServerVisitor
create_client_conn debug_stream tcp_stream v =
    let msg = codes "Error trying to clone tcp stream: stream=" ++ debug_stream tcp_stream in
    (
      or_fail tcp_stream msg tcp_stream.try_clone >>= λ stream_reader.
          or_fail tcp_stream msg tcp_stream.try_clone,
      v,
    )
