-- ===== src/Lib.antt =====
-- Trust0: what the gateway and the client of the service access framework do, and what their parts
-- promise.
--
-- The gateway (crates/gateway/src) lets client devices into services. A client connects over TLS; its
-- certificate says which user it is for, and the ALPN protocol whether it is a control connection or
-- one to a service. Over a control connection it sends commands, which start services, list them and
-- stop their connections. The service manager gives each service a port and a visitor; the visitor
-- keeps maps of the service's proxies, which a proxy executor runs. The client (crates/client/src) sends
-- the commands that its user types and acts on the gateway's answers: for each service that the gateway
-- started, its service manager starts a visitor, which listens for local connections or datagrams and
-- takes each through a connection to the gateway. The messages, the protocol names, the proxy keys, the
-- errors and the connections, with the loop that polls them, are in crates/common/src.
--
-- Which file models what:
--   AppError          crates/common/src/error.rs
--   Model             crates/common/src/model/
--   Alpn              crates/common/src/crypto/alpn.rs
--   Control.Request   crates/common/src/control/request.rs: `RequestProcessor`
--   Control.Response  crates/common/src/control/response.rs
--   Proxy.Event       crates/common/src/proxy/event.rs, proxy_base.rs
--   Proxy.Executor    crates/common/src/proxy/executor.rs: `ProxyExecutor`
--   Proxy.Streams     crates/common/src/net/stream_utils.rs: reading and writing sockets
--   Proxy.TcpAndTcp   crates/common/src/proxy/proxy_tcp_and_tcp.rs: `TcpAndTcpStreamProxy`
--   Repository        crates/gateway/src/repository/: the three in-memory stores. Table has what they
--                     share, AccessRepo, ServiceRepo and UserRepo the methods of each
--   Gateway.Codes     crates/gateway/src/config.rs: response codes and messages
--   Gateway.Device    crates/gateway/src/client/device.rs: `Device`
--   Gateway.Authorization, Gateway.Connection
--                     crates/gateway/src/client/connection.rs: `ClientConnVisitor`
--   Gateway.Controller
--                     crates/gateway/src/client/controller.rs: `ControlPlane`. Commands has the commands;
--                     in Process, `process_request` is `perform`, which performs a request that was
--                     read, and `conclude`, which answers
--   Gateway.ControlPlane
--                     crates/gateway/src/client/controller.rs: `ControlPlaneServerVisitor`
--   Gateway.Visitor   crates/gateway/src/service/proxy/tcp_proxy.rs and udp_proxy.rs: the visitors, whose
--                     code differs only in `on_conn_accepted` (Accept, AcceptUdp)
--   Gateway.Manager   crates/gateway/src/service/manager.rs: `GatewayServiceMgr`
--   Net.TlsClient     crates/common/src/net/tls_client/client_std.rs: `Client::connect`
--   Net.Connection    crates/common/src/net/tcp_server/conn_std.rs: `Connection`, whose code on a TLS stream
--                     is tls_server/conn_std.rs and tls_client/conn_std.rs
--   Net.Server        crates/common/src/net/tcp_server/server_std.rs: `Server`
--   Net.TlsServer     crates/common/src/net/tls_server/server_std.rs: `Server::accept`; the rest of the server is
--                     the code of Net.Server
--   Client.Visitor    crates/client/src/service/proxy/tcp_proxy.rs and udp_proxy.rs (Udp): the visitors;
--                     Serving has what a listener calls
--   Client.Manager    crates/client/src/service/manager.rs: `ClientServiceMgr`
--   Client.Console    crates/client/src/console.rs
--   Client.Controller crates/client/src/gateway/controller.rs: `ControlPlane`
--   Client.Connection crates/client/src/gateway/connection.rs: `ServerConnVisitor`
--   Text, HashMap, Channel, Result, Prelude
--                     what the program uses of the standard library, and shared lemmas
--   Tests             runs on small inputs
--
-- State is passed explicitly: a method takes the state as an argument and returns its result and the
-- state after it, also where it fails. A result is `ok`, `err` or `panic`; unwrapping nothing is a
-- panic. What threads share (the map `services_by_proxy_key`, a channel's sender) is a field that its
-- holder lends to the callee and takes back. A hash map is an association list; its order stands for
-- the order of iteration, and no theorem relies on it. Numbers are naturals, with the bounds of `u16`
-- and `u64` where the program converts or adds: `next_service_port` overflows at 65535, with or without
-- the check of the build. `show` runs on fuel one more than the number, which is more than its digits.
-- The loop over a connection's events runs on fuel one more than its budget: the events that wait, the
-- writes that may fail, and the events of a shutdown to come; the loop that polls a connection runs for a
-- given number of rounds. All other recursion is on the structure of a list. Where threads
-- interleave and a property depends on it, the order is an argument: what other threads do to the visitor
-- of a TCP listener between its calls, and whether `connect` or the thread it started sets `closed` first.
--
-- Parameters, never defined here: the JSON library (`Json`), certificate parsing (`X509`), the command
-- line parser (`CommandParser`), sockets and name resolution (`Network`, `UdpNetwork`, `TlsNetwork`),
-- what a socket's reads and writes and a poller give, what creating a proxy gives, the handlers of a
-- connection (`ConnectionVisitor`), UTF-8 decoding, reading files, Unicode's decimal digits, and
-- `{:?}` of errors and of other libraries' values.
--
-- Not modelled: the UDP server, and the proxies with a channel or a UDP socket on one side, in
-- crates/common/src; threads, configuration, logging and key files. Of mutexes only
-- the poisoned locks of the stores are modelled.
pub mod Prelude
pub mod HashMap
pub mod Text
pub mod AppError
pub mod Result
pub mod Channel
pub mod Model
pub mod Alpn
pub mod Control
pub mod Repository
pub mod Proxy
pub mod Gateway
pub mod Net
pub mod Client
pub mod Tests
