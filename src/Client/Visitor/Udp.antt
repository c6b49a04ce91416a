-- ===== src/Client/Visitor/Udp.antt =====
-- crates/client/src/service/proxy/udp_proxy.rs: the visitor of a UDP service, on the client. Each peer
-- has a proxy, and the channel on which its datagrams go there. The other methods are those of the TCP
-- visitor, on the same fields.
use trust.Prelude.{ℕ, Option, none, some, List, [], ◌++◌, Text, codes, text_eq, if◌then◌else◌}
use trust.HashMap.{HashMap, get, insert, contains_key}
use trust.AppError.{gen_with_msg_and_err}
use trust.Channel.{Channel, send, send_error}
use trust.Result.{Result, ok, err, panic}
use trust.Model.{Service}
use trust.Proxy.Event.{ProxyEvent, message, channel_and_tcp, key_value}
use trust.Proxy.Executor.{ProxyExecutorEvent, open_channel_and_tcp_proxy}
use trust.Net.TlsClient.{TlsNetwork}
use trust.Client.Visitor
use trust.Client.Visitor.{TcpClientProxyServerVisitor, connect_gateway, file_proxy, open_failed}

pub record UdpClientProxyServerVisitor : Type 0 where
  pub base : TcpClientProxyServerVisitor
  pub socket_channel_senders_by_proxy_key : HashMap Text (Channel ProxyEvent)

-- `UdpClientProxyServerVisitor::new`.
unfoldable pub new : Service → ℕ → Text → ℕ → HashMap Text ℕ → UdpClientProxyServerVisitor
unfolding Visitor.new
new service client_proxy_port gateway_proxy_host gateway_proxy_port services_by_proxy_key = record {
  base =
      Visitor.new service client_proxy_port gateway_proxy_host gateway_proxy_port
        services_by_proxy_key;
  socket_channel_senders_by_proxy_key = [];
}

-- A call's outcome, the visitor, and the channel to the proxy executor.
abbrev pub UdpState : Type 0
UdpState = Result (Unit {0}) × UdpClientProxyServerVisitor × Channel ProxyExecutorEvent

-- The proxy of a new peer: the connection, the request, and the maps. `drops_at` says when the proxy
-- drops the receiver of the new channel.
unfoldable pub open_udp_proxy :
    Result (Unit {0})
    → Option ℕ
    → Text
    → UdpClientProxyServerVisitor
    → Channel ProxyExecutorEvent
    → UdpState
unfolding file_proxy
open_udp_proxy (err e) drops_at proxy_key v tasks = (err e, v, tasks)
open_udp_proxy panic drops_at proxy_key v tasks = (panic, v, tasks)
open_udp_proxy (ok t) drops_at proxy_key v tasks =
    let sent = send (open_channel_and_tcp_proxy proxy_key) tasks in
    if sent.0
    then (
      ok tt,
      record {
        base = file_proxy proxy_key v.base;
        socket_channel_senders_by_proxy_key =
            insert proxy_key (record { sent = []; drops_at = drops_at })
              v.socket_channel_senders_by_proxy_key;
      },
      sent.1,
    )
    else (err (open_failed (codes "UDP") proxy_key), v, sent.1)

-- The datagram goes to the channel of the key.
unfoldable pub send_datagram :
    Text → Text → List ℕ → UdpClientProxyServerVisitor → Channel ProxyExecutorEvent → UdpState
send_datagram proxy_key peer_addr bytes v tasks =
    elim (get proxy_key v.socket_channel_senders_by_proxy_key) [
      | none ↦ (ok tt, v, tasks)
      | some socket_channel_sender ↦
          let sent = send (message proxy_key peer_addr bytes) socket_channel_sender in
          (
            (if sent.0
                then ok tt
                else err (
                    gen_with_msg_and_err
                      (codes "Error while sending message to socket channel: proxy_stream="
                        ++ proxy_key)
                      send_error)),
            record v {
              socket_channel_senders_by_proxy_key =
                  insert proxy_key sent.1 v.socket_channel_senders_by_proxy_key;
            },
            tasks,
          )
    ]

abbrev pub udp_key : Text → Text → Text
udp_key peer_addr local_addr = key_value channel_and_tcp (some peer_addr) (some local_addr)

-- What comes before the datagram is sent: a proxy, where the key has no channel.
unfoldable pub ensure_proxy :
    TlsNetwork
    → Option ℕ
    → Text
    → UdpClientProxyServerVisitor
    → Channel ProxyExecutorEvent
    → UdpState
unfolding connect_gateway open_udp_proxy
ensure_proxy n drops_at proxy_key v tasks =
    if contains_key proxy_key v.socket_channel_senders_by_proxy_key
    then (ok tt, v, tasks)
    else open_udp_proxy (connect_gateway n v.base) drops_at proxy_key v tasks

-- The rest of `on_message_received`, after a proxy is there or an error was met.
unfoldable pub relay_datagram : Text → Text → List ℕ → UdpState → UdpState
unfolding send_datagram
relay_datagram proxy_key peer_addr bytes (ok t, v, tasks) =
    send_datagram proxy_key peer_addr bytes v tasks
relay_datagram proxy_key peer_addr bytes (err e, v, tasks) = (err e, v, tasks)
relay_datagram proxy_key peer_addr bytes (panic, v, tasks) = (panic, v, tasks)

-- `on_message_received`.
unfoldable pub on_message_received :
    TlsNetwork
    → Option ℕ
    → Text
    → Text
    → List ℕ
    → UdpClientProxyServerVisitor
    → Channel ProxyExecutorEvent
    → UdpState
unfolding ensure_proxy relay_datagram
on_message_received n drops_at local_addr peer_addr bytes v tasks =
    relay_datagram (udp_key peer_addr local_addr) peer_addr bytes
      (ensure_proxy n drops_at (udp_key peer_addr local_addr) v tasks)
