-- ===== src/Client/Visitor/Filing.antt =====
-- What a new connection or a datagram makes of a client's visitor.
use trust.Prelude.{
  ℕ, ◌≡◌, ◌⊎◌, inl, inr, refl, Option, Text, List, Bool-cases, Option-cases, text_eq,
}
use trust.HashMap.{get, contains_key}
use trust.Channel.{Channel, send}
use trust.Result.{Result, ok, err, panic, Result-cases}
use trust.Proxy.Executor.{ProxyExecutorEvent, open_tcp_and_tcp_proxy, open_channel_and_tcp_proxy}
use trust.Net.TlsClient.{TlsNetwork}
use trust.Client.Visitor.{TcpClientProxyServerVisitor, file_proxy, open_proxy, connect_gateway}
use trust.Client.Visitor.Udp.{
  UdpClientProxyServerVisitor, open_udp_proxy, ensure_proxy, send_datagram, on_message_received,
  relay_datagram, udp_key,
}

-- The visitor is as it was, or has filed a proxy.
abbrev pub MayFile : TcpClientProxyServerVisitor → TcpClientProxyServerVisitor → Type 0
MayFile v w = (w ≡ v) ⊎ ((key : Text) × (w ≡ file_proxy key v))

pub open_proxy-MayFile :
    (r : Result Text) (v : TcpClientProxyServerVisitor) (tasks : Channel ProxyExecutorEvent)
    → MayFile v (open_proxy r v tasks).1
unfolding open_proxy
open_proxy-MayFile (err e) v tasks = inl refl
open_proxy-MayFile panic v tasks = inl refl
open_proxy-MayFile (ok key) v tasks =
    elim (Bool-cases (send (open_tcp_and_tcp_proxy key) tasks).0) [
      | inl e ↦ inr (key, rw (e, open_proxy) refl)
      | inr e ↦ inl (rw (e, open_proxy) refl)
    ]

open_udp_proxy-MayFile :
    (r : Result (Unit {0})) (drops_at : Option ℕ) (key : Text) (v : UdpClientProxyServerVisitor)
    (tasks : Channel ProxyExecutorEvent)
    → MayFile v.base (open_udp_proxy r drops_at key v tasks).1.base
unfolding open_udp_proxy
open_udp_proxy-MayFile (err e) drops_at key v tasks = inl refl
open_udp_proxy-MayFile panic drops_at key v tasks = inl refl
open_udp_proxy-MayFile (ok t) drops_at key v tasks =
    elim (Bool-cases (send (open_channel_and_tcp_proxy key) tasks).0) [
      | inl e ↦ inr (key, rw (e, open_udp_proxy) refl)
      | inr e ↦ inl (rw (e, open_udp_proxy) refl)
    ]

pub ensure_proxy-MayFile :
    (n : TlsNetwork) (drops_at : Option ℕ) (key : Text) (v : UdpClientProxyServerVisitor)
    (tasks : Channel ProxyExecutorEvent)
    → MayFile v.base (ensure_proxy n drops_at key v tasks).1.base
unfolding ensure_proxy
ensure_proxy-MayFile n drops_at key v tasks =
    elim (Bool-cases (contains_key key v.socket_channel_senders_by_proxy_key)) [
      | inl e ↦ rw (e, ensure_proxy) (inl refl)
      | inr e ↦
          rw (e, ensure_proxy)
            (open_udp_proxy-MayFile (connect_gateway n v.base) drops_at key v tasks)
    ]

pub send_datagram-base :
    (key peer_addr : Text) (bytes : List ℕ) (v : UdpClientProxyServerVisitor)
    (tasks : Channel ProxyExecutorEvent)
    → (send_datagram key peer_addr bytes v tasks).1.base ≡ v.base
unfolding send_datagram
send_datagram-base key peer_addr bytes v tasks =
    elim (Option-cases (get key v.socket_channel_senders_by_proxy_key)) [
      | inl e ↦ rw (e, send_datagram) refl
      | inr (c, e) ↦ rw (e, send_datagram) refl
    ]

pub on_message_received-MayFile :
    (n : TlsNetwork) (drops_at : Option ℕ) (local_addr peer_addr : Text) (bytes : List ℕ)
    (v : UdpClientProxyServerVisitor) (tasks : Channel ProxyExecutorEvent)
    → MayFile v.base (on_message_received n drops_at local_addr peer_addr bytes v tasks).1.base
unfolding on_message_received relay_datagram
on_message_received-MayFile n drops_at local_addr peer_addr bytes v tasks =
    let key = udp_key peer_addr local_addr in
    let ready = ensure_proxy n drops_at key v tasks in
    let h = ensure_proxy-MayFile n drops_at key v tasks in
    elim (Result-cases ready.0) [
      | inl (t, e) ↦
          rw (e, relay_datagram) (rw (send_datagram-base key peer_addr bytes ready.1 ready.2) h)
      | inr (inl (x, e)) ↦ rw (e, relay_datagram) h
      | inr (inr e) ↦ rw (e, relay_datagram) h
    ]
