-- ===== src/Client/Visitor/Datagram.antt =====
-- Where the datagrams of a client's UDP visitor go.
use trust.Prelude.{
  ℕ, ◌≡◌, ◌≢◌, ◌⊎◌, ap, ◌∙◌, inl, inr, refl, true, false, Option, none, some, Text, List, [], ◌∷◌,
  ◌++◌, arith, Bool-cases, Option-cases, text_eq, text_beq, same,
}
use trust.HashMap.{get, insert, contains_key}
use trust.HashMap.Laws.{get-insert, get-insert_self, contains_key-insert}
use trust.Channel.{Channel, send}
use trust.Result.{Result, ok, err, panic, Result-cases}
use trust.Proxy.Event.{ProxyEvent, message}
use trust.Proxy.Executor.{ProxyExecutorEvent, open_channel_and_tcp_proxy}
use trust.Net.TlsClient.{TlsNetwork}
use trust.Client.Visitor.{remove_proxy_for_key, connect_gateway}
use trust.Client.Visitor.Udp.{
  UdpClientProxyServerVisitor, open_udp_proxy, ensure_proxy, send_datagram, on_message_received,
  relay_datagram, udp_key,
}
use trust.Client.Visitor.Shutdown.{remove_proxy_for_key-Removed}
use trust.Client.Visitor.Filing.{send_datagram-base}

-- The datagrams put into the channel of a key.
abbrev pub sent_to : Text → UdpClientProxyServerVisitor → List ProxyEvent
sent_to key v = elim (get key v.socket_channel_senders_by_proxy_key) [ none ↦ [] | some c ↦ c.sent ]

-- The datagram is the last one of its key, and the other keys have what they had.
pub record Delivers (v w : UdpClientProxyServerVisitor) (key : Text) (event : ProxyEvent)
    : Type 0 where
  pub arrives : sent_to key w ≡ sent_to key v ++ event ∷ []
  pub others : (k : Text) → text_beq key k ≡ false → sent_to k w ≡ sent_to k v

module _ (key peer_addr : Text) (bytes : List ℕ) (v : UdpClientProxyServerVisitor)
    (tasks : Channel ProxyExecutorEvent) where
  send_datagram-some :
      (ch : Channel ProxyEvent)
      → get key v.socket_channel_senders_by_proxy_key ≡ some ch
      → (send_datagram key peer_addr bytes v tasks).1 ≡ record v {
        socket_channel_senders_by_proxy_key =
            insert key
              (send (message key peer_addr bytes) ch).1
              v.socket_channel_senders_by_proxy_key;
      }
  unfolding send_datagram
  send_datagram-some ch e = rw (e, send_datagram) refl

  send_datagram-sent :
      (ch : Channel ProxyEvent)
      → get key v.socket_channel_senders_by_proxy_key ≡ some ch
      → (send_datagram key peer_addr bytes v tasks).0 ≡ ok tt
      → (send (message key peer_addr bytes) ch).1.sent ≡ ch.sent ++ message key peer_addr bytes ∷ []
  unfolding send_datagram send
  send_datagram-sent ch e h = ground (arith, e)

  send_datagram-Delivers :
      contains_key key v.socket_channel_senders_by_proxy_key ≡ true
      → (send_datagram key peer_addr bytes v tasks).0 ≡ ok tt
      → Delivers v (send_datagram key peer_addr bytes v tasks).1 key (message key peer_addr bytes)
  unfolding contains_key
  send_datagram-Delivers c h = elim (Option-cases (get key v.socket_channel_senders_by_proxy_key)) [
    | inl e ↦ ground (arith, e)
    | inr (ch, e) ↦
        let sent = (send (message key peer_addr bytes) ch).1 in
        rw (send_datagram-some ch e) (record {
          arrives = ground (
            arith,
            e,
            send_datagram-sent ch e h,
            get-insert_self key sent v.socket_channel_senders_by_proxy_key,
          );
          others =
              λ k n. ground (arith, get-insert key k sent v.socket_channel_senders_by_proxy_key);
        })
  ]

  send_datagram-tasks : (send_datagram key peer_addr bytes v tasks).2 ≡ tasks
  unfolding send_datagram
  send_datagram-tasks = elim (Option-cases (get key v.socket_channel_senders_by_proxy_key)) [
    | inl e ↦ rw (e, send_datagram) refl
    | inr (ch, e) ↦ rw (e, send_datagram) refl
  ]

-- A proxy that is opened for a key has been sent nothing.
record Opens (v w : UdpClientProxyServerVisitor) (key : Text) : Type 0 where
  has_channel : contains_key key w.socket_channel_senders_by_proxy_key ≡ true
  keeps : (k : Text) → sent_to k w ≡ sent_to k v

module _ (n : TlsNetwork) (drops_at : Option ℕ) (key : Text) (v : UdpClientProxyServerVisitor)
    (tasks : Channel ProxyExecutorEvent) where
  no_channel :
      contains_key key v.socket_channel_senders_by_proxy_key ≡ false
      → get key v.socket_channel_senders_by_proxy_key ≡ none
  unfolding contains_key
  no_channel c = ground arith

  open_udp_proxy-Opens :
      (r : Result (Unit {0}))
      → contains_key key v.socket_channel_senders_by_proxy_key ≡ false
      → (open_udp_proxy r drops_at key v tasks).0 ≡ ok tt
      → Opens v (open_udp_proxy r drops_at key v tasks).1 key
  unfolding open_udp_proxy
  open_udp_proxy-Opens (err e) c h = cc
  open_udp_proxy-Opens panic c h = cc
  open_udp_proxy-Opens (ok t) c h =
      elim (Bool-cases (send (open_channel_and_tcp_proxy key) tasks).0) [
        | inr e ↦ ground (arith, e)
        | inl e ↦
            let fresh : Channel ProxyEvent = record { sent = []; drops_at = drops_at } in
            rw (e, open_udp_proxy)
              (record {
                has_channel = ground (
                  arith,
                  contains_key-insert key key fresh v.socket_channel_senders_by_proxy_key,
                  same key key,
                );
                keeps = λ k. ground (
                  arith,
                  get-insert key k fresh v.socket_channel_senders_by_proxy_key,
                  same key k,
                  no_channel c,
                );
              })
      ]

  ensure_proxy_known :
      contains_key key v.socket_channel_senders_by_proxy_key ≡ true
      → ensure_proxy n drops_at key v tasks ≡ (ok tt, v, tasks)
  unfolding ensure_proxy
  ensure_proxy_known c = rw (c, ensure_proxy) refl

  ensure_proxy-Opens :
      (ensure_proxy n drops_at key v tasks).0 ≡ ok tt
      → Opens v (ensure_proxy n drops_at key v tasks).1 key
  unfolding ensure_proxy
  ensure_proxy-Opens h =
      elim (Bool-cases (contains_key key v.socket_channel_senders_by_proxy_key)) [
        | inl e ↦ rw (e, ensure_proxy) (record { has_channel = e; keeps = λ k. refl })
        | inr e ↦
            rw (e, ensure_proxy)
              (open_udp_proxy-Opens (connect_gateway n v.base) e (ground (arith, e, h)))
      ]

-- A datagram that is taken without an error is put into the channel filed for its peer, a new one where
-- there was none, behind the datagrams put there before, whether or not a proxy still reads them; the
-- other channels get nothing.
pub on_message_received-Delivers :
    (n : TlsNetwork) (drops_at : Option ℕ) (local_addr peer_addr : Text) (bytes : List ℕ)
    (v : UdpClientProxyServerVisitor) (tasks : Channel ProxyExecutorEvent)
    → (on_message_received n drops_at local_addr peer_addr bytes v tasks).0 ≡ ok tt
    → let key = udp_key peer_addr local_addr in
      Delivers v
        (on_message_received n drops_at local_addr peer_addr bytes v tasks).1
        key
        (message key peer_addr bytes)
unfolding on_message_received relay_datagram
on_message_received-Delivers n drops_at local_addr peer_addr bytes v tasks h =
    let key = udp_key peer_addr local_addr in
    let ready = ensure_proxy n drops_at key v tasks in
    elim (Result-cases ready.0) [
      | inl (tt, e) ↦
          let o = ensure_proxy-Opens n drops_at key v tasks e in
          let d =
            send_datagram-Delivers key peer_addr bytes ready.1 ready.2 o.has_channel
              (ground (arith, e, h)) in
          rw (e, relay_datagram)
            (record {
              arrives = d.arrives ∙ ap (λ xs. xs ++ message key peer_addr bytes ∷ []) (o.keeps key);
              others = λ k q. d.others k q ∙ o.keeps k;
            })
      | inr (inl (x, e)) ↦ ground (arith, e, h)
      | inr (inr e) ↦ ground (arith, e, h)
    ]

on_message_received_known :
    (n : TlsNetwork) (drops_at : Option ℕ) (local_addr peer_addr : Text) (bytes : List ℕ)
    (v : UdpClientProxyServerVisitor) (tasks : Channel ProxyExecutorEvent)
    → contains_key (udp_key peer_addr local_addr) v.socket_channel_senders_by_proxy_key ≡ true
    → on_message_received n drops_at local_addr peer_addr bytes v tasks
      ≡ send_datagram (udp_key peer_addr local_addr) peer_addr bytes v tasks
unfolding on_message_received relay_datagram
on_message_received_known n drops_at local_addr peer_addr bytes v tasks c =
    ap (relay_datagram (udp_key peer_addr local_addr) peer_addr bytes)
      (ensure_proxy_known n drops_at (udp_key peer_addr local_addr) v tasks c)

snoc-nil : {A : Type 0} (xs : List A) (a : A) → xs ++ a ∷ [] ≢ []
snoc-nil [] a q = cc
snoc-nil (x ∷ xs) a q = cc

-- A key that has been sent something has a channel.
sent_to-contains_key :
    (key : Text) (xs : List ProxyEvent) (event : ProxyEvent) (v : UdpClientProxyServerVisitor)
    → sent_to key v ≡ xs ++ event ∷ []
    → contains_key key v.socket_channel_senders_by_proxy_key ≡ true
unfolding contains_key
sent_to-contains_key key xs event v h =
    elim (Option-cases (get key v.socket_channel_senders_by_proxy_key)) [
      | inl e ↦ absurd (snoc-nil xs event (ground (arith, e, h)))
      | inr (ch, e) ↦ ground (arith, e)
    ]

-- What a datagram of a peer comes to, where the visitor has the channel of a proxy that was removed: no
-- proxy is asked for and no key filed, and the datagram, if it is taken, is put behind those of the old
-- proxy.
pub record Strands (v w : UdpClientProxyServerVisitor) (r : Result (Unit {0}))
    (tasks sent : Channel ProxyExecutorEvent) (key : Text) (event : ProxyEvent) : Type 0 where
  pub asks_nothing : sent ≡ tasks
  pub files_nothing : contains_key key w.base.proxy_keys ≡ false
  pub put : r ≢ ok tt ⊎ (sent_to key w ≡ sent_to key v ++ event ∷ [])

-- After a datagram was taken without an error and its proxy was removed since, the next datagram of the
-- same peer opens no proxy: the executor is asked for nothing, no key is filed, and the datagram fails
-- or is put behind the earlier ones in the channel of the removed proxy.
pub on_message_received-removed :
    (n : TlsNetwork) (drops_at : Option ℕ) (local_addr peer_addr : Text) (bytes more : List ℕ)
    (v : UdpClientProxyServerVisitor) (tasks later : Channel ProxyExecutorEvent)
    → (on_message_received n drops_at local_addr peer_addr bytes v tasks).0 ≡ ok tt
    → let key = udp_key peer_addr local_addr in
      let taken = (on_message_received n drops_at local_addr peer_addr bytes v tasks).1 in
      let removed = record taken { base = (remove_proxy_for_key key taken.base).1 } in
      let done = on_message_received n drops_at local_addr peer_addr more removed later in
      Strands taken done.1 done.0 later done.2 key (message key peer_addr more)
on_message_received-removed n drops_at local_addr peer_addr bytes more v tasks later h =
    let key = udp_key peer_addr local_addr in
    let first = on_message_received n drops_at local_addr peer_addr bytes v tasks in
    let removed = record first.1 { base = (remove_proxy_for_key key first.1.base).1 } in
    let d = on_message_received-Delivers n drops_at local_addr peer_addr bytes v tasks h in
    let c =
      sent_to-contains_key key (sent_to key v) (message key peer_addr bytes) first.1 d.arrives in
    let r = remove_proxy_for_key-Removed key first.1.base in
    rw (on_message_received_known n drops_at local_addr peer_addr more removed later c) (record {
      asks_nothing = send_datagram-tasks key peer_addr more removed later;
      files_nothing =
          rw (send_datagram-base key peer_addr more removed later)
            (ground (arith, r.keys_left key, same key key));
      put = elim (Result-cases (send_datagram key peer_addr more removed later).0) [
        | inl (tt, e) ↦ inr (send_datagram-Delivers key peer_addr more removed later c e).arrives
        | inr (inl (x, e)) ↦ inl (λ q. cc)
        | inr (inr e) ↦ inl (λ q. cc)
      ];
    })
