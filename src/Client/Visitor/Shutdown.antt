-- ===== src/Client/Visitor/Shutdown.antt =====
-- What `shutdown_connections` and `remove_proxy_for_key` leave of a client's visitor.
use trust.Prelude.{
  ◌≡◌, ◌∙◌, inl, inr, refl, Bool, false, none, List, [], ◌∷◌, ◌++◌, ◌⊎◌, ◌&&◌, List-cases, Text,
  text_beq, same, text_eq, arith, append_assoc, append-nil, if◌then◌else◌, Bool-cases, ℕ,
}
use trust.HashMap.{get, contains_key, keys}
use trust.HashMap.Laws.{get-remove, contains_key-remove}
use trust.Channel.{Channel, IsOpen, send-IsOpen}
use trust.Result.{ok}
use trust.Proxy.Executor.{ProxyExecutorEvent, close}
use trust.Gateway.Visitor.Shutdown.{contains, closes}
use trust.Client.Visitor.{
  TcpClientProxyServerVisitor, Draining, drain_key, drain_keys, shutdown_connections,
  remove_proxy_for_key, HashSet,
}

-- Whatever the executor does, the drained keys lead nowhere, and the others to their services.
drain_keys-get :
    (transport : Text) (rest : List Text) (d : Draining) (k : Text)
    → get k (drain_keys transport rest d).services
      ≡ (if contains k rest then none else get k d.services)
unfolding drain_keys drain_key
drain_keys-get transport [] d k = refl
drain_keys-get transport (key ∷ rest) d k =
    drain_keys-get transport rest (drain_key transport key d) k
    ∙ ground (arith, get-remove key k d.services)

drain_keys-sends :
    (transport : Text) (rest : List Text) (d : Draining)
    → IsOpen d.tasks
    → ((drain_keys transport rest d).errors ≡ d.errors)
      × ((drain_keys transport rest d).tasks.sent ≡ d.tasks.sent ++ closes rest)
      × IsOpen (drain_keys transport rest d).tasks
unfolding drain_keys drain_key
drain_keys-sends transport [] d listening = (refl, rw append-nil refl, listening)
drain_keys-sends transport (key ∷ rest) d listening =
    let e = send-IsOpen (close key) d.tasks listening in
    let (p, q, o) = drain_keys-sends transport rest (drain_key transport key d) (rw e listening) in
    (p ∙ rw e refl, q ∙ rw e (append_assoc d.tasks.sent (close key ∷ []) (closes rest)), o)

pub contains-keys : (k : Text) (s : HashSet Text) → contains k (keys s) ≡ contains_key k s
unfolding contains_key get
contains-keys k [] = refl
contains-keys k ((j, u) ∷ s) = ground (arith, contains-keys k s)

-- Where a visitor listens, and the gateway that it connects to.
abbrev pub places : TcpClientProxyServerVisitor → ℕ × Text × ℕ
places v = (v.client_proxy_port, v.gateway_proxy_host, v.gateway_proxy_port)

-- What a shutdown leaves of a visitor: its keys lead nowhere, and it has all of them or none.
pub record Drained (v w : TcpClientProxyServerVisitor) : Type 0 where
  pub services :
      (k : Text)
      → get k w.services_by_proxy_key
        ≡ (if contains_key k v.proxy_keys then none else get k v.services_by_proxy_key)
  pub keys_left : (w.proxy_keys ≡ []) ⊎ (w.proxy_keys ≡ v.proxy_keys)
  pub same_service : w.service ≡ v.service
  pub same_places : places w ≡ places v

drained_services :
    (transport : Text) (v : TcpClientProxyServerVisitor) (d : Draining) (k : Text)
    → d.services ≡ v.services_by_proxy_key
    → get k (drain_keys transport (keys v.proxy_keys) d).services
      ≡ (if contains_key k v.proxy_keys then none else get k v.services_by_proxy_key)
drained_services transport v d k e =
    drain_keys-get transport (keys v.proxy_keys) d k ∙ ground (arith, contains-keys k v.proxy_keys)

pub shutdown_connections-Drained :
    (transport : Text) (v : TcpClientProxyServerVisitor) (tasks : Channel ProxyExecutorEvent)
    → Drained v (shutdown_connections transport v tasks).1
unfolding shutdown_connections
shutdown_connections-Drained transport v tasks =
    let d : Draining = record { services = v.services_by_proxy_key; tasks = tasks; errors = [] } in
    elim (List-cases (drain_keys transport (keys v.proxy_keys) d).errors) [
      | inl e ↦
          rw (e, shutdown_connections)
            (record {
              services = λ k. drained_services transport v d k refl;
              keys_left = inl refl;
              same_service = refl;
              same_places = refl;
            })
      | inr (x, xs, e) ↦
          rw (e, shutdown_connections)
            (record {
              services = λ k. drained_services transport v d k refl;
              keys_left = inr refl;
              same_service = refl;
              same_places = refl;
            })
    ]

-- While the proxy executor listens, a shutdown succeeds: the executor is asked to close just the
-- visitor's keys, in their order, and the visitor has no key left. It still listens.
pub shutdown_connections-succeeds :
    (transport : Text) (v : TcpClientProxyServerVisitor) (tasks : Channel ProxyExecutorEvent)
    → IsOpen tasks
    → let done = shutdown_connections transport v tasks in
      (done.0 ≡ ok tt)
      × (done.1.proxy_keys ≡ [])
      × (done.2.sent ≡ tasks.sent ++ closes (keys v.proxy_keys))
      × IsOpen done.2
unfolding shutdown_connections
shutdown_connections-succeeds transport v tasks listening =
    let d : Draining = record { services = v.services_by_proxy_key; tasks = tasks; errors = [] } in
    let (p, q, o) = drain_keys-sends transport (keys v.proxy_keys) d listening in
    rw (p, shutdown_connections) (refl, refl, q, o)

-- A removed key leaves the set and the shared map; the others stay.
pub record Removed (v : TcpClientProxyServerVisitor) (key : Text)
    (r : Bool × TcpClientProxyServerVisitor) : Type 0 where
  pub found : r.0 ≡ contains_key key v.proxy_keys
  pub services :
      (k : Text)
      → get k r.1.services_by_proxy_key ≡ (
          if text_beq key k && contains_key key v.proxy_keys
          then none
          else get k v.services_by_proxy_key)
  pub keys_left :
      (k : Text)
      → contains_key k r.1.proxy_keys
        ≡ (if text_beq key k then false else contains_key k v.proxy_keys)
  pub same_service : r.1.service ≡ v.service
  pub same_places : places r.1 ≡ places v

pub remove_proxy_for_key-Removed :
    (key : Text) (v : TcpClientProxyServerVisitor) → Removed v key (remove_proxy_for_key key v)
unfolding remove_proxy_for_key
remove_proxy_for_key-Removed key v = elim (Bool-cases (contains_key key v.proxy_keys)) [
  | inl e ↦
      rw (e, remove_proxy_for_key)
        (record {
          found = ground arith;
          services = λ k. ground (arith, get-remove key k v.services_by_proxy_key);
          keys_left = λ k. contains_key-remove key k v.proxy_keys;
          same_service = refl;
          same_places = refl;
        })
  | inr e ↦
      rw (e, remove_proxy_for_key)
        (record {
          found = ground arith;
          services = λ k. ground arith;
          keys_left = λ k. ground (arith, same key k);
          same_service = refl;
          same_places = refl;
        })
]
