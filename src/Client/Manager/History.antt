-- ===== src/Client/Manager/History.antt =====
-- What the client's service manager can be after any history of its services, and what the history is
-- to someone who only looks up proxy keys.
use trust.Prelude.{
  ℕ, ◌≡◌, ◌⊎◌, inl, inr, refl, Option, none, some, Text, List, text_beq, text_eq, nat_eq, arith,
  if◌then◌else◌,
}
use trust.HashMap.{get}
use trust.HashMap.Laws.{get-insert}
use trust.AppError.{AppError}
use trust.Channel.{Channel}
use trust.Model.{Service}
use trust.Proxy.Event.{ProxyEvent, closed, message}
use trust.Proxy.Executor.{ProxyExecutorEvent}
use trust.Gateway.Visitor.Accept.{TcpStream}
use trust.Net.TlsClient.{TlsNetwork}
use trust.Client.Visitor.{TcpClientProxyServerVisitor, on_conn_accepted, file_proxy, prepare_proxy}
use trust.Client.Visitor.Udp.{UdpClientProxyServerVisitor, on_message_received}
use trust.Client.Visitor.Filing.{MayFile, open_proxy-MayFile, on_message_received-MayFile}
use trust.Client.Manager.{
  ClientServiceMgr, ClientServiceProxyVisitor, ProxyAddrs, tcp_visitor, udp_visitor, base, lend,
  take_back, new, process_next_proxy_event, startup, shutdown,
}
use trust.Client.Manager.Coherent.{IsCoherent, Visits, take_back-IsCoherent}
use trust.Client.Manager.Closed.{on_closed-forgets, file_proxy-Visits, Visits-refl}
use trust.Client.Manager.Startup.{startup-IsCoherent, new-IsCoherent, startup-same_keys}
use trust.Client.Manager.Shutdown.{shutdown-IsCoherent, shutdown-forgets_all, with_tasks-IsCoherent}

-- The manager after its TCP visitor of a service took a connection.
abbrev pub after_connection :
    TlsNetwork
    → (TcpStream → Text)
    → TcpStream
    → ℕ
    → TcpClientProxyServerVisitor
    → ClientServiceMgr
    → ClientServiceMgr
after_connection n debug_stream tcp_stream service_id v m =
    let done =
      on_conn_accepted n debug_stream tcp_stream (lend m (tcp_visitor v)) m.proxy_tasks_sender in
    take_back service_id (tcp_visitor done.1) (record m { proxy_tasks_sender = done.2 })

abbrev pub lend_udp : ClientServiceMgr → UdpClientProxyServerVisitor → UdpClientProxyServerVisitor
lend_udp m v = record v { base = lend m (udp_visitor v) }

-- The manager after its UDP visitor of a service took a datagram.
abbrev pub after_datagram :
    TlsNetwork
    → Option ℕ
    → Text
    → Text
    → List ℕ
    → ℕ
    → UdpClientProxyServerVisitor
    → ClientServiceMgr
    → ClientServiceMgr
after_datagram n drops_at local_addr peer_addr bytes service_id v m =
    let done =
      on_message_received n drops_at local_addr peer_addr bytes (lend_udp m v)
        m.proxy_tasks_sender in
    take_back service_id (udp_visitor done.1) (record m { proxy_tasks_sender = done.2 })

-- What can happen to the manager: a call of one of its methods, or of a method of one of its
-- visitors.
pub data Step (m : ClientServiceMgr) : ClientServiceMgr → Type 1 where
  starts : (s : Service) (addrs : ProxyAddrs) → Step m (startup s addrs m).1
  hears : (event : Option ProxyEvent) → Step m (process_next_proxy_event event m).1
  connects :
      (n : TlsNetwork) (debug_stream : TcpStream → Text) (tcp_stream : TcpStream) (service_id : ℕ)
      (v : TcpClientProxyServerVisitor)
      → get service_id m.service_proxy_visitors ≡ some (tcp_visitor v)
      → Step m (after_connection n debug_stream tcp_stream service_id v m)
  receives :
      (n : TlsNetwork) (drops_at : Option ℕ) (local_addr peer_addr : Text) (bytes : List ℕ)
      (service_id : ℕ) (v : UdpClientProxyServerVisitor)
      → get service_id m.service_proxy_visitors ≡ some (udp_visitor v)
      → Step m (after_datagram n drops_at local_addr peer_addr bytes service_id v m)
  shuts_down : (debug : AppError → Text) → Step m (shutdown debug m).1

pub data Reach (m : ClientServiceMgr) : ClientServiceMgr → Type 1 where
  here : Reach m m
  next : {n p : ClientServiceMgr} → Reach m n → Step n p → Reach m p

-- The client as a directory of proxy keys, and what can be done to it: at most one key is filed under
-- a service, one key is forgotten, or all are.
abbrev pub Directory : Type 0
Directory = Text → Option ℕ

pub data Action : Type 0 where
  rests forgets_all : Action
  forgets : Text → Action
  admits : ℕ → Action

abbrev pub Performs : Action → Directory → Directory → Type 0
Performs rests a b = (k : Text) → b k ≡ a k
Performs forgets_all a b = (k : Text) → b k ≡ none
Performs (forgets key) a b = (k : Text) → b k ≡ (if text_beq key k then none else a k)
Performs (admits service_id) a b =
    ((k : Text) → b k ≡ a k)
    ⊎ ((key : Text) × ((k : Text) → b k ≡ (if text_beq key k then some service_id else a k)))

-- What a step means to the directory: a closed proxy is forgotten, a connection or a datagram of a
-- service may file a key under it, and a shutdown forgets all keys.
abbrev pub action : {m n : ClientServiceMgr} → Step m n → Action
action (starts s addrs) = rests
action (hears none) = rests
action (hears (some (closed key))) = forgets key
action (hears (some (message key addr bytes))) = rests
action (connects n debug_stream tcp_stream service_id v h) = admits service_id
action (receives n drops_at local_addr peer_addr bytes service_id v h) = admits service_id
action (shuts_down debug) = forgets_all

abbrev pub directory : ClientServiceMgr → Directory
directory m k = get k m.services_by_proxy_key

-- What a visitor's call that may have filed a proxy means to the manager.
module _ (m : ClientServiceMgr) (tasks : Channel ProxyExecutorEvent) (service_id : ℕ)
    (v w : ClientServiceProxyVisitor) (may_file : MayFile (lend m v) (base w)) where
  MayFile-Visits : Visits (lend m v) (base w)
  MayFile-Visits = elim may_file [
    | inl e ↦ rw e (Visits-refl (lend m v))
    | inr (key, e) ↦ rw e (file_proxy-Visits key (lend m v))
  ]

  MayFile-IsCoherent :
      IsCoherent m
      → get service_id m.service_proxy_visitors ≡ some v
      → IsCoherent (take_back service_id w (record m { proxy_tasks_sender = tasks }))
  MayFile-IsCoherent inv h =
      take_back-IsCoherent (record m { proxy_tasks_sender = tasks }) service_id v w
        (with_tasks-IsCoherent m tasks inv) h MayFile-Visits

  MayFile-Performs :
      IsCoherent m
      → get service_id m.service_proxy_visitors ≡ some v
      → Performs
          (admits service_id)
          (directory m)
          (directory (take_back service_id w (record m { proxy_tasks_sender = tasks })))
  unfolding file_proxy
  MayFile-Performs inv h = elim may_file [
    | inl e ↦ inl λ k. rw e refl
    | inr (key, e) ↦ inr (
      key,
      λ k. rw e (
          ground (
            arith,
            get-insert key k (base v).service.service_id m.services_by_proxy_key,
            inv.services service_id v h,
          )),
    )
  ]

Step-IsCoherent : {m n : ClientServiceMgr} → Step m n → IsCoherent m → IsCoherent n
unfolding process_next_proxy_event on_conn_accepted
Step-IsCoherent {m} (starts s addrs) inv = startup-IsCoherent s addrs m inv
Step-IsCoherent {m} (hears none) inv = inv
Step-IsCoherent {m} (hears (some (closed key))) inv = (on_closed-forgets key m inv).0
Step-IsCoherent {m} (hears (some (message key addr bytes))) inv = inv
Step-IsCoherent {m} (connects n debug_stream tcp_stream service_id v h) inv =
    MayFile-IsCoherent m _ service_id (tcp_visitor v) _
      (open_proxy-MayFile (prepare_proxy n debug_stream tcp_stream (lend m (tcp_visitor v)))
        (lend m (tcp_visitor v)) m.proxy_tasks_sender)
      inv h
Step-IsCoherent {m} (receives n drops_at local_addr peer_addr bytes service_id v h) inv =
    MayFile-IsCoherent m _ service_id (udp_visitor v) _
      (on_message_received-MayFile n drops_at local_addr peer_addr bytes (lend_udp m v)
        m.proxy_tasks_sender)
      inv h
Step-IsCoherent {m} (shuts_down debug) inv = shutdown-IsCoherent debug m inv

Reach-IsCoherent_from : {m n : ClientServiceMgr} → Reach m n → IsCoherent m → IsCoherent n
Reach-IsCoherent_from here inv = inv
Reach-IsCoherent_from (next r s) inv = Step-IsCoherent s (Reach-IsCoherent_from r inv)

Step-Performs :
    {m n : ClientServiceMgr} (s : Step m n)
    → IsCoherent m
    → Performs (action s) (directory m) (directory n)
unfolding process_next_proxy_event on_conn_accepted
Step-Performs {m} (starts s addrs) inv = (startup-same_keys s addrs m)
Step-Performs {m} (hears none) inv = λ k. refl
Step-Performs {m} (hears (some (closed key))) inv = (on_closed-forgets key m inv).1
Step-Performs {m} (hears (some (message key addr bytes))) inv = λ k. refl
Step-Performs {m} (connects n debug_stream tcp_stream service_id v h) inv =
    MayFile-Performs m
      (on_conn_accepted n debug_stream tcp_stream (lend m (tcp_visitor v)) m.proxy_tasks_sender).2
      service_id (tcp_visitor v)
      (tcp_visitor
        (on_conn_accepted n debug_stream tcp_stream (lend m (tcp_visitor v))
          m.proxy_tasks_sender).1)
      (open_proxy-MayFile (prepare_proxy n debug_stream tcp_stream (lend m (tcp_visitor v)))
        (lend m (tcp_visitor v)) m.proxy_tasks_sender)
      inv h
Step-Performs {m} (receives n drops_at local_addr peer_addr bytes service_id v h) inv =
    MayFile-Performs m
      (on_message_received n drops_at local_addr peer_addr bytes (lend_udp m v)
        m.proxy_tasks_sender).2
      service_id (udp_visitor v)
      (udp_visitor
        (on_message_received n drops_at local_addr peer_addr bytes (lend_udp m v)
          m.proxy_tasks_sender).1)
      (on_message_received-MayFile n drops_at local_addr peer_addr bytes (lend_udp m v)
        m.proxy_tasks_sender)
      inv h
Step-Performs {m} (shuts_down debug) inv = λ k. shutdown-forgets_all debug m k inv

-- After any history of a new client service manager, in which services are started, connections and
-- datagrams taken, proxy events heard and the services shut down, each key that the manager knows is
-- among the keys of its service's visitor, and each visitor has the addresses that its service is
-- known under.
pub Reach-IsCoherent_client :
    (tasks : Channel ProxyExecutorEvent) {m : ClientServiceMgr} → Reach (new tasks) m → IsCoherent m
Reach-IsCoherent_client tasks r = Reach-IsCoherent_from r (new-IsCoherent tasks)

-- To someone who looks up proxy keys, each step after such a history does what it means to a
-- directory: the report that a proxy is closed forgets its key and no other, a connection or a
-- datagram of a service files at most one key, under that service, a shutdown forgets all keys, and
-- all else leaves the keys as they are.
pub Reach-refines_directory :
    (tasks : Channel ProxyExecutorEvent) {m n : ClientServiceMgr}
    → Reach (new tasks) m
    → (s : Step m n) → Performs (action s) (directory m) (directory n)
Reach-refines_directory tasks r s = Step-Performs s (Reach-IsCoherent_client tasks r)
