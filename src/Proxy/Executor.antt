-- ===== src/Proxy/Executor.antt =====
-- crates/common/src/proxy/executor.rs: the proxies that are open, and the tasks on them. What a proxy is
-- (`P`) is a parameter. A task comes with what creating and connecting its proxy gives, which depends
-- on the streams of the task. Tasks are listed in the order in which they arrive.
pub mod Tasks
use trust.Prelude.{
  ◌≡◌, Bool, Option, none, some, List, [], ◌∷◌, ◌++◌, Text, codes, text_eq, if◌then◌else◌,
}
use trust.HashMap.{HashMap, get, insert}
use trust.AppError.{AppError, ForeignError, gen_with_msg_and_err}
use trust.Channel.{Channel, send}
use trust.Result.{Result, err}
use trust.Proxy.Event.{ProxyType, channel_and_tcp, tcp_and_tcp, tcp_and_udp, ProxyEvent, closed}

-- The streams and senders of a message are part of what opening the proxy gives.
pub data ProxyExecutorEvent : Type 0 where
  open_channel_and_tcp_proxy open_tcp_and_tcp_proxy open_tcp_and_udp_proxy :
      Text → ProxyExecutorEvent
  close : Text → ProxyExecutorEvent

-- The proxy is created and connected, or one of the two fails.
pub data Opened (P : Type 0) : Type 0 where
  connected : P → Opened P
  not_created not_connected : Opened P

-- The proxies; the channel of the proxies' events; and the proxies that a thread was started for to
-- disconnect them.
pub record ProxyExecutor (P : Type 0) : Type 0 where
  pub proxy_streams : HashMap Text P
  pub proxy_events : Channel ProxyEvent
  pub disconnecting : List P

-- `RecvError`, as it is printed: no sender is left.
abbrev pub recv_error : ForeignError
recv_error = record { display = codes "receiving on a closed channel"; debug = codes "RecvError" }

module _ {P : Type 0} where
  -- `ProxyExecutor::new`.
  abbrev pub new : Channel ProxyEvent → ProxyExecutor P
  new proxy_events = record { proxy_streams = []; proxy_events = proxy_events; disconnecting = [] }

  -- A proxy that cannot be created is reported as closed; one that cannot be connected is not.
  unfoldable pub keep_proxy : Opened P → Text → ProxyExecutor P → ProxyExecutor P
  keep_proxy (connected proxy_stream) proxy_key x = record x {
    proxy_streams = insert proxy_key proxy_stream x.proxy_streams;
  }
  keep_proxy not_connected proxy_key x = x
  keep_proxy not_created proxy_key x = record x {
    proxy_events = (send (closed proxy_key) x.proxy_events).1;
  }

  unfoldable pub disconnect : Text → ProxyExecutor P → ProxyExecutor P
  disconnect proxy_key x = elim (get proxy_key x.proxy_streams) [
    | none ↦ x
    | some proxy_stream ↦ record x { disconnecting = x.disconnecting ++ proxy_stream ∷ [] }
  ]

  -- The three types of proxies are opened alike. To close one, `opened` is not used.
  unfoldable pub process_task : ProxyExecutorEvent → Opened P → ProxyExecutor P → ProxyExecutor P
  unfolding keep_proxy disconnect
  process_task (open_channel_and_tcp_proxy proxy_key) opened x = keep_proxy opened proxy_key x
  process_task (open_tcp_and_tcp_proxy proxy_key) opened x = keep_proxy opened proxy_key x
  process_task (open_tcp_and_udp_proxy proxy_key) opened x = keep_proxy opened proxy_key x
  process_task (close proxy_key) opened x = disconnect proxy_key x

  unfoldable pub process_tasks :
      List (ProxyExecutorEvent × Opened P) → ProxyExecutor P → ProxyExecutor P
  unfolding process_task
  process_tasks [] x = x
  process_tasks ((task, opened) ∷ tasks) x = process_tasks tasks (process_task task opened x)

  -- `poll_new_tasks`: the loop ends when all senders are gone.
  unfoldable pub poll_new_tasks :
      List (ProxyExecutorEvent × Opened P) → ProxyExecutor P → Result (Unit {0}) × ProxyExecutor P
  unfolding process_tasks
  poll_new_tasks tasks x = (
    err (gen_with_msg_and_err (codes "Error receiving new event task") recv_error),
    process_tasks tasks x,
  )
