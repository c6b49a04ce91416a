-- ===== src/Proxy/Executor/Tasks.antt =====
-- What the executor has and has reported after a series of tasks.
use trust.Prelude.{
  ◌≡◌, ◌∙◌, sym, ap, inl, inr, refl, Option, none, some, List, [], ◌∷◌, ◌++◌, Text, text_beq,
  text_eq, arith, append_assoc, append-nil, if◌then◌else◌, Option-cases,
}
use trust.HashMap.{get}
use trust.HashMap.Laws.{get-insert}
use trust.Channel.{IsOpen, send-IsOpen}
use trust.Proxy.Event.{ProxyEvent, closed}
use trust.Proxy.Executor.{
  ProxyExecutorEvent, open_channel_and_tcp_proxy, open_tcp_and_tcp_proxy, open_tcp_and_udp_proxy,
  close, Opened, connected, not_created, not_connected, ProxyExecutor, keep_proxy, disconnect,
  process_task, process_tasks, poll_new_tasks,
}

-- The key of the proxy that a task opens.
abbrev pub opens : ProxyExecutorEvent → Option Text
opens (open_channel_and_tcp_proxy key) = some key
opens (open_tcp_and_tcp_proxy key) = some key
opens (open_tcp_and_udp_proxy key) = some key
opens (close key) = none

module _ {P : Type 0} where
  abbrev pub now : Opened P → Option P → Option P
  now (connected proxy) old = some proxy
  now not_created old = old
  now not_connected old = old

  -- The proxy of a key after a task: the one that the task opens under it, else the one before.
  abbrev pub after : Text → Option Text → Opened P → Option P → Option P
  after k none opened old = old
  after k (some key) opened old = if text_beq key k then now opened old else old

  abbrev pub after_all : Text → List (ProxyExecutorEvent × Opened P) → Option P → Option P
  after_all k [] old = old
  after_all k ((task, opened) ∷ tasks) old = after_all k tasks (after k (opens task) opened old)

  abbrev pub report : Opened P → Text → List ProxyEvent
  report (connected proxy) key = []
  report not_connected key = []
  report not_created key = closed key ∷ []

  abbrev pub reports_of : Option Text → Opened P → List ProxyEvent
  reports_of none opened = []
  reports_of (some key) opened = report opened key

  -- The reports of the proxies that could not be created, in the tasks' order.
  abbrev pub reports : List (ProxyExecutorEvent × Opened P) → List ProxyEvent
  reports [] = []
  reports ((task, opened) ∷ tasks) = reports_of (opens task) opened ++ reports tasks

  record HasDone (k : Text) (opened : Option P) (events : List ProxyEvent) (x y : ProxyExecutor P)
      : Type 0 where
    pub streams : get k y.proxy_streams ≡ opened
    pub sent : y.proxy_events.sent ≡ x.proxy_events.sent ++ events
    pub listening : IsOpen y.proxy_events

  keep_proxy-HasDone :
      (k key : Text) (o : Opened P) (x : ProxyExecutor P)
      → IsOpen x.proxy_events
      → HasDone k
          (if text_beq key k then now o (get k x.proxy_streams) else get k x.proxy_streams)
          (report o key)
          x
          (keep_proxy o key x)
  unfolding keep_proxy
  keep_proxy-HasDone k key (connected t) x alive = record {
    streams = ground (arith, get-insert key k t x.proxy_streams);
    sent = ground (arith, append-nil x.proxy_events.sent);
    listening = alive;
  }
  keep_proxy-HasDone k key not_connected x alive = record {
    streams = ground arith;
    sent = ground (arith, append-nil x.proxy_events.sent);
    listening = alive;
  }
  keep_proxy-HasDone k key not_created x alive = record {
    streams = ground arith;
    sent = ground (arith, send-IsOpen (closed key) x.proxy_events alive);
    listening = ground (arith, send-IsOpen (closed key) x.proxy_events alive);
  }

  disconnect-HasDone :
      (k key : Text) (x : ProxyExecutor P)
      → IsOpen x.proxy_events
      → HasDone k (get k x.proxy_streams) [] x (disconnect key x)
  unfolding disconnect
  disconnect-HasDone k key x alive =
      let same_state = append-nil x.proxy_events.sent in
      elim (Option-cases (get key x.proxy_streams)) [
        | inl e ↦
            rw (e, disconnect) (record { streams = refl; sent = sym same_state; listening = alive })
        | inr (t, e) ↦
            rw (e, disconnect) (record { streams = refl; sent = sym same_state; listening = alive })
      ]

  process_task-HasDone :
      (k : Text) (task : ProxyExecutorEvent) (o : Opened P) (x : ProxyExecutor P)
      → IsOpen x.proxy_events
      → HasDone k
          (after k (opens task) o (get k x.proxy_streams))
          (reports_of (opens task) o)
          x
          (process_task task o x)
  unfolding process_task
  process_task-HasDone k (open_channel_and_tcp_proxy key) o x alive =
      keep_proxy-HasDone k key o x alive
  process_task-HasDone k (open_tcp_and_tcp_proxy key) o x alive = keep_proxy-HasDone k key o x alive
  process_task-HasDone k (open_tcp_and_udp_proxy key) o x alive = keep_proxy-HasDone k key o x alive
  process_task-HasDone k (close key) o x alive = disconnect-HasDone k key x alive

  process_tasks-HasDone :
      (k : Text) (tasks : List (ProxyExecutorEvent × Opened P)) (x : ProxyExecutor P)
      → IsOpen x.proxy_events
      → HasDone k
          (after_all k tasks (get k x.proxy_streams))
          (reports tasks)
          x
          (process_tasks tasks x)
  unfolding process_tasks
  process_tasks-HasDone k [] x alive = record {
    streams = refl;
    sent = sym (append-nil x.proxy_events.sent);
    listening = alive;
  }
  process_tasks-HasDone k ((task, o) ∷ tasks) x alive =
      let h = process_task-HasDone k task o x alive in
      let r = process_tasks-HasDone k tasks (process_task task o x) h.listening in
      record {
        streams = r.streams ∙ ap (after_all k tasks) h.streams;
        sent =
            r.sent
            ∙ ap (λ l. l ++ reports tasks) h.sent
            ∙ append_assoc x.proxy_events.sent (reports_of (opens task) o) (reports tasks);
        listening = r.listening;
      }

  -- While the receiver of events stays: once the executor has done its tasks, it has under each key
  -- the last proxy that a task opened there with success, else the one that it had; and it has
  -- reported as closed just those proxies that could not be created, in the tasks' order.
  pub poll_new_tasks_lem :
      (k : Text) (tasks : List (ProxyExecutorEvent × Opened P)) (x : ProxyExecutor P)
      → IsOpen x.proxy_events
      → let done = (poll_new_tasks tasks x).1 in
        (get k done.proxy_streams ≡ after_all k tasks (get k x.proxy_streams))
        × (done.proxy_events.sent ≡ x.proxy_events.sent ++ reports tasks)
  unfolding poll_new_tasks
  poll_new_tasks_lem k tasks x alive =
      let h = process_tasks-HasDone k tasks x alive in (h.streams, h.sent)
