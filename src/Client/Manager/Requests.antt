-- ===== src/Client/Manager/Requests.antt =====
-- What `shutdown` of the client's service manager asks of the proxy executor.
use trust.Prelude.{
  ℕ, Text, ◌≡◌, ◌∙◌, refl, arith, List, [], ◌∷◌, ◌++◌, append_assoc, append-nil, text_eq,
}
use trust.HashMap.{keys}
use trust.AppError.{AppError}
use trust.Channel.{IsOpen}
use trust.Result.{ok}
use trust.Proxy.Executor.{ProxyExecutorEvent}
use trust.Gateway.Visitor.Shutdown.{closes}
use trust.Client.Visitor
use trust.Client.Visitor.Shutdown.{shutdown_connections-succeeds}
use trust.Client.Manager.{
  ClientServiceMgr, ClientServiceProxyVisitor, base, transport_name, lend, Sweep, shutdown_service,
  sweep, shutdown,
}

-- The requests to close the keys of some visitors.
abbrev pub closes_of : List (ℕ × ClientServiceProxyVisitor) → List ProxyExecutorEvent
closes_of [] = []
closes_of ((service_id, v) ∷ rest) = closes (keys (base v).proxy_keys) ++ closes_of rest

module _ (debug : AppError → Text) where
  shutdown_service-sends :
      (service_id : ℕ) (v : ClientServiceProxyVisitor) (s : Sweep)
      → IsOpen s.mgr.proxy_tasks_sender
      → let next = shutdown_service debug service_id v s in
        (next.errors ≡ s.errors)
        × (next.mgr.proxy_tasks_sender.sent
            ≡ s.mgr.proxy_tasks_sender.sent ++ closes (keys (base v).proxy_keys))
        × IsOpen next.mgr.proxy_tasks_sender
  unfolding shutdown_service Visitor.set_shutdown_requested
  shutdown_service-sends service_id v s listening =
      let (e, n, f, o) =
        shutdown_connections-succeeds (transport_name v)
          (Visitor.set_shutdown_requested (lend s.mgr v)) s.mgr.proxy_tasks_sender listening in
      (ground (arith, e), f, o)

  sweep_open :
      (rest : List (ℕ × ClientServiceProxyVisitor)) (s : Sweep)
      → IsOpen s.mgr.proxy_tasks_sender
      → ((sweep debug rest s).errors ≡ s.errors)
        × ((sweep debug rest s).mgr.proxy_tasks_sender.sent
            ≡ s.mgr.proxy_tasks_sender.sent ++ closes_of rest)
  unfolding sweep
  sweep_open [] s listening = (refl, rw append-nil refl)
  sweep_open ((service_id, v) ∷ rest) s listening =
      let (e, f, o) = shutdown_service-sends service_id v s listening in
      let (p, q) = sweep_open rest (shutdown_service debug service_id v s) o in
      (
        p ∙ e,
        q
            ∙ rw f (
                append_assoc s.mgr.proxy_tasks_sender.sent (closes (keys (base v).proxy_keys))
                  (closes_of rest)),
      )

  -- While the proxy executor listens, `shutdown` succeeds, and asks the executor to close just the
  -- keys of the visitors, service by service.
  pub shutdown_open :
      (m : ClientServiceMgr)
      → IsOpen m.proxy_tasks_sender
      → ((shutdown debug m).0 ≡ ok tt)
        × ((shutdown debug m).1.proxy_tasks_sender.sent
            ≡ m.proxy_tasks_sender.sent ++ closes_of m.service_proxy_visitors)
  unfolding shutdown
  shutdown_open m listening =
      let (e, f) =
        sweep_open m.service_proxy_visitors (record { mgr = m; errors = [] }) listening in
      rw (e, shutdown) (refl, f)
