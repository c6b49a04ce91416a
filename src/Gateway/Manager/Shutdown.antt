-- ===== src/Gateway/Manager/Shutdown.antt =====
-- crates/gateway/src/service/manager.rs: closing the connections of a user, of a service, or both.
use trust.Prelude.{ℕ, Option, none, some, List, [], ◌∷◌, ◌++◌, Text, codes, nat_eq, if◌then◌else◌}
use trust.Text.{show}
use trust.AppError.{AppError, general}
use trust.Result.{Result, ok, err, panic}
use trust.Gateway.Visitor
use trust.Gateway.Visitor.{TcpGatewayProxyServerVisitor, join, concerns}
use trust.Gateway.Manager.{GatewayServiceMgr, lend, take_back}

-- `{:?}` of an `Option<u64>`.
abbrev pub debug_option : Option ℕ → Text
debug_option none = codes "None"
debug_option (some n) = codes "Some(" ++ (show n ++ codes ")")

-- What the loop changes: the manager, and the error texts.
pub record Sweep : Type 0 where
  pub mgr : GatewayServiceMgr
  pub errors : List Text

-- `debug` is `{:?}` of an error.
module _ (debug : AppError → Text) (user_id : Option ℕ) where
  abbrev pub sweep_error : ℕ → AppError → Text
  sweep_error service_id e =
      codes "Failed shutting down service proxy connection: svc_id="
      ++ (show service_id
          ++ (codes ", user_id=" ++ (debug_option user_id ++ (codes ", err=" ++ debug e))))

  unfoldable pub shutdown_service :
      ℕ → TcpGatewayProxyServerVisitor → Sweep → Result (Unit {0}) × Sweep
  unfolding Visitor.shutdown_connections
  shutdown_service service_id v s =
      let closed = Visitor.shutdown_connections user_id (lend s.mgr v) s.mgr.proxy_tasks_sender in
      let mgr =
        take_back service_id closed.1.visitor
          (record (s.mgr) { proxy_tasks_sender = closed.1.tasks }) in
      elim closed.0 [
        | ok t ↦ (ok tt, record s { mgr = mgr })
        | err e ↦ (ok tt, record { mgr = mgr; errors = s.errors ++ sweep_error service_id e ∷ [] })
        | panic ↦ (panic, record s { mgr = mgr })
      ]

  unfoldable pub sweep :
      Option ℕ → List (ℕ × TcpGatewayProxyServerVisitor) → Sweep → Result (Unit {0}) × Sweep
  sweep service_id [] s = (ok tt, s)
  sweep service_id ((proxy_service_id, v) ∷ rest) s =
      let next =
        if concerns service_id proxy_service_id
        then shutdown_service proxy_service_id v s
        else (ok tt, s) in
      let others = sweep service_id rest next.1 in
      elim next.0 [ ok t ↦ others | err e ↦ (err e, next.1) | panic ↦ (panic, next.1) ]

  abbrev pub sweep_failed : List Text → AppError
  sweep_failed errors = general (
      codes "Error shutting down services: user_id="
      ++ (debug_option user_id ++ (codes ", err(s)=" ++ join (codes ",") errors)))

  -- `shutdown_connections`.
  unfoldable pub shutdown_connections :
      Option ℕ → GatewayServiceMgr → Result (Unit {0}) × GatewayServiceMgr
  shutdown_connections service_id m =
      let swept = sweep service_id m.service_proxy_visitors (record { mgr = m; errors = [] }) in
      elim swept.0 [
        | ok t ↦ elim swept.1.errors [
          | [] ↦ (ok tt, swept.1.mgr)
          | e ∷ es ↦ (err (sweep_failed (e ∷ es)), swept.1.mgr)
        ]
        | err e ↦ (err e, swept.1.mgr)
        | panic ↦ (panic, swept.1.mgr)
      ]
