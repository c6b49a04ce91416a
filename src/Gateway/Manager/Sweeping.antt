-- ===== src/Gateway/Manager/Sweeping.antt =====
-- Closing connections through the manager never panics and keeps the visitors coherent.
use trust.Prelude.{
  ℕ, ◌≡◌, ◌≢◌, ◌⊎◌, inl, inr, refl, Option, none, some, List, [], ◌∷◌, Text, same, nat_eq, arith,
  Bool-cases,
}
use trust.HashMap.{HashMap, get, IsDistinct}
use trust.AppError.{AppError}
use trust.Result.{Result, ok, panic, Result-cases}
use trust.Gateway.Visitor
use trust.Gateway.Visitor.{TcpGatewayProxyServerVisitor, concerns}
use trust.Gateway.Visitor.Safety.{shutdown_connections-IsSafe}
use trust.Gateway.Manager.{GatewayServiceMgr, lend}
use trust.Gateway.Manager.Coherent.{IsOwn, IsCoherent, take_back-IsOwn, take_back-IsCoherent}
use trust.Gateway.Manager.Shutdown.{Sweep, shutdown_service, sweep, shutdown_connections}

-- The visitors still to come are those of their services.
abbrev AreOwn : GatewayServiceMgr → List (ℕ × TcpGatewayProxyServerVisitor) → Type 0
AreOwn m [] = Unit
AreOwn m ((service_id, v) ∷ rest) = IsOwn m service_id v × AreOwn m rest

record IsSwept (r : Result (Unit {0}) × Sweep) : Type 0 where
  pub no_panic : r.0 ≢ panic
  pub coherent : IsCoherent r.1.mgr

module _ (debug : AppError → Text) (user_id : Option ℕ) where
  record Served (service_id : ℕ) (s : Sweep) (r : Result (Unit {0}) × Sweep) : Type 0 where
    pub done : r.0 ≡ ok tt
    pub coherent : IsCoherent r.1.mgr
    pub others :
        (other_id : ℕ) (u : TcpGatewayProxyServerVisitor)
        → other_id ≢ service_id
        → IsOwn s.mgr other_id u
        → IsOwn r.1.mgr other_id u

  shutdown_service-Served :
      (service_id : ℕ) (v : TcpGatewayProxyServerVisitor) (s : Sweep)
      → IsOwn s.mgr service_id v
      → IsCoherent s.mgr
      → Served service_id s (shutdown_service debug user_id service_id v s)
  unfolding shutdown_service
  shutdown_service-Served service_id v s own inv =
      let safe =
        shutdown_connections-IsSafe user_id (lend s.mgr v) s.mgr.proxy_tasks_sender own.1 in
      let tasks =
        (Visitor.shutdown_connections user_id (lend s.mgr v) s.mgr.proxy_tasks_sender).1.tasks in
      let m : GatewayServiceMgr = record (s.mgr) { proxy_tasks_sender = tasks } in
      let w =
        (Visitor.shutdown_connections user_id (lend s.mgr v) s.mgr.proxy_tasks_sender).1.visitor in
      let coherent =
        take_back-IsCoherent m service_id v w own
          (record { consistent = safe.consistent; keeps = safe.keeps })
          (record { distinct = inv.distinct; visitors = inv.visitors }) in
      let others =
        take_back-IsOwn m service_id v w own
          (record { consistent = safe.consistent; keeps = safe.keeps }) in
      elim (Result-cases
        (Visitor.shutdown_connections user_id (lend s.mgr v) s.mgr.proxy_tasks_sender).0) [
          | inl (t, e) ↦
              rw (e, shutdown_service)
                (record { done = refl; coherent = coherent; others = others })
          | inr (inl (x, e)) ↦
              rw (e, shutdown_service)
                (record { done = refl; coherent = coherent; others = others })
          | inr (inr e) ↦ absurd (safe.no_panic e)
        ]

  absent-tail :
      (service_id j : ℕ) (w : TcpGatewayProxyServerVisitor)
      (rest : HashMap ℕ TcpGatewayProxyServerVisitor)
      → get service_id ((j, w) ∷ rest) ≡ none
      → (j ≢ service_id) × (get service_id rest ≡ none)
  unfolding get
  absent-tail service_id j w rest h =
      (λ q. ground (arith, same j service_id), ground (arith, same j service_id))

  AreOwn-others :
      (service_id : ℕ) (rest : List (ℕ × TcpGatewayProxyServerVisitor)) (m m' : GatewayServiceMgr)
      → get service_id rest ≡ none
      → ((other_id : ℕ) (u : TcpGatewayProxyServerVisitor)
          → other_id ≢ service_id
          → IsOwn m other_id u
          → IsOwn m' other_id u)
      → AreOwn m rest
      → AreOwn m' rest
  AreOwn-others service_id [] m m' absent others own = tt
  AreOwn-others service_id ((j, w) ∷ rest) m m' absent others own =
      let (n, t) = absent-tail service_id j w rest absent in
      (others j w n own.0, AreOwn-others service_id rest m m' t others own.1)

  sweep-IsSwept :
      (service_id : Option ℕ) (rest : List (ℕ × TcpGatewayProxyServerVisitor)) (s : Sweep)
      → IsDistinct rest
      → AreOwn s.mgr rest
      → IsCoherent s.mgr
      → IsSwept (sweep debug user_id service_id rest s)
  unfolding sweep
  sweep-IsSwept service_id [] s distinct own inv = record { no_panic = λ q. cc; coherent = inv }
  sweep-IsSwept service_id ((j, v) ∷ rest) s distinct own inv =
      elim (Bool-cases (concerns service_id j)) [
        | inr b ↦ rw (b, sweep) (rw b (sweep-IsSwept service_id rest s distinct.1 own.1 inv))
        | inl b ↦
            let served = shutdown_service-Served j v s own.0 inv in
            let next = (shutdown_service debug user_id j v s).1 in
            rw (b, sweep)
              (rw (served.done, sweep)
                (rw b (
                  sweep-IsSwept service_id rest next distinct.1
                    (AreOwn-others j rest s.mgr next.mgr distinct.0 served.others own.1)
                    served.coherent)))
      ]

all-AreOwn :
    (m : GatewayServiceMgr) (entries : List (ℕ × TcpGatewayProxyServerVisitor))
    → IsDistinct entries
    → ((service_id : ℕ) (v : TcpGatewayProxyServerVisitor)
        → get service_id entries ≡ some v
        → IsOwn m service_id v)
    → AreOwn m entries
unfolding get
all-AreOwn m [] distinct visitors = tt
all-AreOwn m ((j, v) ∷ entries) distinct visitors = (
  visitors j v (ground (arith, same j j)),
  all-AreOwn m entries distinct.1 λ i u h. visitors i u (ground (arith, same j i, distinct.0)),
)

errors-cases :
    (errors : List Text) → (errors ≡ []) ⊎ ((e : Text) × (es : List Text) × (errors ≡ e ∷ es))
errors-cases [] = inl refl
errors-cases (e ∷ es) = inr (e, es, refl)

-- On visitors that are coherent, closing connections does not panic, whichever errors it meets, and
-- leaves them coherent.
pub shutdown_connections-IsCoherent :
    (debug : AppError → Text) (user_id service_id : Option ℕ) (m : GatewayServiceMgr)
    → IsCoherent m
    → ((shutdown_connections debug user_id service_id m).0 ≢ panic)
      × IsCoherent (shutdown_connections debug user_id service_id m).1
unfolding shutdown_connections
shutdown_connections-IsCoherent debug user_id service_id m inv =
    let swept =
      sweep-IsSwept debug user_id service_id m.service_proxy_visitors
        (record { mgr = m; errors = [] }) inv.distinct
        (all-AreOwn m m.service_proxy_visitors inv.distinct inv.visitors) inv in
    let result =
      sweep debug user_id service_id m.service_proxy_visitors (record { mgr = m; errors = [] }) in
    elim (Result-cases result.0) [
      | inl (t, e) ↦ elim (errors-cases result.1.errors) [
        | inl n ↦
            rw (e, shutdown_connections) (rw (n, shutdown_connections) (λ q. cc, swept.coherent))
        | inr (x, xs, n) ↦
            rw (e, shutdown_connections) (rw (n, shutdown_connections) (λ q. cc, swept.coherent))
      ]
      | inr (inl (x, e)) ↦ rw (e, shutdown_connections) (λ q. cc, swept.coherent)
      | inr (inr e) ↦ absurd (swept.no_panic e)
    ]
