-- ===== src/Client/Manager/Shutdown.antt =====
-- What `shutdown` makes of the client's service manager.
use trust.Prelude.{
  ℕ, ap, ◌≡◌, ◌∙◌, ◌||◌, inl, inr, refl, Bool, true, false, none, some, Text, same, text_eq, nat_eq,
  arith, Option-cases, List, [], ◌∷◌, List-cases, if◌then◌else◌,
}
use trust.HashMap.{get, insert, contains_key, HasEntry, IsDistinct}
use trust.HashMap.Laws.{get-insert, HasEntry-get}
use trust.AppError.{AppError}
use trust.Channel.{Channel}
use trust.Result.{Result}
use trust.Proxy.Executor.{ProxyExecutorEvent}
use trust.Client.Visitor
use trust.Client.Visitor.{TcpClientProxyServerVisitor}
use trust.Client.Visitor.Shutdown.{Drained, shutdown_connections-Drained}
use trust.Client.Manager.{
  ClientServiceMgr, ClientServiceProxyVisitor, base, with_base, transport_name, lend, take_back,
  Sweep, shutdown_service, sweep, shutdown,
}
use trust.Client.Manager.Coherent.{IsCoherent, base-with_base, take_back-IsCoherent}
use trust.Client.Manager.Closed.{Drained-Visits}

-- A visitor of the list has the key.
abbrev pub any_owns : Text → List (ℕ × ClientServiceProxyVisitor) → Bool
any_owns k [] = false
any_owns k ((service_id, v) ∷ rest) = contains_key k (base v).proxy_keys || any_owns k rest

-- The visitors of the list are the manager's.
abbrev pub AreCurrent : ClientServiceMgr → List (ℕ × ClientServiceProxyVisitor) → Type 0
AreCurrent m [] = Unit
AreCurrent m ((service_id, v) ∷ rest) =
    (get service_id m.service_proxy_visitors ≡ some v) × AreCurrent m rest

-- What the shutdown of one visitor gives.
abbrev shut :
    ClientServiceProxyVisitor
    → ClientServiceMgr
    → Result (Unit {0}) × TcpClientProxyServerVisitor × Channel ProxyExecutorEvent
shut v m =
    Visitor.shutdown_connections (transport_name v) (Visitor.set_shutdown_requested (lend m v))
      m.proxy_tasks_sender

shut-Drained :
    (v : ClientServiceProxyVisitor) (m : ClientServiceMgr) → Drained (lend m v) (shut v m).1
unfolding Visitor.set_shutdown_requested
shut-Drained v m =
    let d =
      shutdown_connections-Drained (transport_name v) (Visitor.set_shutdown_requested (lend m v))
        m.proxy_tasks_sender in
    record {
      services = d.services;
      keys_left = d.keys_left;
      same_service = d.same_service;
      same_places = d.same_places;
    }

module _ (debug : AppError → Text) where
  shutdown_service-mgr :
      (service_id : ℕ) (v : ClientServiceProxyVisitor) (s : Sweep)
      → (shutdown_service debug service_id v s).mgr
        ≡ take_back service_id
            (with_base v (shut v s.mgr).1)
            (record (s.mgr) { proxy_tasks_sender = (shut v s.mgr).2 })
  unfolding shutdown_service
  shutdown_service-mgr service_id v s = refl

  shutdown_service-get :
      (service_id : ℕ) (v : ClientServiceProxyVisitor) (s : Sweep) (k : Text)
      → get k (shutdown_service debug service_id v s).mgr.services_by_proxy_key
        ≡ (if contains_key k (base v).proxy_keys then none else get k s.mgr.services_by_proxy_key)
  shutdown_service-get service_id v s k =
      rw (shutdown_service-mgr service_id v s, base-with_base v (shut v s.mgr).1)
        ((shut-Drained v s.mgr).services k)

  sweep-get :
      (rest : List (ℕ × ClientServiceProxyVisitor)) (s : Sweep) (k : Text)
      → get k (sweep debug rest s).mgr.services_by_proxy_key
        ≡ (if any_owns k rest then none else get k s.mgr.services_by_proxy_key)
  unfolding sweep
  sweep-get [] s k = refl
  sweep-get ((service_id, v) ∷ rest) s k =
      sweep-get rest (shutdown_service debug service_id v s) k
      ∙ ground (arith, shutdown_service-get service_id v s k)

  shutdown-mgr :
      (m : ClientServiceMgr)
      → (shutdown debug m).1
        ≡ (sweep debug m.service_proxy_visitors (record { mgr = m; errors = [] })).mgr
  unfolding shutdown
  shutdown-mgr m =
      elim (List-cases
        (sweep debug m.service_proxy_visitors (record { mgr = m; errors = [] })).errors) [
          | inl e ↦ rw (e, shutdown) refl
          | inr (x, xs, e) ↦ rw (e, shutdown) refl
        ]

get-any_owns :
    (k : Text) (service_id : ℕ) (v : ClientServiceProxyVisitor)
    (rest : List (ℕ × ClientServiceProxyVisitor))
    → get service_id rest ≡ some v
    → contains_key k (base v).proxy_keys ≡ true
    → any_owns k rest ≡ true
unfolding get
get-any_owns k service_id v [] h c = cc
get-any_owns k service_id v ((i, w) ∷ rest) h c =
    ground (arith, same i service_id, get-any_owns k service_id v rest)

-- After `shutdown` the manager knows no proxy key, whether or not the proxy executor listens and
-- whether or not the shutdown succeeds, where each key it knew was among the keys of its service's
-- visitor.
pub shutdown-forgets_all :
    (debug : AppError → Text) (m : ClientServiceMgr) (k : Text)
    → IsCoherent m
    → get k (shutdown debug m).1.services_by_proxy_key ≡ none
shutdown-forgets_all debug m k inv =
    let h = sweep-get debug m.service_proxy_visitors (record { mgr = m; errors = [] }) k in
    rw (shutdown-mgr debug m) (elim (Option-cases (get k m.services_by_proxy_key)) [
      | inl e ↦ ground (arith, h)
      | inr (service_id, e) ↦
          let (v, f, c) = inv.owned k service_id e in
          ground (arith, h, get-any_owns k service_id v m.service_proxy_visitors f c)
    ])

AreCurrent-step :
    (m n : ClientServiceMgr) (service_id : ℕ) (w : ClientServiceProxyVisitor)
    (rest : List (ℕ × ClientServiceProxyVisitor))
    → n.service_proxy_visitors ≡ insert service_id w m.service_proxy_visitors
    → get service_id rest ≡ none
    → AreCurrent m rest
    → AreCurrent n rest
unfolding get
AreCurrent-step m n service_id w [] e h c = tt
AreCurrent-step m n service_id w ((i, v) ∷ rest) e h c = (
  ground (
    arith,
    e,
    c.0,
    same i service_id,
    same service_id i,
    get-insert service_id i w m.service_proxy_visitors,
  ),
  AreCurrent-step m n service_id w rest e (ground (arith, same i service_id)) c.1,
)

AreCurrent-entries :
    (m : ClientServiceMgr) (rest : List (ℕ × ClientServiceProxyVisitor))
    → ((i : ℕ) (v : ClientServiceProxyVisitor)
        → HasEntry i v rest
        → get i m.service_proxy_visitors ≡ some v)
    → AreCurrent m rest
AreCurrent-entries m [] h = tt
AreCurrent-entries m ((i, v) ∷ rest) h =
    (h i v (inl (refl, refl)), AreCurrent-entries m rest λ j w e. h j w (inr e))

pub with_tasks-IsCoherent :
    (m : ClientServiceMgr) (tasks : Channel ProxyExecutorEvent)
    → IsCoherent m
    → IsCoherent (record m { proxy_tasks_sender = tasks })
with_tasks-IsCoherent m tasks inv = record {
  distinct = inv.distinct;
  addresses = inv.addresses;
  services = inv.services;
  owned = inv.owned;
}

module _ (debug : AppError → Text) where
  shutdown_service-IsCoherent :
      (service_id : ℕ) (v : ClientServiceProxyVisitor) (s : Sweep)
      → IsCoherent s.mgr
      → get service_id s.mgr.service_proxy_visitors ≡ some v
      → IsCoherent (shutdown_service debug service_id v s).mgr
  shutdown_service-IsCoherent service_id v s inv h =
      rw (shutdown_service-mgr debug service_id v s) (
        take_back-IsCoherent (record (s.mgr) { proxy_tasks_sender = (shut v s.mgr).2 }) service_id v
          (with_base v (shut v s.mgr).1) (with_tasks-IsCoherent s.mgr (shut v s.mgr).2 inv) h
          (rw (base-with_base v (shut v s.mgr).1)
            (Drained-Visits (lend s.mgr v) (shut v s.mgr).1 (shut-Drained v s.mgr))))

  sweep-IsCoherent :
      (rest : List (ℕ × ClientServiceProxyVisitor)) (s : Sweep)
      → IsDistinct rest
      → AreCurrent s.mgr rest
      → IsCoherent s.mgr
      → IsCoherent (sweep debug rest s).mgr
  unfolding sweep
  sweep-IsCoherent [] s d c inv = inv
  sweep-IsCoherent ((service_id, v) ∷ rest) s d c inv =
      sweep-IsCoherent rest (shutdown_service debug service_id v s) d.1
        (AreCurrent-step s.mgr (shutdown_service debug service_id v s).mgr service_id
          (with_base v (shut v s.mgr).1) rest
          (ap (λ x. x.service_proxy_visitors) (shutdown_service-mgr debug service_id v s)) d.0 c.1)
        (shutdown_service-IsCoherent service_id v s inv c.0)

  pub shutdown-IsCoherent : (m : ClientServiceMgr) → IsCoherent m → IsCoherent (shutdown debug m).1
  shutdown-IsCoherent m inv = rw (shutdown-mgr debug m) (
      sweep-IsCoherent m.service_proxy_visitors (record { mgr = m; errors = [] }) inv.distinct
        (AreCurrent-entries m m.service_proxy_visitors
          λ i v e. HasEntry-get i v m.service_proxy_visitors inv.distinct e)
        inv)
