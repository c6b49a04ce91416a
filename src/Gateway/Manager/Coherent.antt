-- ===== src/Gateway/Manager/Coherent.antt =====
-- The manager's visitors and the map of proxy keys that they share.
use trust.Prelude.{
  ℕ, ◌≡◌, ◌≢◌, ◌∙◌, ◌⊎◌, subst, sym, inl, inr, refl, some, Text, same, text_eq, nat_eq, arith,
  Option-cases,
}
use trust.HashMap.{HashMap, get, insert, IsDistinct}
use trust.HashMap.Laws.{get-insert, insert-IsDistinct}
use trust.Result.{ok, Result-cases}
use trust.Model.{Service}
use trust.Gateway.Visitor
use trust.Gateway.Visitor.{TcpGatewayProxyServerVisitor, remove_proxy_for_key}
use trust.Gateway.Visitor.Invariant.{IsConsistent, remove_proxy_for_key-Drops}
use trust.Gateway.Visitor.Safety.{Keeps, remove_proxy_for_key-Keeps}
use trust.Gateway.Visitor.Filing.{with_service-IsConsistent, new-IsConsistent}
use trust.Gateway.Manager.{
  GatewayServiceMgr, lend, take_back, add_service, startup, take_port, on_closed_proxy,
  service_or_max, get_service_id_by_proxy_key, get_service_proxy,
}
use trust.Gateway.Manager.Startup.{startup_new, startup_refused, startup_panics, startup_known}

-- A visitor of a service, whose maps agree with the shared map as it is now.
abbrev pub IsOwn : GatewayServiceMgr → ℕ → TcpGatewayProxyServerVisitor → Type 0
IsOwn m service_id v = (v.service.service_id ≡ service_id) × IsConsistent (lend m v)

pub record IsCoherent (m : GatewayServiceMgr) : Type 0 where
  pub distinct : IsDistinct m.service_proxy_visitors
  pub visitors :
      (service_id : ℕ) (v : TcpGatewayProxyServerVisitor)
      → get service_id m.service_proxy_visitors ≡ some v
      → IsOwn m service_id v

-- What a visitor's method leaves when it touches no other service's key.
pub record Visited (m : GatewayServiceMgr) (v w : TcpGatewayProxyServerVisitor) : Type 0 where
  pub consistent : IsConsistent w
  pub keeps : Keeps (lend m v) w

insert-cases :
    (service_id other_id : ℕ) (w u : TcpGatewayProxyServerVisitor)
    (m : HashMap ℕ TcpGatewayProxyServerVisitor)
    → get other_id (insert service_id w m) ≡ some u
    → ((service_id ≡ other_id) × (w ≡ u)) ⊎ ((other_id ≢ service_id) × (get other_id m ≡ some u))
insert-cases service_id other_id w u m h =
    ground (arith, get-insert service_id other_id w m, same service_id other_id)

module _ (m m' : GatewayServiceMgr) (service_id : ℕ) (w : TcpGatewayProxyServerVisitor)
    (inserted : m'.service_proxy_visitors ≡ insert service_id w m.service_proxy_visitors)
    (own : IsOwn m' service_id w)
    (others : (other_id : ℕ) (u : TcpGatewayProxyServerVisitor)
      → other_id ≢ service_id
      → IsOwn m other_id u
      → IsOwn m' other_id u) where
  insert-IsCoherent : IsCoherent m → IsCoherent m'
  insert-IsCoherent inv = record {
    distinct = rw inserted (insert-IsDistinct service_id w m.service_proxy_visitors inv.distinct);
    visitors = λ i u h.
        elim (insert-cases service_id i w u m.service_proxy_visitors (rw (sym inserted) h)) [
          | inl (e, q) ↦ subst (λ x. IsOwn m' x u) e (subst (IsOwn m' service_id) q own)
          | inr (n, q) ↦ others i u n (inv.visitors i u q)
        ];
  }

module _ (m : GatewayServiceMgr) (service_id : ℕ) (v w : TcpGatewayProxyServerVisitor)
    (own : IsOwn m service_id v) (visited : Visited m v w) where
  take_back-IsOwn_self : IsOwn (take_back service_id w m) service_id w
  take_back-IsOwn_self = (ground (arith, own.0, visited.keeps.same_service), visited.consistent)

  pub take_back-IsOwn :
      (other_id : ℕ) (u : TcpGatewayProxyServerVisitor)
      → other_id ≢ service_id
      → IsOwn m other_id u
      → IsOwn (take_back service_id w m) other_id u
  take_back-IsOwn other_id u differs other = (
    other.0,
    with_service-IsConsistent (lend m u) w.services_by_proxy_key other.1 λ k a h.
        let filed = other.1.shared k a h in
        visited.keeps.elsewhere k u.service.service_id filed (ground (arith, own.0, other.0))
        ∙ ground arith,
  )

  pub take_back-IsCoherent : IsCoherent m → IsCoherent (take_back service_id w m)
  take_back-IsCoherent =
      insert-IsCoherent m (take_back service_id w m) service_id w refl take_back-IsOwn_self
        take_back-IsOwn

take_port-visitors :
    (m m' : GatewayServiceMgr) (port : ℕ)
    → take_port m ≡ ok (port, m')
    → (m'.service_proxy_visitors ≡ m.service_proxy_visitors)
      × (m'.services_by_proxy_key ≡ m.services_by_proxy_key)
unfolding take_port
take_port-visitors m m' port h = ground arith

new_service :
    (s : Service) (m : GatewayServiceMgr) (port : ℕ)
    → (Visitor.new s m.app_config.gateway_service_host port
        m.services_by_proxy_key).service.service_id
      ≡ s.service_id
unfolding Visitor.new
new_service s m port = refl

add_service-IsCoherent :
    (s : Service) (port : ℕ) (m : GatewayServiceMgr)
    → IsCoherent m
    → IsCoherent (add_service s port m)
unfolding add_service Visitor.new
add_service-IsCoherent s port m =
    insert-IsCoherent m (add_service s port m) s.service_id
      (Visitor.new s m.app_config.gateway_service_host port m.services_by_proxy_key) refl
      (
        new_service s m port,
        new-IsConsistent s m.app_config.gateway_service_host port m.services_by_proxy_key,
      )
      (λ i u n o. o)

same-IsCoherent :
    (m m' : GatewayServiceMgr)
    → m'.service_proxy_visitors ≡ m.service_proxy_visitors
    → m'.services_by_proxy_key ≡ m.services_by_proxy_key
    → IsCoherent m
    → IsCoherent m'
same-IsCoherent m m' e s inv = record {
  distinct = rw e inv.distinct;
  visitors = λ i v h. rw s (inv.visitors i v (rw (sym e) h));
}

pub startup-IsCoherent :
    (s : Service) (m : GatewayServiceMgr) → IsCoherent m → IsCoherent (startup s m).1
startup-IsCoherent s m inv = elim (Option-cases (get s.service_id m.service_ports)) [
  | inr (port, f) ↦ rw (startup_known s m port f) inv
  | inl f ↦ elim (Result-cases (take_port m)) [
    | inl ((port, m'), q) ↦
        let (e, t) = take_port-visitors m m' port q in
        rw (startup_new s m m' port f q)
          (add_service-IsCoherent s port m' (same-IsCoherent m m' e t inv))
    | inr (inl (x, q)) ↦ rw (startup_refused s m x f q) inv
    | inr (inr q) ↦ rw (startup_panics s m f q) inv
  ]
]

-- A key that a closed proxy had is removed from its visitor; an unknown key changes nothing.
pub on_closed_proxy-IsCoherent :
    (key : Text) (m : GatewayServiceMgr)
    → IsCoherent m
    → ((on_closed_proxy key m).0 ≡ ok tt) × IsCoherent (on_closed_proxy key m).1
unfolding on_closed_proxy
on_closed_proxy-IsCoherent key m inv =
    let service_id = service_or_max (get_service_id_by_proxy_key key m) in
    elim (Option-cases (get_service_proxy service_id m)) [
      | inl e ↦ rw (e, on_closed_proxy) (refl, inv)
      | inr (v, e) ↦
          let own = inv.visitors service_id v e in
          let (b, q, d) = remove_proxy_for_key-Drops (lend m v) key own.1 in
          rw (e, on_closed_proxy)
            (rw (q, on_closed_proxy)
              (
                refl,
                take_back-IsCoherent m service_id v _ own
                    (record {
                      consistent = d.consistent;
                      keeps = remove_proxy_for_key-Keeps (lend m v) key own.1;
                    })
                    inv,
              ))
    ]
