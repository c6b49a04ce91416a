-- ===== src/Gateway/Manager/Startup.antt =====
-- Starting services: once per service, on ports of its own in the configured range.
use trust.Prelude.{
  ℕ, ◌+◌, ◌≤◌, ◌<◌, ◌≡◌, ◌≢◌, ◌↔◌, ◌∙◌, inl, inr, refl, Option, none, some, List, [], ◌∷◌, Text,
  nat_eq, arith, ltb, if◌then◌else◌, Option-cases, Bool-cases,
}
use trust.HashMap.{get}
use trust.HashMap.Laws.{get-insert, get-insert_self}
use trust.Text.{u16_bound}
use trust.AppError.{AppError}
use trust.Channel.{Channel}
use trust.Gateway.Visitor.{ProxyExecutorEvent}
use trust.Result.{ok, err, panic, Result-cases}
use trust.Model.{Service}
use trust.Gateway.Manager.{
  GatewayServiceMgr, AppConfig, new, startup, start_new, take_port, add_service, ports_exhausted,
}

take_port_keeps :
    (m m' : GatewayServiceMgr) (port : ℕ)
    → take_port m ≡ ok (port, m')
    → (m'.app_config ≡ m.app_config) × (m'.service_ports ≡ m.service_ports)
unfolding take_port
take_port_keeps m m' port h = ground arith

pub startup_new :
    (s : Service) (m m' : GatewayServiceMgr) (port : ℕ)
    → get s.service_id m.service_ports ≡ none
    → take_port m ≡ ok (port, m')
    → startup s m ≡ (ok (m.app_config.gateway_service_host, port), add_service s port m')
unfolding startup start_new
startup_new s m m' port f e = rw (f, startup) (rw (e, start_new))

pub startup_refused :
    (s : Service) (m : GatewayServiceMgr) (x : AppError)
    → get s.service_id m.service_ports ≡ none
    → take_port m ≡ err x
    → startup s m ≡ (err x, m)
unfolding startup start_new
startup_refused s m x f e = rw (f, startup) (rw (e, start_new))

pub startup_panics :
    (s : Service) (m : GatewayServiceMgr)
    → get s.service_id m.service_ports ≡ none
    → take_port m ≡ panic
    → startup s m ≡ (panic, m)
unfolding startup start_new
startup_panics s m f e = rw (f, startup) (rw (e, start_new))

pub startup_known :
    (s : Service) (m : GatewayServiceMgr) (port : ℕ)
    → get s.service_id m.service_ports ≡ some port
    → startup s m ≡ (ok (m.app_config.gateway_service_host, port), m)
unfolding startup
startup_known s m port f = rw (f, startup)

add_service-ports :
    (s : Service) (port : ℕ) (m : GatewayServiceMgr)
    → (get s.service_id (add_service s port m).service_ports ≡ some port)
      × ((add_service s port m).app_config ≡ m.app_config)
unfolding add_service
add_service-ports s port m = (get-insert_self s.service_id port m.service_ports, refl)

-- Once `startup` has given a service a port, starting the service again changes nothing and gives
-- that port again.
pub startup_again :
    (s t : Service) (m : GatewayServiceMgr) (address : Option Text × ℕ)
    → (startup s m).0 ≡ ok address
    → t.service_id ≡ s.service_id
    → startup t (startup s m).1 ≡ (ok address, (startup s m).1)
unfolding startup start_new
startup_again s t m address h e = elim (Option-cases (get s.service_id m.service_ports)) [
  | inr (port, f) ↦ ground arith
  | inl f ↦ elim (Result-cases (take_port m)) [
    | inl ((port, m'), q) ↦ ground (
      arith,
      startup_new s m m' port f q,
      add_service-ports s port m',
      take_port_keeps m m' port q,
      startup_known t (add_service s port m') port,
    )
    | inr (inl (x, q)) ↦ ground arith
    | inr (inr q) ↦ ground arith
  ]
]

-- Where ports are not shared: the ports given so far are distinct and lie between the first port of
-- the range and the next port, which is at most one past the last.
pub record IsPlanned (first last : ℕ) (m : GatewayServiceMgr) : Type 0 where
  pub own_ports : m.shared_service_port ≡ none
  pub last_port : m.last_service_port ≡ last
  pub next_in_range : (first ≤ m.next_service_port) × (m.next_service_port ≤ last + 1)
  pub given :
      (service_id port : ℕ)
      → get service_id m.service_ports ≡ some port
      → (first ≤ port) × (port < m.next_service_port)
  pub distinct :
      (service_id other_id port : ℕ)
      → get service_id m.service_ports ≡ some port
      → get other_id m.service_ports ≡ some port
      → service_id ≡ other_id

take_port_lem :
    (first last : ℕ) (m : GatewayServiceMgr)
    → IsPlanned first last m
    → last + 1 < u16_bound
    → take_port m ≡ (
        if ltb last m.next_service_port
        then err ports_exhausted
        else ok (m.next_service_port, record m { next_service_port = m.next_service_port + 1 }))
unfolding take_port
take_port_lem first last m plan fits = ground arith

module _ (first last : ℕ) (m : GatewayServiceMgr) (plan : IsPlanned first last m) (s : Service)
    (unknown : get s.service_id m.service_ports ≡ none) (room : m.next_service_port ≤ last) where
  add_service-IsPlanned :
      IsPlanned first last (
        add_service s m.next_service_port
          (record m { next_service_port = m.next_service_port + 1 }))
  unfolding add_service
  add_service-IsPlanned = record {
    own_ports = plan.own_ports;
    last_port = plan.last_port;
    next_in_range = ground (arith, plan.next_in_range);
    given = λ i p h. ground (
      arith,
      get-insert s.service_id i m.next_service_port m.service_ports,
      plan.given i p,
      plan.next_in_range,
    );
    distinct = λ i j p hi hj. ground (
      arith,
      get-insert s.service_id i m.next_service_port m.service_ports,
      get-insert s.service_id j m.next_service_port m.service_ports,
      plan.given i p,
      plan.given j p,
      plan.distinct i j p,
    );
  }

-- Where ports are planned on a range that ends below 65535: `startup` never panics; the ports
-- stay planned; a port that it gives lies in the range and is then the service's; and it fails only
-- for want of ports, with nothing changed.
pub startup-IsPlanned :
    (first last : ℕ) (s : Service) (m : GatewayServiceMgr)
    → IsPlanned first last m
    → last + 1 < u16_bound
    → let started = startup s m in
      (started.0 ≢ panic)
      × IsPlanned first last started.1
      × ((host : Option Text) (port : ℕ)
          → started.0 ≡ ok (host, port)
          → (first ≤ port) × (port ≤ last) × (get s.service_id started.1.service_ports ≡ some port))
      × ((e : AppError)
          → started.0 ≡ err e
          → (e ≡ ports_exhausted) × (started.1 ≡ m) × (m.next_service_port ≡ last + 1))
startup-IsPlanned first last s m plan fits =
    elim (Option-cases (get s.service_id m.service_ports)) [
      | inr (port, f) ↦ rw (startup_known s m port f) (
        λ q. cc,
        plan,
        λ host p q. ground (arith, plan.given s.service_id port f, plan.next_in_range),
        λ e q. cc,
      )
      | inl f ↦ elim (Bool-cases (ltb last m.next_service_port)) [
        | inl full ↦
            rw
              (startup_refused s m ports_exhausted f
                (take_port_lem first last m plan fits ∙ rw full))
              (λ q. cc, plan, λ host p q. cc, λ e q. ground (arith, plan.next_in_range))
        | inr room ↦
            rw
              (startup_new s m (record m { next_service_port = m.next_service_port + 1 })
                m.next_service_port f (take_port_lem first last m plan fits ∙ rw room))
              (
                λ q. cc,
                add_service-IsPlanned first last m plan s f (ground arith),
                λ host p q. ground (
                  arith,
                  plan.next_in_range,
                  add_service-ports s m.next_service_port
                      (record m { next_service_port = m.next_service_port + 1 }),
                ),
                λ e q. cc,
              )
      ]
    ]

pub new-IsPlanned :
    (c : AppConfig) (tasks : Channel ProxyExecutorEvent) (first last : ℕ)
    → c.gateway_service_ports ≡ some (first, last)
    → first ≤ last + 1
    → IsPlanned first last (new c tasks)
unfolding new get
new-IsPlanned c tasks first last range h = record {
  own_ports = ground arith;
  last_port = ground arith;
  next_in_range = ground arith;
  given = λ i p q. cc;
  distinct = λ i j p q r. cc;
}

-- The manager after a series of requests to start services, failed ones included.
unfoldable pub start_all : List Service → GatewayServiceMgr → GatewayServiceMgr
start_all [] m = m
start_all (s ∷ ss) m = start_all ss (startup s m).1

start_all-IsPlanned :
    (first last : ℕ) (ss : List Service) (m : GatewayServiceMgr)
    → IsPlanned first last m
    → last + 1 < u16_bound
    → IsPlanned first last (start_all ss m)
unfolding start_all
start_all-IsPlanned first last [] m plan fits = plan
start_all-IsPlanned first last (s ∷ ss) m plan fits =
    start_all-IsPlanned first last ss (startup s m).1 (startup-IsPlanned first last s m plan fits).1
      fits

-- Whatever services are started, in a configured range that ends below 65535 each has a port of
-- the range, and no two have the same.
pub start_all-new :
    (c : AppConfig) (tasks : Channel ProxyExecutorEvent) (first last : ℕ) (ss : List Service)
    (i j p q : ℕ)
    → c.gateway_service_ports ≡ some (first, last)
    → first ≤ last + 1
    → last + 1 < u16_bound
    → get i (start_all ss (new c tasks)).service_ports ≡ some p
    → get j (start_all ss (new c tasks)).service_ports ≡ some q
    → (first ≤ p) × (p ≤ last) × ((p ≡ q) ↔ (i ≡ j))
start_all-new c tasks first last ss i j p q range h fits hp hq =
    let plan =
      start_all-IsPlanned first last ss (new c tasks) (new-IsPlanned c tasks first last range h)
        fits in
    ground (arith, plan.given i p hp, plan.next_in_range, plan.distinct i j p hp)
