-- ===== src/Client/Manager/Closed.antt =====
-- What starting a service, a closed proxy and a shutdown make of the client's service manager.
use trust.Prelude.{
  ℕ, ◌&&◌, ◌≡◌, ◌-◌, inl, inr, refl, Bool, true, false, none, some, Text, same, ap, text_eq, nat_eq,
  arith, Option-cases, Bool-cases, text_beq, if◌then◌else◌,
}
use trust.HashMap.{get, contains_key}
use trust.HashMap.Laws.{get-insert, contains_key-insert}
use trust.Text.{u64_bound}
use trust.Result.{ok}
use trust.Proxy.Event.{closed}
use trust.Gateway.Manager.{service_or_max}
use trust.Client.Visitor
use trust.Client.Visitor.{TcpClientProxyServerVisitor, HashSet, file_proxy, open_proxy}
use trust.Client.Visitor.Shutdown.{Drained, Removed, remove_proxy_for_key-Removed}
use trust.Client.Manager.{
  ClientServiceMgr, ClientServiceProxyVisitor, base, with_base, lend, take_back, on_closed,
  get_proxy_service_for_proxy_key, get_proxy_visitor_for_service, process_next_proxy_event,
}
use trust.Client.Manager.Coherent.{IsCoherent, Visits, base-with_base, take_back-IsCoherent}

-- The methods of a visitor, as visits.
pub Removed-Visits :
    (v : TcpClientProxyServerVisitor) (key : Text) (r : Bool × TcpClientProxyServerVisitor)
    → Removed v key r
    → Visits v r.1
Removed-Visits v key r h = record {
  same_service = h.same_service;
  same_addrs = ground (arith, h.same_places);
  keeps = λ k s e.
      inr (
        ground (arith, h.services k),
        λ c. ground (arith, h.services k, h.keys_left k, same key k),
      );
}

pub Drained-Visits : (v w : TcpClientProxyServerVisitor) → Drained v w → Visits v w
Drained-Visits v w h = record {
  same_service = h.same_service;
  same_addrs = ground (arith, h.same_places);
  keeps = λ k s e. inr (ground (arith, h.services k), λ c. ground (arith, h.services k));
}

pub file_proxy-Visits : (key : Text) (v : TcpClientProxyServerVisitor) → Visits v (file_proxy key v)
unfolding file_proxy
file_proxy-Visits key v = record {
  same_service = refl;
  same_addrs = refl;
  keeps = λ k s e. elim (Bool-cases (text_beq key k)) [
    | inl q ↦ inl (
      ground (arith, get-insert key k v.service.service_id v.services_by_proxy_key),
      ground (arith, contains_key-insert key k tt v.proxy_keys),
    )
    | inr q ↦ inr (
      ground (arith, get-insert key k v.service.service_id v.services_by_proxy_key),
      λ c. ground (arith, contains_key-insert key k tt v.proxy_keys),
    )
  ];
}

pub Visits-refl : (v : TcpClientProxyServerVisitor) → Visits v v
Visits-refl v = record { same_service = refl; same_addrs = refl; keeps = λ k s e. inr (e, λ c. c) }

module _ (key : Text) (m : ClientServiceMgr) where
  on_closed_found :
      (service_id : ℕ) (v : ClientServiceProxyVisitor)
      → get_proxy_visitor_for_service (service_or_max (get_proxy_service_for_proxy_key key m)) m
        ≡ some v
      → service_or_max (get_proxy_service_for_proxy_key key m) ≡ service_id
      → on_closed key m ≡ (
        (Visitor.remove_proxy_for_key key (lend m v)).0,
        take_back service_id (with_base v (Visitor.remove_proxy_for_key key (lend m v)).1) m,
      )
  unfolding on_closed
  on_closed_found service_id v h e = rw (h, on_closed) (rw e refl)

  on_closed_missing :
      get_proxy_visitor_for_service (service_or_max (get_proxy_service_for_proxy_key key m)) m
        ≡ none
      → on_closed key m ≡ (false, m)
  unfolding on_closed
  on_closed_missing h = rw (h, on_closed) refl

  visited_closed :
      (v : ClientServiceProxyVisitor)
      → get_proxy_visitor_for_service (service_or_max (get_proxy_service_for_proxy_key key m)) m
        ≡ some v
      → IsCoherent m
      → IsCoherent (on_closed key m).1
        × ((k : Text)
            → get k (on_closed key m).1.services_by_proxy_key ≡ (
                if text_beq key k && contains_key key (base v).proxy_keys
                then none
                else get k m.services_by_proxy_key))
  unfolding get_proxy_visitor_for_service
  visited_closed v h inv =
      let service_id = service_or_max (get_proxy_service_for_proxy_key key m) in
      let r = remove_proxy_for_key-Removed key (lend m v) in
      let e = base-with_base v (Visitor.remove_proxy_for_key key (lend m v)).1 in
      rw (on_closed_found service_id v h refl) (
        take_back-IsCoherent m service_id v _ inv h (rw e (Removed-Visits (lend m v) key _ r)),
        λ k. rw e (r.services k),
      )

  unknown_closed :
      get_proxy_visitor_for_service (service_or_max (get_proxy_service_for_proxy_key key m)) m
        ≡ none
      → IsCoherent m
      → get key m.services_by_proxy_key ≡ none
  unfolding get_proxy_service_for_proxy_key get_proxy_visitor_for_service
  unknown_closed h inv = elim (Option-cases (get key m.services_by_proxy_key)) [
    | inl e ↦ e
    | inr (service_id, e) ↦ let (v, f, c) = inv.owned key service_id e in ground (arith, h, e, f)
  ]

  known_closed :
      (v : ClientServiceProxyVisitor) (service_id : ℕ)
      → get_proxy_visitor_for_service (service_or_max (get_proxy_service_for_proxy_key key m)) m
        ≡ some v
      → IsCoherent m
      → get key m.services_by_proxy_key ≡ some service_id
      → contains_key key (base v).proxy_keys ≡ true
  unfolding get_proxy_service_for_proxy_key get_proxy_visitor_for_service
  known_closed v service_id h inv e =
      let (u, f, c) = inv.owned key service_id e in ground (arith, h, e, f, c)

  -- A key that was reported leads nowhere, and all others are as they were.
  pub on_closed-forgets :
      IsCoherent m
      → IsCoherent (on_closed key m).1
        × ((k : Text)
            → get k (on_closed key m).1.services_by_proxy_key
              ≡ (if text_beq key k then none else get k m.services_by_proxy_key))
  on_closed-forgets inv =
      elim (Option-cases (
        get_proxy_visitor_for_service (service_or_max (get_proxy_service_for_proxy_key key m)) m)) [
          | inl h ↦
              rw (on_closed_missing h) (inv, λ k. ground (arith, unknown_closed h inv, same key k))
          | inr (v, h) ↦
              let (c, f) = visited_closed v h inv in
              (
                c,
                λ k. elim (Option-cases (get key m.services_by_proxy_key)) [
                  | inl e ↦ ground (arith, f k, same key k)
                  | inr (service_id, e) ↦ ground (arith, f k, known_closed v service_id h inv e)
                ],
              )
        ]

  on_closed-tells :
      IsCoherent m
      → get (u64_bound - 1) m.service_proxy_visitors ≡ none
      → (on_closed key m).0 ≡ contains_key key m.services_by_proxy_key
  unfolding get_proxy_service_for_proxy_key get_proxy_visitor_for_service contains_key
  on_closed-tells inv no_max = elim (Option-cases (get key m.services_by_proxy_key)) [
    | inl e ↦ rw (on_closed_missing (rw e no_max)) (ground arith)
    | inr (service_id, e) ↦
        let (v, h, c) = inv.owned key service_id e in
        rw (on_closed_found service_id v (rw e h) (rw e refl))
          (ground (arith, (remove_proxy_for_key-Removed key (lend m v)).found))
  ]

  -- Where each key that the manager knows is among the keys of its service's visitor, and no service
  -- has the number `u64::MAX`, the report that a proxy is closed is taken note of just if the manager
  -- knows its key. Then the key leads nowhere, all other keys are as they were, and each key that the
  -- manager knows is still its visitor's.
  pub process_next_proxy_event-forgets :
      IsCoherent m
      → get (u64_bound - 1) m.service_proxy_visitors ≡ none
      → let done = process_next_proxy_event (some (closed key)) m in
        (done.0 ≡ ok (contains_key key m.services_by_proxy_key))
        × ((k : Text)
            → get k done.1.services_by_proxy_key
              ≡ (if text_beq key k then none else get k m.services_by_proxy_key))
        × IsCoherent done.1
  unfolding process_next_proxy_event
  process_next_proxy_event-forgets inv no_max =
      let (c, f) = on_closed-forgets inv in (ap ok (on_closed-tells inv no_max), f, c)
