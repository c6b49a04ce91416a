-- ===== src/Gateway/Manager/Closed.antt =====
-- A closed proxy leaves the visitor that had it.
use trust.Prelude.{
  ℕ, ◌≡◌, ◌∙◌, inl, inr, refl, none, some, Text, text_beq, text_eq, nat_eq, arith, Option-cases,
  if◌then◌else◌, ap,
}
use trust.HashMap.{get}
use trust.HashMap.Laws.{get-insert_self}
use trust.Result.{ok}
use trust.Gateway.Visitor.{TcpGatewayProxyServerVisitor, remove_proxy_for_key}
use trust.Gateway.Visitor.Invariant.{user_of, remove_proxy_for_key-Drops}
use trust.Gateway.Manager.{
  GatewayServiceMgr, lend, on_closed_proxy, service_or_max, get_service_id_by_proxy_key,
  get_service_proxy,
}
use trust.Gateway.Manager.Coherent.{IsOwn, IsCoherent}

-- A key that leads to a user is the service's in the shared map.
filed :
    (m : GatewayServiceMgr) (service_id user_id : ℕ) (v : TcpGatewayProxyServerVisitor) (key : Text)
    → IsOwn m service_id v
    → user_of v key ≡ some user_id
    → service_or_max (get_service_id_by_proxy_key key m) ≡ service_id
unfolding get_service_id_by_proxy_key
filed m service_id user_id v key own known =
    elim (Option-cases (get key v.proxy_addrs_by_proxy_key)) [
      | inl e ↦ ground arith
      | inr (a, e) ↦ ap service_or_max (own.1.shared key a e) ∙ own.0
    ]

-- Where the visitors are coherent and a key leads to a user of a service: once its proxy is reported
-- closed, the service's visitor has no user for the key, and for other keys the user that it had.
pub on_closed_proxy-Drops :
    (m : GatewayServiceMgr) (service_id user_id : ℕ) (v : TcpGatewayProxyServerVisitor) (key : Text)
    → IsCoherent m
    → get service_id m.service_proxy_visitors ≡ some v
    → user_of v key ≡ some user_id
    → let closed = on_closed_proxy key m in
      (closed.0 ≡ ok tt)
      × ((w : TcpGatewayProxyServerVisitor) × (get service_id closed.1.service_proxy_visitors
            ≡ some w)
          × ((k : Text) → user_of w k ≡ (if text_beq key k then none else user_of v k)))
unfolding on_closed_proxy get_service_proxy
on_closed_proxy-Drops m service_id user_id v key inv e known =
    let own = inv.visitors service_id v e in
    let (b, q, d) = remove_proxy_for_key-Drops (lend m v) key own.1 in
    rw (filed m service_id user_id v key own known, on_closed_proxy)
      (rw (e, on_closed_proxy)
        (rw (q, on_closed_proxy)
          (
            refl,
            (
              (remove_proxy_for_key key (lend m v)).1,
              rw (filed m service_id user_id v key own known)
                  (get-insert_self service_id _ m.service_proxy_visitors),
              d.users,
            ),
          )))
