-- ===== src/Client/Manager/Coherent.antt =====
-- The client's visitors, their addresses, and the map of proxy keys that they share.
use trust.Prelude.{
  ℕ, ◌≡◌, ◌⊎◌, inl, inr, refl, true, Option, none, some, Text, same, text_eq, nat_eq, arith,
  Bool-cases, ◌==◌,
}
use trust.HashMap.{get, insert, contains_key, IsDistinct}
use trust.HashMap.Laws.{get-insert, get-insert_self, insert-IsDistinct}
use trust.Client.Visitor.{TcpClientProxyServerVisitor}
use trust.Client.Manager.{
  ClientServiceMgr, ClientServiceProxyVisitor, ProxyAddrs, base, with_base, lend, take_back,
  tcp_visitor, udp_visitor,
}

-- The addresses that a visitor was made with.
abbrev pub addrs_of : TcpClientProxyServerVisitor → ProxyAddrs
addrs_of v = record {
  client_port = v.client_proxy_port;
  gateway_host = v.gateway_proxy_host;
  gateway_port = v.gateway_proxy_port;
}

abbrev pub known_addrs : Option ClientServiceProxyVisitor → Option ProxyAddrs
known_addrs none = none
known_addrs (some v) = some (addrs_of (base v))

-- The service has a visitor, and the visitor has the key.
abbrev pub Owns : ClientServiceMgr → ℕ → Text → Type 0
Owns m service_id k =
    (v : ClientServiceProxyVisitor) × (get service_id m.service_proxy_visitors ≡ some v)
    × (contains_key k (base v).proxy_keys ≡ true)

pub record IsCoherent (m : ClientServiceMgr) : Type 0 where
  pub distinct : IsDistinct m.service_proxy_visitors
  pub addresses :
      (service_id : ℕ)
      → get service_id m.service_addrs ≡ known_addrs (get service_id m.service_proxy_visitors)
  pub services :
      (service_id : ℕ) (v : ClientServiceProxyVisitor)
      → get service_id m.service_proxy_visitors ≡ some v
      → (base v).service.service_id ≡ service_id
  pub owned :
      (k : Text) (service_id : ℕ)
      → get k m.services_by_proxy_key ≡ some service_id
      → Owns m service_id k

-- What a visitor's method leaves: a key of the shared map is the visitor's own, or was there before
-- and, if the visitor had it, is still the visitor's.
pub record Visits (a b : TcpClientProxyServerVisitor) : Type 0 where
  pub same_service : b.service ≡ a.service
  pub same_addrs : addrs_of b ≡ addrs_of a
  pub keeps :
      (k : Text) (service_id : ℕ)
      → get k b.services_by_proxy_key ≡ some service_id
      → ((a.service.service_id ≡ service_id) × (contains_key k b.proxy_keys ≡ true))
        ⊎ ((get k a.services_by_proxy_key ≡ some service_id)
            × (contains_key k a.proxy_keys ≡ true → contains_key k b.proxy_keys ≡ true))

pub base-with_base :
    (v : ClientServiceProxyVisitor) (b : TcpClientProxyServerVisitor) → base (with_base v b) ≡ b
base-with_base (tcp_visitor v) b = refl
base-with_base (udp_visitor v) b = refl

module _ (m : ClientServiceMgr) (service_id : ℕ) (v w : ClientServiceProxyVisitor)
    (inv : IsCoherent m) (here : get service_id m.service_proxy_visitors ≡ some v)
    (visits : Visits (lend m v) (base w)) where
  visited-same : (base w).service.service_id ≡ service_id
  visited-same = ground (arith, visits.same_service, inv.services service_id v here)

  visited_addresses :
      (other_id : ℕ)
      → get other_id m.service_addrs
        ≡ known_addrs (get other_id (insert service_id w m.service_proxy_visitors))
  visited_addresses other_id = ground (
    arith,
    get-insert service_id other_id w m.service_proxy_visitors,
    same service_id other_id,
    inv.addresses other_id,
    here,
    visits.same_addrs,
  )

  visited_services :
      (other_id : ℕ) (u : ClientServiceProxyVisitor)
      → get other_id (insert service_id w m.service_proxy_visitors) ≡ some u
      → (base u).service.service_id ≡ other_id
  visited_services other_id u h = ground (
    arith,
    get-insert service_id other_id w m.service_proxy_visitors,
    same service_id other_id,
    inv.services other_id u,
    visited-same,
  )

  visited_owned :
      (k : Text) (other_id : ℕ)
      → get k (base w).services_by_proxy_key ≡ some other_id
      → Owns (take_back service_id w m) other_id k
  visited_owned k other_id h = elim (visits.keeps k other_id h) [
    | inl (e, c) ↦ (
      w,
      ground (
        arith,
        get-insert_self service_id w m.service_proxy_visitors,
        inv.services service_id v here,
      ),
      c,
    )
    | inr (e, c) ↦
        let (u, f, d) = inv.owned k other_id e in
        elim (Bool-cases (service_id == other_id)) [
          | inl q ↦ (
            w,
            ground (arith, get-insert_self service_id w m.service_proxy_visitors),
            c (ground (arith, here, f, d)),
          )
          | inr q ↦
              (u, ground (arith, get-insert service_id other_id w m.service_proxy_visitors, f), d)
        ]
  ]

  pub take_back-IsCoherent : IsCoherent (take_back service_id w m)
  take_back-IsCoherent = record {
    distinct = insert-IsDistinct service_id w m.service_proxy_visitors inv.distinct;
    addresses = visited_addresses;
    services = visited_services;
    owned = visited_owned;
  }
