-- ===== src/Client/Manager/Startup.antt =====
-- What `startup` makes of the client's service manager.
use trust.Prelude.{
  ℕ, ◌≡◌, inl, inr, refl, none, some, Text, same, text_eq, nat_eq, arith, Option-cases,
}
use trust.HashMap.{get}
use trust.HashMap.Laws.{get-insert, get-insert_self, insert-IsDistinct}
use trust.Channel.{Channel}
use trust.Result.{ok}
use trust.Model.{Service}
use trust.Proxy.Executor.{ProxyExecutorEvent}
use trust.Client.Visitor
use trust.Client.Visitor.Udp
use trust.Client.Manager.{
  ClientServiceMgr, ProxyAddrs, base, new, startup, add_service, new_visitor,
  get_proxy_addrs_for_service,
}
use trust.Client.Manager.Coherent.{IsCoherent, Owns, addrs_of}

pub startup_known :
    (s : Service) (addrs known : ProxyAddrs) (m : ClientServiceMgr)
    → get s.service_id m.service_addrs ≡ some known
    → startup s addrs m ≡ (ok known, m)
unfolding startup
startup_known s addrs known m e = rw (e, startup) refl

pub startup_new :
    (s : Service) (addrs : ProxyAddrs) (m : ClientServiceMgr)
    → get s.service_id m.service_addrs ≡ none
    → startup s addrs m ≡ (ok addrs, add_service s addrs m)
unfolding startup
startup_new s addrs m e = rw (e, startup) refl

-- A service is started once: `startup` never fails and reports the addresses that the service is
-- then known under, and starting it again, with whatever addresses, reports the same and changes
-- nothing.
startup-once :
    (s : Service) (addrs later : ProxyAddrs) (m : ClientServiceMgr)
    → let done = startup s addrs m in
      (known : ProxyAddrs) × (done.0 ≡ ok known)
      × (get_proxy_addrs_for_service s.service_id done.1 ≡ some known)
      × (startup s later done.1 ≡ (ok known, done.1))
unfolding get_proxy_addrs_for_service add_service
startup-once s addrs later m = elim (Option-cases (get s.service_id m.service_addrs)) [
  | inr (known, e) ↦
      rw (startup_known s addrs known m e) (known, refl, e, startup_known s later known m e)
  | inl e ↦
      let h = get-insert_self s.service_id addrs m.service_addrs in
      rw (startup_new s addrs m e) (addrs, refl, h, startup_known s later addrs _ h)
]

new_visitor-base :
    (s : Service) (addrs : ProxyAddrs) (m : ClientServiceMgr)
    → base (new_visitor s addrs m)
      ≡ Visitor.new s addrs.client_port addrs.gateway_host addrs.gateway_port
          m.services_by_proxy_key
unfolding new_visitor Udp.new
new_visitor-base s addrs m = ground arith

new-addrs :
    (s : Service) (addrs : ProxyAddrs) (m : ClientServiceMgr)
    → addrs_of (
        Visitor.new s addrs.client_port addrs.gateway_host addrs.gateway_port
          m.services_by_proxy_key)
      ≡ addrs
unfolding Visitor.new
new-addrs s addrs m = refl

new-service :
    (s : Service) (addrs : ProxyAddrs) (m : ClientServiceMgr)
    → (Visitor.new s addrs.client_port addrs.gateway_host addrs.gateway_port
        m.services_by_proxy_key).service
      ≡ s
unfolding Visitor.new
new-service s addrs m = refl

module _ (s : Service) (addrs : ProxyAddrs) (m : ClientServiceMgr) (inv : IsCoherent m)
    (unknown : get s.service_id m.service_addrs ≡ none) where
  not_started : get s.service_id m.service_proxy_visitors ≡ none
  not_started = ground (arith, inv.addresses s.service_id)

  added_owned :
      (k : Text) (service_id : ℕ)
      → get k m.services_by_proxy_key ≡ some service_id
      → Owns (add_service s addrs m) service_id k
  unfolding add_service
  added_owned k service_id h =
      let (u, f, c) = inv.owned k service_id h in
      (
        u,
        ground (
          arith,
          not_started,
          get-insert s.service_id service_id (new_visitor s addrs m) m.service_proxy_visitors,
          same s.service_id service_id,
        ),
        c,
      )

  add_service-IsCoherent : IsCoherent (add_service s addrs m)
  unfolding add_service
  add_service-IsCoherent = record {
    distinct =
        insert-IsDistinct s.service_id (new_visitor s addrs m) m.service_proxy_visitors
          inv.distinct;
    addresses = λ i. ground (
      arith,
      get-insert s.service_id i addrs m.service_addrs,
      same s.service_id i,
      get-insert s.service_id i (new_visitor s addrs m) m.service_proxy_visitors,
      inv.addresses i,
      new_visitor-base s addrs m,
      new-addrs s addrs m,
    );
    services = λ i u h. ground (
      arith,
      same s.service_id i,
      get-insert s.service_id i (new_visitor s addrs m) m.service_proxy_visitors,
      inv.services i u,
      new_visitor-base s addrs m,
      new-service s addrs m,
    );
    owned = added_owned;
  }

pub startup-IsCoherent :
    (s : Service) (addrs : ProxyAddrs) (m : ClientServiceMgr)
    → IsCoherent m
    → IsCoherent (startup s addrs m).1
startup-IsCoherent s addrs m inv = elim (Option-cases (get s.service_id m.service_addrs)) [
  | inr (known, e) ↦ rw (startup_known s addrs known m e) inv
  | inl e ↦ rw (startup_new s addrs m e) (add_service-IsCoherent s addrs m inv e)
]

pub new-IsCoherent : (tasks : Channel ProxyExecutorEvent) → IsCoherent (new tasks)
unfolding new get
new-IsCoherent tasks = record {
  distinct = tt;
  addresses = λ i. refl;
  services = λ i v h. cc;
  owned = λ k i h. cc;
}

-- Starting a service touches no proxy key.
pub startup-same_keys :
    (s : Service) (addrs : ProxyAddrs) (m : ClientServiceMgr) (k : Text)
    → get k (startup s addrs m).1.services_by_proxy_key ≡ get k m.services_by_proxy_key
unfolding add_service
startup-same_keys s addrs m k = elim (Option-cases (get s.service_id m.service_addrs)) [
  | inr (known, e) ↦ rw (startup_known s addrs known m e) refl
  | inl e ↦ rw (startup_new s addrs m e) refl
]
