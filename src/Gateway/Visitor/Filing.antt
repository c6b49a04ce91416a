-- ===== src/Gateway/Visitor/Filing.antt =====
-- What is filed of a new connection keeps the visitor's maps in agreement.
use trust.Prelude.{
  ℕ, ◌≡◌, ◌≢◌, inl, inr, refl, Option, none, some, List, [], ◌∷◌, ◌++◌, ◌∙◌, Text, same, text_beq,
  text_eq, nat_eq, pair_eq, arith, if◌then◌else◌, Option-cases, Bool-cases,
}
use trust.HashMap.{HashMap, get, insert, IsDistinct}
use trust.HashMap.Laws.{get-insert, insert-IsDistinct}
use trust.Channel.{Channel, send}
use trust.Result.{Result, ok, err, panic}
use trust.Model.{Service}
use trust.Gateway.Visitor.{
  TcpGatewayProxyServerVisitor, ProxyAddrs, ProxyExecutorEvent, new, push_for_user,
}
use trust.Gateway.Visitor.Keys.{keys_of, In-snoc, keys_of-push_for_user}
use trust.Gateway.Visitor.Invariant.{IsConsistent, user_of}
use trust.Gateway.Visitor.Accept.{TcpStream, create_proxy_addrs, file_user, file_proxy, open_proxy}
use trust.Alpn.{Protocol}
use trust.Repository.ServiceRepo.{ServiceRepo}
use trust.Gateway.Authorization.{ClientConnVisitor}

abbrev pub file_addrs : ProxyAddrs → ℕ → TcpGatewayProxyServerVisitor → TcpGatewayProxyServerVisitor
file_addrs addrs user_id v = record v {
  users_by_proxy_addrs = insert addrs user_id v.users_by_proxy_addrs;
}

-- No key that is filed has the address pair. (A key is filed until its proxy is reported as closed or
-- shut down: longer than its connection, where the proxy could not be connected.)
abbrev pub IsFreeAddrs : TcpGatewayProxyServerVisitor → ProxyAddrs → Type 0
IsFreeAddrs v addrs = (k : Text) → get k v.proxy_addrs_by_proxy_key ≢ some addrs

user_of-file_addrs :
    (v : TcpGatewayProxyServerVisitor) (addrs : ProxyAddrs) (user_id : ℕ) (k : Text)
    → IsFreeAddrs v addrs
    → user_of (file_addrs addrs user_id v) k ≡ user_of v k
user_of-file_addrs v addrs user_id k free = elim (Option-cases (get k v.proxy_addrs_by_proxy_key)) [
  | inl e ↦ rw e
  | inr (b, e) ↦
      ground (arith, get-insert addrs b user_id v.users_by_proxy_addrs, same addrs b, free k)
]

file_addrs-IsConsistent :
    (v : TcpGatewayProxyServerVisitor) (addrs : ProxyAddrs) (user_id : ℕ)
    → IsConsistent v
    → IsFreeAddrs v addrs
    → IsConsistent (file_addrs addrs user_id v)
file_addrs-IsConsistent v addrs user_id inv free = record {
  owned =
      λ k a h. ground (arith, get-insert addrs a user_id v.users_by_proxy_addrs, inv.owned k a h);
  apart = inv.apart;
  listed = λ k u. ground (arith, user_of-file_addrs v addrs user_id k free, inv.listed k u);
  shared = inv.shared;
  lists_distinct = inv.lists_distinct;
  users_distinct = insert-IsDistinct addrs user_id v.users_by_proxy_addrs inv.users_distinct;
}

push_for_user-IsDistinct :
    (k : Text) (u : ℕ) (m : HashMap ℕ (List Text)) → IsDistinct m → IsDistinct (push_for_user k u m)
unfolding push_for_user
push_for_user-IsDistinct k u m h =
    ground
      (arith, insert-IsDistinct u (k ∷ []) m h, insert-IsDistinct u (keys_of u m ++ k ∷ []) m h)

module _ (v : TcpGatewayProxyServerVisitor) (inv : IsConsistent v) (key : Text) (addrs : ProxyAddrs)
    (user_id : ℕ) (unused : get key v.proxy_addrs_by_proxy_key ≡ none) (free : IsFreeAddrs v addrs)
    (owner : get addrs v.users_by_proxy_addrs ≡ some user_id) where
  abbrev with_key : TcpGatewayProxyServerVisitor
  with_key = record v {
    services_by_proxy_key = insert key v.service.service_id v.services_by_proxy_key;
    proxy_addrs_by_proxy_key = insert key addrs v.proxy_addrs_by_proxy_key;
    proxy_keys_by_user = push_for_user key user_id v.proxy_keys_by_user;
  }

  user_of-with_key :
      (k : Text) → user_of with_key k ≡ (if text_beq key k then some user_id else user_of v k)
  user_of-with_key k = ground (arith, get-insert key k addrs v.proxy_addrs_by_proxy_key)

  with_key-IsConsistent : IsConsistent with_key
  with_key-IsConsistent = record {
    owned = λ k a h. elim (Bool-cases (text_beq key k)) [
      | inl e ↦ (user_id, ground (arith, get-insert key k addrs v.proxy_addrs_by_proxy_key))
      | inr e ↦ inv.owned k a (ground (arith, get-insert key k addrs v.proxy_addrs_by_proxy_key))
    ];
    apart = λ k j a hk hj. ground (
      arith,
      get-insert key k addrs v.proxy_addrs_by_proxy_key,
      get-insert key j addrs v.proxy_addrs_by_proxy_key,
      same key k,
      same key j,
      free k,
      free j,
      inv.apart k j a,
    );
    listed = λ k u. ground (
      arith,
      user_of-with_key k,
      keys_of-push_for_user key user_id u v.proxy_keys_by_user,
      In-snoc k key (keys_of u v.proxy_keys_by_user),
      inv.listed k u,
      same key k,
    );
    shared = λ k a h. ground (
      arith,
      get-insert key k addrs v.proxy_addrs_by_proxy_key,
      get-insert key k v.service.service_id v.services_by_proxy_key,
      inv.shared k a,
    );
    lists_distinct = push_for_user-IsDistinct key user_id v.proxy_keys_by_user inv.lists_distinct;
    users_distinct = inv.users_distinct;
  }

pub new-IsConsistent :
    (s : Service) (host : Option Text) (port : ℕ) (services : HashMap Text ℕ)
    → IsConsistent (new s host port services)
unfolding new get
new-IsConsistent s host port services = record {
  owned = λ k a h. cc;
  apart = λ k j a h i. cc;
  listed = λ k u. ground arith;
  shared = λ k a h. cc;
  lists_distinct = tt;
  users_distinct = tt;
}

pub file_user-IsConsistent :
    (repo : ServiceRepo) (sock : TcpStream) (r : Result Protocol × ClientConnVisitor)
    (v : TcpGatewayProxyServerVisitor)
    → IsConsistent v
    → IsFreeAddrs v (create_proxy_addrs sock)
    → IsConsistent (file_user repo sock r v).1
unfolding file_user
file_user-IsConsistent repo sock (ok protocol, c) v inv free = elim (Option-cases c.user) [
  | inl e ↦ rw (e, file_user) inv
  | inr (user, e) ↦ rw (e, file_user) (file_addrs-IsConsistent v _ user.user_id inv free)
]
file_user-IsConsistent repo sock (err e, c) v inv free = inv
file_user-IsConsistent repo sock (panic, c) v inv free = inv

-- A service filed under an unused key is seen by no lookup that the maps make.
pub with_service-IsConsistent :
    (v : TcpGatewayProxyServerVisitor) (services : HashMap Text ℕ)
    → IsConsistent v
    → ((k : Text) (a : ProxyAddrs)
        → get k v.proxy_addrs_by_proxy_key ≡ some a
        → get k services ≡ get k v.services_by_proxy_key)
    → IsConsistent (record v { services_by_proxy_key = services })
with_service-IsConsistent v services inv same_there = record {
  owned = inv.owned;
  apart = inv.apart;
  listed = inv.listed;
  shared = λ k a h. same_there k a h ∙ inv.shared k a h;
  lists_distinct = inv.lists_distinct;
  users_distinct = inv.users_distinct;
}

pub file_proxy-IsConsistent :
    (debug : ProxyAddrs → Text) (key : Text) (addrs : ProxyAddrs) (v : TcpGatewayProxyServerVisitor)
    → IsConsistent v
    → get key v.proxy_addrs_by_proxy_key ≡ none
    → IsFreeAddrs v addrs
    → IsConsistent (file_proxy debug key addrs v).1
unfolding file_proxy
file_proxy-IsConsistent debug key addrs v inv unused free =
    elim (Option-cases (get addrs v.users_by_proxy_addrs)) [
      | inl e ↦
          rw (e, file_proxy)
            (with_service-IsConsistent v _ inv λ k a h.
              ground
                (arith, get-insert key k v.service.service_id v.services_by_proxy_key, same key k))
      | inr (user_id, e) ↦
          rw (e, file_proxy) (with_key-IsConsistent v inv key addrs user_id unused free e)
    ]

-- The address pair of the new socket is that of no key of the visitor that is still filed, and the key
-- that is made, if one is, is not filed yet.
pub record IsNew (prepared : Result Text) (sock : TcpStream) (v : TcpGatewayProxyServerVisitor)
    : Type 0 where
  pub free_addrs : IsFreeAddrs v (create_proxy_addrs sock)
  pub free_key : (key : Text) → prepared ≡ ok key → get key v.proxy_addrs_by_proxy_key ≡ none

pub open_proxy-IsConsistent :
    (request : Text → ProxyExecutorEvent) (debug : ProxyAddrs → Text) (sock : TcpStream)
    (prepared : Result Text) (v : TcpGatewayProxyServerVisitor) (tasks : Channel ProxyExecutorEvent)
    → IsConsistent v
    → IsNew prepared sock v
    → IsConsistent (open_proxy request debug (create_proxy_addrs sock) prepared v tasks).1
unfolding open_proxy
open_proxy-IsConsistent request debug sock (err e) v tasks inv fresh = inv
open_proxy-IsConsistent request debug sock panic v tasks inv fresh = inv
open_proxy-IsConsistent request debug sock (ok key) v tasks inv fresh =
    elim (Bool-cases (send (request key) tasks).0) [
      | inl s ↦
          rw (s, open_proxy)
            (file_proxy-IsConsistent debug key _ v inv (fresh.free_key key refl) fresh.free_addrs)
      | inr s ↦ rw (s, open_proxy) inv
    ]
