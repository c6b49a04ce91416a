-- ===== src/Gateway/Visitor/Invariant.antt =====
-- The maps of a visitor agree, and `remove_proxy_for_key` keeps them so.
use trust.Prelude.{
  ℕ, ◌≡◌, ◌↔◌, inl, inr, refl, Bool, true, false, Option, none, some, List, Text, In, same,
  text_beq, text_eq, nat_eq, pair_eq, arith, if◌then◌else◌, Option-cases,
}
use trust.HashMap.{HashMap, get, remove, IsDistinct}
use trust.HashMap.Laws.{get-remove, insert-IsDistinct, remove-IsDistinct}
use trust.Result.{ok}
use trust.Gateway.Visitor.{
  TcpGatewayProxyServerVisitor, ProxyAddrs, remove_proxy_for_key, retain_for_user, retain_others,
}
use trust.Gateway.Visitor.Keys.{keys_of, In-retain_others, keys_of-retain_for_user}

abbrev pub lookup_user : HashMap ProxyAddrs ℕ → Option ProxyAddrs → Option ℕ
lookup_user users none = none
lookup_user users (some addrs) = get addrs users

-- The user of a key, by the two maps that lead there.
abbrev pub user_of : TcpGatewayProxyServerVisitor → Text → Option ℕ
user_of v k = lookup_user v.users_by_proxy_addrs (get k v.proxy_addrs_by_proxy_key)

pub record IsConsistent (v : TcpGatewayProxyServerVisitor) : Type 0 where
  -- The addresses of a key belong to a user.
  pub owned :
      (k : Text) (a : ProxyAddrs)
      → get k v.proxy_addrs_by_proxy_key ≡ some a
      → (u : ℕ) × (get a v.users_by_proxy_addrs ≡ some u)
  -- No two keys have the same addresses.
  pub apart :
      (k j : Text) (a : ProxyAddrs)
      → get k v.proxy_addrs_by_proxy_key ≡ some a
      → get j v.proxy_addrs_by_proxy_key ≡ some a
      → k ≡ j
  -- A user's list has just the keys that lead to the user.
  pub listed : (k : Text) (u : ℕ) → In k (keys_of u v.proxy_keys_by_user) ↔ (user_of v k ≡ some u)
  -- The service manager can find the service of a key.
  pub shared :
      (k : Text) (a : ProxyAddrs)
      → get k v.proxy_addrs_by_proxy_key ≡ some a
      → get k v.services_by_proxy_key ≡ some v.service.service_id
  pub lists_distinct : IsDistinct v.proxy_keys_by_user
  pub users_distinct : IsDistinct v.users_by_proxy_addrs

retain_for_user-IsDistinct :
    (k : Text) (u : ℕ) (m : HashMap ℕ (List Text))
    → IsDistinct m
    → IsDistinct (retain_for_user k u m)
unfolding retain_for_user
retain_for_user-IsDistinct k u m h =
    ground (arith, insert-IsDistinct u (retain_others k (keys_of u m)) m h)

-- The visitor without one key.
abbrev pub without_key :
    TcpGatewayProxyServerVisitor → Text → ProxyAddrs → ℕ → TcpGatewayProxyServerVisitor
without_key v key addrs user_id = record v {
  services_by_proxy_key = remove key v.services_by_proxy_key;
  users_by_proxy_addrs = remove addrs v.users_by_proxy_addrs;
  proxy_addrs_by_proxy_key = remove key v.proxy_addrs_by_proxy_key;
  proxy_keys_by_user = retain_for_user key user_id v.proxy_keys_by_user;
}

module _ (v : TcpGatewayProxyServerVisitor) (inv : IsConsistent v) (key : Text) (addrs : ProxyAddrs)
    (user_id : ℕ) (found : get key v.proxy_addrs_by_proxy_key ≡ some addrs)
    (owner : get addrs v.users_by_proxy_addrs ≡ some user_id) where
  user_of-without_key :
      (k : Text)
      → user_of (without_key v key addrs user_id) k ≡ (if text_beq key k then none else user_of v k)
  user_of-without_key k = elim (Option-cases (get k v.proxy_addrs_by_proxy_key)) [
    | inl e ↦ ground (arith, get-remove key k v.proxy_addrs_by_proxy_key)
    | inr (b, e) ↦ ground (
      arith,
      get-remove key k v.proxy_addrs_by_proxy_key,
      get-remove addrs b v.users_by_proxy_addrs,
      same key k,
      same addrs b,
      inv.apart key k addrs found,
    )
  ]

  without_key-IsConsistent : IsConsistent (without_key v key addrs user_id)
  without_key-IsConsistent = record {
    owned = λ k a h. ground (
      arith,
      get-remove key k v.proxy_addrs_by_proxy_key,
      get-remove addrs a v.users_by_proxy_addrs,
      same key k,
      same addrs a,
      inv.owned k a,
      inv.apart key k addrs found,
    );
    apart = λ k j a hk hj.
        inv.apart k j a (ground (arith, get-remove key k v.proxy_addrs_by_proxy_key))
          (ground (arith, get-remove key j v.proxy_addrs_by_proxy_key));
    listed = λ k u. ground (
      arith,
      user_of-without_key k,
      keys_of-retain_for_user key user_id u v.proxy_keys_by_user,
      In-retain_others k key (keys_of u v.proxy_keys_by_user),
      inv.listed k u,
      same key k,
    );
    shared = λ k a h. ground (
      arith,
      get-remove key k v.proxy_addrs_by_proxy_key,
      get-remove key k v.services_by_proxy_key,
      inv.shared k a,
    );
    lists_distinct = retain_for_user-IsDistinct key user_id v.proxy_keys_by_user inv.lists_distinct;
    users_distinct = remove-IsDistinct addrs v.users_by_proxy_addrs inv.users_distinct;
  }

abbrev pub is_known : Option ℕ → Bool
is_known none = false
is_known (some user_id) = true

-- What a visitor is after one key was dropped from it, and whether the key was there.
pub record Drops (v : TcpGatewayProxyServerVisitor) (key : Text) (w : TcpGatewayProxyServerVisitor)
    (dropped : Bool) : Type 0 where
  pub consistent : IsConsistent w
  pub users : (k : Text) → user_of w k ≡ (if text_beq key k then none else user_of v k)
  pub reported : dropped ≡ is_known (user_of v key)
  pub same_service : w.service ≡ v.service

-- On maps that agree, `remove_proxy_for_key` does not panic. It leaves maps that agree, in which
-- the key leads to no user and every other key to the user that it had, and it reports whether
-- the key was there.
pub remove_proxy_for_key-Drops :
    (v : TcpGatewayProxyServerVisitor) (key : Text)
    → IsConsistent v
    → (dropped : Bool) × ((remove_proxy_for_key key v).0 ≡ ok dropped)
      × Drops v key (remove_proxy_for_key key v).1 dropped
unfolding remove_proxy_for_key
remove_proxy_for_key-Drops v key inv = elim (Option-cases (get key v.proxy_addrs_by_proxy_key)) [
  | inl e ↦ (
    false,
    rw (e, remove_proxy_for_key),
    rw (e, remove_proxy_for_key)
        (record {
          consistent = inv;
          users = λ k. ground (arith, same key k);
          reported = ground arith;
          same_service = refl;
        }),
  )
  | inr (a, e) ↦
      let (u, o) = inv.owned key a e in
      (
        true,
        rw (e, o, remove_proxy_for_key),
        rw (e, o, remove_proxy_for_key)
            (record {
              consistent = without_key-IsConsistent v inv key a u e o;
              users = user_of-without_key v inv key a u e o;
              reported = ground arith;
              same_service = refl;
            }),
      )
]
