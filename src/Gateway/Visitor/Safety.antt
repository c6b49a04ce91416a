-- ===== src/Gateway/Visitor/Safety.antt =====
-- What removals and shutdowns keep, whether or not the proxy executor listens.
use trust.Prelude.{
  ℕ, ◌≡◌, ◌≢◌, inl, inr, refl, Option, some, List, [], ◌∷◌, Text, same, text_eq, nat_eq, arith,
  Bool-cases, Option-cases,
}
use trust.HashMap.{get}
use trust.HashMap.Laws.{get-remove}
use trust.Channel.{Channel, send}
use trust.Result.{Result, ok, panic, Result-cases}
use trust.Gateway.Visitor.{
  TcpGatewayProxyServerVisitor, ProxyExecutorEvent, close, Closing, close_key, close_keys,
  close_lists, key_lists, shutdown_connections, remove_proxy_for_key,
}
use trust.Gateway.Visitor.Invariant.{IsConsistent, remove_proxy_for_key-Drops}
use trust.Gateway.Visitor.Shutdown.{close_keys-cons, close_lists-cons}

-- The visitor is still that of its service, and has touched no other service's key.
pub record Keeps (v w : TcpGatewayProxyServerVisitor) : Type 0 where
  pub same_service : w.service ≡ v.service
  pub elsewhere :
      (k : Text) (other_id : ℕ)
      → get k v.services_by_proxy_key ≡ some other_id
      → other_id ≢ v.service.service_id
      → get k w.services_by_proxy_key ≡ some other_id

pub Keeps-refl : (v : TcpGatewayProxyServerVisitor) → Keeps v v
Keeps-refl v = record { same_service = refl; elsewhere = λ k o h n. h }

pub Keeps-trans : {v w x : TcpGatewayProxyServerVisitor} → Keeps v w → Keeps w x → Keeps v x
Keeps-trans a b = record {
  same_service = ground (arith, a.same_service, b.same_service);
  elsewhere = λ k o h n. ground (arith, a.elsewhere k o h n, b.elsewhere k o, a.same_service);
}

pub remove_proxy_for_key-Keeps :
    (v : TcpGatewayProxyServerVisitor) (key : Text)
    → IsConsistent v
    → Keeps v (remove_proxy_for_key key v).1
unfolding remove_proxy_for_key
remove_proxy_for_key-Keeps v key inv = elim (Option-cases (get key v.proxy_addrs_by_proxy_key)) [
  | inl e ↦ rw (e, remove_proxy_for_key) (Keeps-refl v)
  | inr (a, e) ↦
      let (u, o) = inv.owned key a e in
      rw (e, remove_proxy_for_key)
        (rw (o, remove_proxy_for_key)
          (record {
            same_service = refl;
            elsewhere = λ k o h n.
                ground
                  (arith, get-remove key k v.services_by_proxy_key, same key k, inv.shared key a e);
          }))
]

pub record IsSafe (v : TcpGatewayProxyServerVisitor) (r : Result (Unit {0}) × Closing)
    : Type 0 where
  pub no_panic : r.0 ≢ panic
  pub consistent : IsConsistent r.1.visitor
  pub keeps : Keeps v r.1.visitor

IsSafe-after :
    {v w : TcpGatewayProxyServerVisitor} {r : Result (Unit {0}) × Closing}
    → Keeps v w
    → IsSafe w r
    → IsSafe v r
IsSafe-after a h = record {
  no_panic = h.no_panic;
  consistent = h.consistent;
  keeps = Keeps-trans a h.keeps;
}

close_key-IsSafe :
    (key : Text) (c : Closing) → IsConsistent c.visitor → IsSafe c.visitor (close_key key c)
unfolding close_key
close_key-IsSafe key c inv =
    let (b, e, d) = remove_proxy_for_key-Drops c.visitor key inv in
    elim (Bool-cases (send (close key) c.tasks).0) [
      | inl s ↦
          rw (s, close_key)
            (rw (e, close_key)
              (record {
                no_panic = λ q. cc;
                consistent = d.consistent;
                keeps = remove_proxy_for_key-Keeps c.visitor key inv;
              }))
      | inr s ↦
          rw (s, close_key)
            (record { no_panic = λ q. cc; consistent = inv; keeps = Keeps-refl c.visitor })
    ]

close_keys-IsSafe :
    (keys : List Text) (c : Closing) → IsConsistent c.visitor → IsSafe c.visitor (close_keys keys c)
unfolding close_keys
close_keys-IsSafe [] c inv = record {
  no_panic = λ q. cc;
  consistent = inv;
  keeps = Keeps-refl c.visitor;
}
close_keys-IsSafe (key ∷ keys) c inv =
    let h = close_key-IsSafe key c inv in
    elim (Result-cases (close_key key c).0) [
      | inl (t, e) ↦
          rw (close_keys-cons key keys c e)
            (IsSafe-after h.keeps (close_keys-IsSafe keys (close_key key c).1 h.consistent))
      | inr (inl (x, e)) ↦
          rw (e, close_keys)
            (record { no_panic = λ q. cc; consistent = h.consistent; keeps = h.keeps })
      | inr (inr e) ↦ absurd (h.no_panic e)
    ]

close_lists-IsSafe_ok :
    (keys : List Text) (lists : List (List Text)) (c : Closing) (errors : List Text)
    → (close_keys keys c).0 ≡ ok tt
    → (close_keys keys c).1.errors ≡ errors
    → IsSafe c.visitor (close_keys keys c)
    → IsSafe (close_keys keys c).1.visitor (close_lists lists (close_keys keys c).1)
    → IsSafe c.visitor (close_lists (keys ∷ lists) c)
unfolding close_lists
close_lists-IsSafe_ok keys lists c [] e n h k =
    rw (close_lists-cons keys lists c e n) (IsSafe-after h.keeps k)
close_lists-IsSafe_ok keys lists c (x ∷ xs) e n h k =
    rw (e, close_lists)
      (rw (n, close_lists)
        (record { no_panic = λ q. cc; consistent = h.consistent; keeps = h.keeps }))

close_lists-IsSafe :
    (lists : List (List Text)) (c : Closing)
    → IsConsistent c.visitor
    → IsSafe c.visitor (close_lists lists c)
unfolding close_lists
close_lists-IsSafe [] c inv = record {
  no_panic = λ q. cc;
  consistent = inv;
  keeps = Keeps-refl c.visitor;
}
close_lists-IsSafe (keys ∷ lists) c inv =
    let h = close_keys-IsSafe keys c inv in
    let k = close_lists-IsSafe lists (close_keys keys c).1 h.consistent in
    elim (Result-cases (close_keys keys c).0) [
      | inl (t, e) ↦ close_lists-IsSafe_ok keys lists c (close_keys keys c).1.errors e refl h k
      | inr (inl (x, e)) ↦
          rw (e, close_lists)
            (record { no_panic = λ q. cc; consistent = h.consistent; keeps = h.keeps })
      | inr (inr e) ↦ absurd (h.no_panic e)
    ]

pub shutdown_connections-IsSafe :
    (user_id : Option ℕ) (v : TcpGatewayProxyServerVisitor) (tasks : Channel ProxyExecutorEvent)
    → IsConsistent v
    → IsSafe v (shutdown_connections user_id v tasks)
unfolding shutdown_connections
shutdown_connections-IsSafe user_id v tasks inv =
    close_lists-IsSafe (key_lists user_id v.proxy_keys_by_user)
      (record { visitor = v; tasks = tasks; errors = [] }) inv
