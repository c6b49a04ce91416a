-- ===== src/Gateway/Visitor/Shutdown.antt =====
-- What `shutdown_connections` does when the proxy executor listens.
use trust.Prelude.{
  ℕ, ◌≡◌, ◌↔◌, ◌∙◌, inl, inr, refl, Bool, true, false, ◌||◌, ◌&&◌, Option, none, some, List, [],
  ◌∷◌, ◌++◌, map, Text, In, same, text_beq, text_eq, nat_eq, arith, if◌then◌else◌, Bool-cases,
  append_assoc, append-nil, Option-cases,
}
use trust.HashMap.{HashMap, get, HasEntry}
use trust.HashMap.Laws.{get-HasEntry, HasEntry-get}
use trust.Channel.{Channel, IsOpen, accept, send-IsOpen}
use trust.Result.{ok}
use trust.Gateway.Visitor.{
  TcpGatewayProxyServerVisitor, ProxyExecutorEvent, close, Closing, close_key, close_keys,
  close_lists, key_lists, concerns, shutdown_connections, remove_proxy_for_key,
}
use trust.Gateway.Visitor.Keys.{or_nil}
use trust.Gateway.Visitor.Invariant.{IsConsistent, user_of, remove_proxy_for_key-Drops}

abbrev pub contains : Text → List Text → Bool
contains k [] = false
contains k (j ∷ keys) = text_beq j k || contains k keys

abbrev pub contains_any : Text → List (List Text) → Bool
contains_any k [] = false
contains_any k (keys ∷ lists) = contains k keys || contains_any k lists

abbrev pub closes : List Text → List ProxyExecutorEvent
closes = map close

abbrev pub closes_all : List (List Text) → List ProxyExecutorEvent
closes_all [] = []
closes_all (keys ∷ lists) = closes keys ++ closes_all lists

-- The loops go on from such a state.
pub record IsGoing (c : Closing) : Type 0 where
  pub consistent : IsConsistent c.visitor
  pub listening : IsOpen c.tasks
  pub no_errors : c.errors ≡ []

-- The state after the keys that a test picks were closed, with the messages that were sent.
pub record Closes (c : Closing) (picked : Text → Bool) (sent : List ProxyExecutorEvent)
    (d : Closing) : Type 0 where
  pub going : IsGoing d
  pub users : (k : Text) → user_of d.visitor k ≡ (if picked k then none else user_of c.visitor k)
  pub messages : d.tasks.sent ≡ c.tasks.sent ++ sent
  pub same_service : d.visitor.service ≡ c.visitor.service

close_key_lem :
    (key : Text) (c : Closing) (b : Bool)
    → IsOpen c.tasks
    → (remove_proxy_for_key key c.visitor).0 ≡ ok b
    → close_key key c ≡ (
      ok tt,
      record c {
        visitor = (remove_proxy_for_key key c.visitor).1;
        tasks = accept (close key) c.tasks;
      },
    )
unfolding close_key
close_key_lem key c b listening e = ground (arith, send-IsOpen (close key) c.tasks listening)

close_key-Closes :
    (key : Text) (c : Closing)
    → IsGoing c
    → ((close_key key c).0 ≡ ok tt)
      × Closes c (λ k. text_beq key k) (close key ∷ []) (close_key key c).1
close_key-Closes key c g =
    let (b, e, d) = remove_proxy_for_key-Drops c.visitor key g.consistent in
    rw (close_key_lem key c b g.listening e) (
      refl,
      record {
        going = record {
          consistent = d.consistent;
          listening = g.listening;
          no_errors = g.no_errors;
        };
        users = d.users;
        messages = refl;
        same_service = d.same_service;
      },
    )

Closes-trans :
    {c d f : Closing} {p q : Text → Bool} {xs ys : List ProxyExecutorEvent}
    → Closes c p xs d
    → Closes d q ys f
    → Closes c (λ k. p k || q k) (xs ++ ys) f
Closes-trans {c} {d} {f} {p} {q} {xs} {ys} a b = record {
  going = b.going;
  users = λ k. ground (arith, a.users k, b.users k);
  messages = b.messages ∙ rw a.messages (append_assoc c.tasks.sent xs ys);
  same_service = b.same_service ∙ a.same_service;
}

Closes-none : (c : Closing) → IsGoing c → Closes c (λ k. false) [] c
Closes-none c g = record {
  going = g;
  users = λ k. refl;
  messages = rw append-nil;
  same_service = refl;
}

pub close_keys-cons :
    (key : Text) (keys : List Text) (c : Closing)
    → (close_key key c).0 ≡ ok tt
    → close_keys (key ∷ keys) c ≡ close_keys keys (close_key key c).1
unfolding close_keys
close_keys-cons key keys c e = ground arith

close_keys-Closes :
    (keys : List Text) (c : Closing)
    → IsGoing c
    → ((close_keys keys c).0 ≡ ok tt)
      × Closes c (λ k. contains k keys) (closes keys) (close_keys keys c).1
unfolding close_keys
close_keys-Closes [] c g = (refl, Closes-none c g)
close_keys-Closes (key ∷ keys) c g =
    let (e, h) = close_key-Closes key c g in
    let (e', h') = close_keys-Closes keys (close_key key c).1 h.going in
    rw (close_keys-cons key keys c e) (e', Closes-trans h h')

pub close_lists-cons :
    (keys : List Text) (lists : List (List Text)) (c : Closing)
    → (close_keys keys c).0 ≡ ok tt
    → (close_keys keys c).1.errors ≡ []
    → close_lists (keys ∷ lists) c ≡ close_lists lists (close_keys keys c).1
unfolding close_lists
close_lists-cons keys lists c e n = ground arith

close_lists-Closes :
    (lists : List (List Text)) (c : Closing)
    → IsGoing c
    → ((close_lists lists c).0 ≡ ok tt)
      × Closes c (λ k. contains_any k lists) (closes_all lists) (close_lists lists c).1
unfolding close_lists
close_lists-Closes [] c g = (refl, Closes-none c g)
close_lists-Closes (keys ∷ lists) c g =
    let (e, h) = close_keys-Closes keys c g in
    let (e', h') = close_lists-Closes lists (close_keys keys c).1 h.going in
    rw (close_lists-cons keys lists c e h.going.no_errors) (e', Closes-trans h h')

contains_iff : (k : Text) (keys : List Text) → (contains k keys ≡ true) ↔ In k keys
contains_iff k [] = ground arith
contains_iff k (j ∷ keys) = ground (arith, same j k, contains_iff k keys)

-- A key is in one of the picked lists just if an entry that is picked holds it.
contains_any-HasEntry :
    (k : Text) (user_id : Option ℕ) (u : ℕ) (keys : List Text) (m : HashMap ℕ (List Text))
    → HasEntry u keys m
    → concerns user_id u ≡ true
    → In k keys
    → contains_any k (key_lists user_id m) ≡ true
unfolding key_lists
contains_any-HasEntry k user_id u keys [] h c i = absurd h
contains_any-HasEntry k user_id u keys ((w, ks) ∷ m) (inl h) c i = ground (arith, contains_iff k ks)
contains_any-HasEntry k user_id u keys ((w, ks) ∷ m) (inr h) c i =
    ground (arith, contains_any-HasEntry k user_id u keys m h c i)

HasEntry-contains_any :
    (k : Text) (user_id : Option ℕ) (m : HashMap ℕ (List Text))
    → contains_any k (key_lists user_id m) ≡ true
    → (u : ℕ) × (keys : List Text) × HasEntry u keys m × (concerns user_id u ≡ true) × In k keys
unfolding key_lists
HasEntry-contains_any k user_id [] h = cc
HasEntry-contains_any k user_id ((w, ks) ∷ m) h =
    elim (Bool-cases (concerns user_id w && contains k ks)) [
      | inl e ↦ (w, ks, inl (refl, refl), ground arith, ground (arith, contains_iff k ks))
      | inr e ↦
          let (u, keys, i, c, j) = HasEntry-contains_any k user_id m (ground arith) in
          (u, keys, inr i, c, j)
    ]

-- The user that a key keeps when the connections of some users are shut down.
abbrev pub keep : Option ℕ → Option ℕ → Option ℕ
keep user_id none = none
keep user_id (some u) = if concerns user_id u then none else some u

module _ (v : TcpGatewayProxyServerVisitor) (user_id : Option ℕ) (k : Text)
    (inv : IsConsistent v) where
  picked_user :
      contains_any k (key_lists user_id v.proxy_keys_by_user) ≡ true
      → (u : ℕ) × (user_of v k ≡ some u) × (concerns user_id u ≡ true)
  picked_user h =
      let (u, keys, entry, c, i) = HasEntry-contains_any k user_id v.proxy_keys_by_user h in
      let found = HasEntry-get u keys v.proxy_keys_by_user inv.lists_distinct entry in
      (u, (inv.listed k u).0 (rw found i), c)

  picked_of_user :
      (u : ℕ)
      → user_of v k ≡ some u
      → concerns user_id u ≡ true
      → contains_any k (key_lists user_id v.proxy_keys_by_user) ≡ true
  picked_of_user u h c = go (get u v.proxy_keys_by_user) refl ((inv.listed k u).1 h)
    where
      go :
          (o : Option (List Text))
          → get u v.proxy_keys_by_user ≡ o
          → In k (or_nil o)
          → contains_any k (key_lists user_id v.proxy_keys_by_user) ≡ true
      go none e i = absurd i
      go (some keys) e i =
          contains_any-HasEntry k user_id u keys v.proxy_keys_by_user
            (get-HasEntry u keys v.proxy_keys_by_user e) c i

  picked-keep :
      (if contains_any k (key_lists user_id v.proxy_keys_by_user) then none else user_of v k)
      ≡ keep user_id (user_of v k)
  picked-keep = elim (Bool-cases (contains_any k (key_lists user_id v.proxy_keys_by_user))) [
    | inl e ↦ let (u, h, c) = picked_user e in rw (e, h, c)
    | inr e ↦ elim (Option-cases (user_of v k)) [
      | inl h ↦ rw (e, h)
      | inr (u, h) ↦ ground (arith, picked_of_user u h)
    ]
  ]

-- While the proxy executor listens and the visitor's maps agree, `shutdown_connections` succeeds.
-- It asks the executor to close just the keys listed for the users concerned, in the lists' order;
-- afterwards those users' keys lead nowhere, all other keys lead to the user that they had, and the
-- maps agree.
pub shutdown_connections-Closes :
    (user_id : Option ℕ) (v : TcpGatewayProxyServerVisitor) (tasks : Channel ProxyExecutorEvent)
    → IsConsistent v
    → IsOpen tasks
    → let done = shutdown_connections user_id v tasks in
      (done.0 ≡ ok tt)
      × IsConsistent done.1.visitor
      × ((k : Text) → user_of done.1.visitor k ≡ keep user_id (user_of v k))
      × (done.1.tasks.sent ≡ tasks.sent ++ closes_all (key_lists user_id v.proxy_keys_by_user))
unfolding shutdown_connections
shutdown_connections-Closes user_id v tasks inv listening =
    let (e, h) =
      close_lists-Closes (key_lists user_id v.proxy_keys_by_user)
        (record { visitor = v; tasks = tasks; errors = [] })
        (record { consistent = inv; listening = listening; no_errors = refl }) in
    (e, h.going.consistent, λ k. h.users k ∙ picked-keep v user_id k inv, h.messages)
