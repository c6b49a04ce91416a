-- ===== src/Gateway/Visitor.antt =====
-- crates/gateway/src/service/proxy/tcp_proxy.rs: the connections of one service. The visitor of a UDP
-- service, in udp_proxy.rs, has the same fields and methods but for `on_conn_accepted`. The map
-- `services_by_proxy_key` is shared with the service manager and the other services' visitors: a
-- method is given its present content in the field, and leaves the new content there.
pub mod Keys
pub mod Invariant
pub mod Shutdown
pub mod Safety
pub mod Accept
pub mod AcceptUdp
pub mod Filing
pub mod History
use trust.Prelude.{
  ℕ, ◌≡◌, Bool, true, false, Option, none, some, List, [], ◌∷◌, ◌++◌, Text, codes, ◌==◌, ◌||◌,
  text_beq, nat_eq, text_eq, pair_eq, if◌then◌else◌, inl, inr, ◌⊎◌,
}
pub use trust.Proxy.Executor.{
  ProxyExecutorEvent, open_channel_and_tcp_proxy, open_tcp_and_tcp_proxy, open_tcp_and_udp_proxy,
  close,
}
use trust.HashMap.{HashMap, get, insert, remove}
use trust.AppError.{AppError, ForeignError, general, gen_with_msg_and_err}
use trust.Channel.{Channel, send, send_error}
use trust.Result.{Result, ok, err, panic}
use trust.Model.{Service}

-- The printed addresses of the client and of the gateway.
abbrev pub ProxyAddrs : Type 0
ProxyAddrs = Text × Text

pub record TcpGatewayProxyServerVisitor : Type 0 where
  pub service : Service
  pub proxy_host : Option Text
  pub proxy_port : ℕ
  pub services_by_proxy_key : HashMap Text ℕ
  pub users_by_proxy_addrs : HashMap ProxyAddrs ℕ
  pub proxy_addrs_by_proxy_key : HashMap Text ProxyAddrs
  pub proxy_keys_by_user : HashMap ℕ (List Text)

abbrev Visitor : Type 0
Visitor = TcpGatewayProxyServerVisitor

-- `TcpGatewayProxyServerVisitor::new`.
unfoldable pub new : Service → Option Text → ℕ → HashMap Text ℕ → TcpGatewayProxyServerVisitor
new service proxy_host proxy_port services_by_proxy_key = record {
  service = service;
  proxy_host = proxy_host;
  proxy_port = proxy_port;
  services_by_proxy_key = services_by_proxy_key;
  users_by_proxy_addrs = [];
  proxy_addrs_by_proxy_key = [];
  proxy_keys_by_user = [];
}

-- `retain(|key| !key.eq(proxy_key))`.
unfoldable pub retain_others : Text → List Text → List Text
retain_others proxy_key [] = []
retain_others proxy_key (key ∷ keys) =
    let rest = retain_others proxy_key keys in if text_beq key proxy_key then rest else key ∷ rest

-- `if let Some(proxy_keys) = proxy_keys_by_user.get_mut(user_id) { proxy_keys.retain(…) }`.
unfoldable pub retain_for_user : Text → ℕ → HashMap ℕ (List Text) → HashMap ℕ (List Text)
unfolding retain_others
retain_for_user proxy_key user_id m = elim (get user_id m) [
  | none ↦ m
  | some keys ↦ insert user_id (retain_others proxy_key keys) m
]

-- The user's keys with one more at the end.
unfoldable pub push_for_user : Text → ℕ → HashMap ℕ (List Text) → HashMap ℕ (List Text)
push_for_user proxy_key user_id m = elim (get user_id m) [
  | none ↦ insert user_id (proxy_key ∷ []) m
  | some keys ↦ insert user_id (keys ++ proxy_key ∷ []) m
]

-- `remove_proxy_for_key`. The lookup of the user is unwrapped.
unfoldable pub remove_proxy_for_key :
    Text → TcpGatewayProxyServerVisitor → Result Bool × TcpGatewayProxyServerVisitor
unfolding retain_for_user
remove_proxy_for_key proxy_key v = elim (get proxy_key v.proxy_addrs_by_proxy_key) [
  | none ↦ (ok false, v)
  | some proxy_addrs ↦ elim (get proxy_addrs v.users_by_proxy_addrs) [
    | none ↦ (panic, v)
    | some user_id ↦ (
      ok true,
      record v {
        services_by_proxy_key = remove proxy_key v.services_by_proxy_key;
        users_by_proxy_addrs = remove proxy_addrs v.users_by_proxy_addrs;
        proxy_addrs_by_proxy_key = remove proxy_key v.proxy_addrs_by_proxy_key;
        proxy_keys_by_user = retain_for_user proxy_key user_id v.proxy_keys_by_user;
      },
    )
  ]
]

-- `get_proxy_addrs_for_user`.
unfoldable pub addrs_of : ℕ → HashMap ProxyAddrs ℕ → List ProxyAddrs
addrs_of user_id [] = []
addrs_of user_id ((addrs, uid) ∷ m) =
    let rest = addrs_of user_id m in if user_id == uid then addrs ∷ rest else rest

unfoldable pub get_proxy_addrs_for_user : ℕ → TcpGatewayProxyServerVisitor → List ProxyAddrs
unfolding addrs_of
get_proxy_addrs_for_user user_id v = addrs_of user_id v.users_by_proxy_addrs

-- The users that a call is about: all, or one.
abbrev pub concerns : Option ℕ → ℕ → Bool
concerns none uid = true
concerns (some user_id) uid = uid == user_id

unfoldable pub key_lists : Option ℕ → HashMap ℕ (List Text) → List (List Text)
key_lists user_id [] = []
key_lists user_id ((uid, keys) ∷ m) =
    let rest = key_lists user_id m in if concerns user_id uid then keys ∷ rest else rest

abbrev pub close_error : Text → Text
close_error proxy_key =
    codes "Error while sending request to close a TCP proxy connection: proxy_stream="
    ++ (proxy_key ++ (codes ", err=" ++ send_error.debug))

-- What the loops of `shutdown_connections` change: the visitor, the channel, and the error texts.
pub record Closing : Type 0 where
  pub visitor : TcpGatewayProxyServerVisitor
  pub tasks : Channel ProxyExecutorEvent
  pub errors : List Text

-- One round of the inner loop; what `remove_proxy_for_key` returns is ignored.
unfoldable pub close_key : Text → Closing → Result (Unit {0}) × Closing
close_key proxy_key c =
    let sent = send (close proxy_key) c.tasks in
    if sent.0
    then (let removed = remove_proxy_for_key proxy_key c.visitor in
        elim removed.0 [
          | panic ↦ (panic, record c { visitor = removed.1; tasks = sent.1 })
          | _ ↦ (ok tt, record c { visitor = removed.1; tasks = sent.1 })
        ])
    else (ok tt, record c { errors = c.errors ++ close_error proxy_key ∷ [] })

unfoldable pub close_keys : List Text → Closing → Result (Unit {0}) × Closing
close_keys [] c = (ok tt, c)
close_keys (key ∷ keys) c =
    let next = close_key key c in
    let rest = close_keys keys next.1 in
    elim next.0 [ ok t ↦ rest | err e ↦ (err e, next.1) | panic ↦ (panic, next.1) ]

-- `join`.
unfoldable pub join : Text → List Text → Text
join separator [] = []
join separator (s ∷ []) = s
join separator (s ∷ t ∷ ts) = s ++ (separator ++ join separator (t ∷ ts))

abbrev pub closing_failed : List Text → AppError
closing_failed errors =
    general (codes "Errors closing proxy connection(s), err=" ++ join (codes ", ") errors)

-- The outer loop, which stops after a list that had an error.
unfoldable pub close_lists : List (List Text) → Closing → Result (Unit {0}) × Closing
close_lists [] c = (ok tt, c)
close_lists (keys ∷ lists) c =
    let next = close_keys keys c in
    let rest = close_lists lists next.1 in
    elim next.0 [
      | ok t ↦ elim next.1.errors [ [] ↦ rest | e ∷ es ↦ (err (closing_failed (e ∷ es)), next.1) ]
      | err e ↦ (err e, next.1)
      | panic ↦ (panic, next.1)
    ]

-- `shutdown_connections`.
unfoldable pub shutdown_connections :
    Option ℕ
    → TcpGatewayProxyServerVisitor
    → Channel ProxyExecutorEvent
    → Result (Unit {0}) × Closing
shutdown_connections user_id v tasks =
    close_lists (key_lists user_id v.proxy_keys_by_user)
      (record { visitor = v; tasks = tasks; errors = [] })
