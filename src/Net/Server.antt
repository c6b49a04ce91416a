-- ===== src/Net/Server.antt =====
-- crates/common/src/net/tcp_server/server_std.rs: the listener that accepts TCP connections. What the
-- system gives, and what other threads do to the visitor meanwhile, is an argument.
pub mod Polling
use trust.Prelude.{
  ℕ, ◌⊎◌, inl, inr, Bool, true, false, Option, none, some, List, [], ◌∷◌, ◌++◌, Text, codes,
  if◌then◌else◌,
}
use trust.Text.{show}
use trust.AppError.{AppError, ForeignError, general, gen_with_msg_and_err, addr_parse, would_block}
use trust.Result.{Result, ok, err, panic}
use trust.Proxy.Event.{quote}
use trust.Net.Connection.{Connection, ConnectionVisitor, poll_connection, shutdown}

-- `ServerVisitor`, with streams `S` and connections `C`: a handler's result and its state.
pub record ServerVisitor (V S C : Type 0) : Type 0 where
  pub create_client_conn : S → V → Result C × V
  pub on_listening : V → Result (Unit {0}) × V
  pub on_conn_accepted : C → V → Result (Unit {0}) × V
  pub get_shutdown_requested : V → Bool

-- `Server`: the listener is there or not.
pub record Server (V : Type 0) : Type 0 where
  pub visitor : V
  pub server_port : ℕ
  pub has_listener : Bool
  pub listen_addr : Text
  pub is_polling : Bool
  pub is_closing : Bool
  pub is_closed : Bool

-- The listener's address as it is parsed and printed, and why binding, or making the listener
-- non-blocking, fails, if it does.
pub record Binding : Type 0 where
  pub server_addr : Text ⊎ ForeignError
  pub bind_error : Option ForeignError
  pub nonblocking_error : Option ForeignError

-- What accepting gives: a connection comes with its peer's address and why making it non-blocking
-- fails, if it does.
pub data Accepting (S : Type 0) : Type 0 where
  waits : Accepting S
  accept_fails : ForeignError → Accepting S
  connects : Text → Option ForeignError → S → Accepting S

-- A round of polling: what accepting gives, and what other threads do to the visitor, which is behind a
-- lock: before the round, between a connection's creation and its acceptance, and before the visitor is
-- asked whether to shut down.
pub record Round (V S : Type 0) : Type 0 where
  pub before : V → V
  pub accepting : Accepting S
  pub between : V → V
  pub meanwhile : V → V

-- `{:?}` of a text without quotes and backslashes.
abbrev pub quoted : Text → Text
quoted text = quote ∷ (text ++ quote ∷ [])

-- The poller's result, once it has ended, and the server.
abbrev pub Run : Type 0 → Type 0
Run V = Option (Result (Unit {0})) × Server V

module _ {V : Type 0} where
  -- `Server::new`.
  unfoldable pub new : V → ℕ → Server V
  new visitor server_port = record {
    visitor = visitor;
    server_port = server_port;
    has_listener = false;
    listen_addr = codes "[::]:" ++ show server_port;
    is_polling = false;
    is_closing = false;
    is_closed = false;
  }

  -- `perform_shutdown`.
  unfoldable pub perform_shutdown : Server V → Server V
  perform_shutdown s = record s {
    is_closing = true;
    is_closed = true;
    is_polling = false;
    has_listener = false;
  }

  -- `stop_poller`.
  unfoldable pub stop_poller : Server V → Server V
  stop_poller s = record s { is_polling = false }

  -- `Server::shutdown`.
  unfoldable pub shutdown_server : Server V → Server V
  unfolding perform_shutdown
  shutdown_server s =
      if s.is_polling then (record s { is_polling = false }) else (perform_shutdown s)

  -- `assert_listening`.
  unfoldable pub assert_listening : Server V → Result (Unit {0})
  assert_listening s =
      if s.has_listener then (ok tt) else (err (general (codes "Gateway not listening")))

  abbrev pub with_visitor : V → Server V → Server V
  with_visitor v s = record s { visitor = v }

  -- What follows on the loop of `poll_new_connections`.
  unfoldable pub end_polling : Server V → Run V
  unfolding perform_shutdown
  end_polling s = (some (ok tt), if s.is_closing then (perform_shutdown s) else s)

module _ {V S C : Type 0} (visitor : ServerVisitor V S C) where
  -- `bind_listener`.
  unfoldable pub bind_listener : Binding → Server V → Result (Unit {0}) × Server V
  bind_listener b s = elim b.server_addr [
    | inr e ↦ (err (addr_parse e), s)
    | inl addr ↦ (elim b.bind_error [
      | some e ↦ (
        err (gen_with_msg_and_err (codes "Error setting up listener: server_addr=" ++ addr) e),
        s,
      )
      | none ↦ (elim b.nonblocking_error [
        | some e ↦ (
          err (
              gen_with_msg_and_err
                (codes "Failed making listener non-blocking: server_addr=" ++ addr) e),
          s,
        )
        | none ↦
            let told = visitor.on_listening s.visitor in
            (
              told.0,
              record s {
                visitor = told.1;
                has_listener = true;
                listen_addr = addr;
                is_closing = false;
                is_closed = false;
                is_polling = false;
              },
            )
      ])
    ])
  ]

  -- A connection's stream is handed to the visitor, with what other threads do to it `between`.
  unfoldable pub accept_stream : (V → V) → S → Server V → Result (Unit {0}) × Server V
  accept_stream between stream s =
      let created = visitor.create_client_conn stream s.visitor in
      elim created.0 [
        | ok connection ↦
            let taken = visitor.on_conn_accepted connection (between created.1) in
            (taken.0, with_visitor taken.1 s)
        | err e ↦ (err e, with_visitor created.1 s)
        | panic ↦ (panic, with_visitor created.1 s)
      ]

  -- `accept`.
  unfoldable pub accept : (V → V) → Accepting S → Server V → Result (Unit {0}) × Server V
  unfolding accept_stream
  accept between a s =
      if s.has_listener
      then (elim a [
        | waits ↦ (err would_block, s)
        | accept_fails e ↦ (
          err (
              gen_with_msg_and_err
                (codes "Error accepting connection: server_addr=" ++ quoted s.listen_addr) e),
          s,
        )
        | connects peer (some e) stream ↦ (
          err (
              gen_with_msg_and_err
                (codes "Failed making socket non-blocking: server_addr="
                  ++ (quoted s.listen_addr ++ (codes ", peer_addr=" ++ peer)))
                e),
          s,
        )
        | connects peer none stream ↦ accept_stream between stream s
      ])
      else (panic, s)

  -- "Check if shutdown requested".
  unfoldable pub check_shutdown : Server V → Server V
  check_shutdown s =
      if visitor.get_shutdown_requested s.visitor
      then (record s { is_polling = false; is_closing = true })
      else s

  -- The loop of `poll_new_connections`: nothing where it still runs at the end of the rounds. An error
  -- of `accept` is logged only.
  unfoldable pub poll_rounds : List (Round V S) → Server V → Run V
  unfolding accept check_shutdown end_polling
  poll_rounds [] s = (none, s)
  poll_rounds (a ∷ rounds) s =
      let done = accept a.between a.accepting (with_visitor (a.before s.visitor) s) in
      let next = check_shutdown (with_visitor (a.meanwhile done.1.visitor) done.1) in
      let rest = poll_rounds rounds next in
      elim done.0 [
        | ok t ↦ if next.is_polling then rest else (end_polling next)
        | err e ↦ if next.is_polling then rest else (end_polling next)
        | panic ↦ (some panic, done.1)
      ]

  -- `poll_new_connections`.
  unfoldable pub poll_new_connections : List (Round V S) → Server V → Run V
  unfolding assert_listening poll_rounds
  poll_new_connections rounds s = elim (assert_listening s) [
    | err e ↦ (some (err e), s)
    | panic ↦ (some panic, s)
    | ok t ↦
        if s.is_polling
        then (
          some (
              err (
                general (
                  codes "Already polling for new connections: server_addr="
                  ++ quoted s.listen_addr))),
          s,
        )
        else (poll_rounds rounds (record s { is_polling = true }))
  ]

-- The thread of `spawn_connection_processor`: the connection is polled, then shut down if needed; the
-- first error is the result.
abbrev pub first_error : Result (Unit {0}) → Result (Unit {0}) → Result (Unit {0})
first_error panic second = panic
first_error (ok t) second = second
first_error (err e) (ok t) = err e
first_error (err e) (err f) = err e
first_error (err e) panic = panic

unfoldable pub process_connection :
    {S : Type 0}
    → ConnectionVisitor S
    → ℕ
    → Connection S
    → Option (Result (Unit {0})) × Connection S
process_connection visitor rounds c =
    let polled = poll_connection visitor rounds c in
    let ended = shutdown visitor polled.1 in
    elim polled.0 [
      | none ↦ polled
      | some panic ↦ polled
      | some (ok t) ↦ (some ended.0, ended.1)
      | some (err e) ↦ (some (first_error (err e) ended.0), ended.1)
    ]
