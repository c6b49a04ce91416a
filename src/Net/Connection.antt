-- ===== src/Net/Connection.antt =====
-- crates/common/src/net/tcp_server/conn_std.rs: a connection that is polled. The connections of
-- tls_server/conn_std.rs and tls_client/conn_std.rs are the same code on a TLS stream. The connection
-- holds both ends of its event channel, so that sending an event never fails. What the socket will do
-- is part of the state; what a visitor does is an argument.

pub mod Events
pub mod Closing
pub mod Polling
pub mod Content
use trust.Prelude.{
  ℕ, zero, suc, ◌+◌, ◌≡◌, Bool, true, false, Option, none, some, List, [], ◌∷◌, ◌++◌, Text, codes,
  ltb, length, take, if◌then◌else◌,
}
use trust.AppError.{AppError, ForeignError, gen_with_msg_and_err}
use trust.Result.{Result, ok, err, panic, ◌>>=◌}
use trust.Gateway.Controller.{ConnectionEvent, closing, closed, write}

abbrev pub read_block_size : ℕ
read_block_size = 1024

-- What one call of `read` gives: bytes (none at the end of a TCP stream), or the error `UnexpectedEof`,
-- `WouldBlock`, or another.
pub data Read : Type 0 where
  got : List ℕ → Read
  ends_unexpectedly blocks : Read
  fails : ForeignError → Read

-- Why `write_all` stops, and after how many bytes.
pub data WriteError : Type 0 where
  unexpected_eof would_block : WriteError
  other : ForeignError → WriteError

pub data Write : Type 0 where
  writes_all : Write
  stops : ℕ → WriteError → Write

-- `ConnectionVisitor`: a handler's result, its state, and the events that it sends.
abbrev pub Handled : Type 0 → Type 0
Handled S = Result (Unit {0}) × S × List ConnectionEvent

pub record ConnectionVisitor (S : Type 0) : Type 0 where
  pub on_connection_read : List ℕ → S → Handled S
  pub on_polling_cycle : S → Handled S
  pub on_shutdown : S → Handled S

-- `Connection`: the visitor's state, what the next reads and writes of the socket give (once the list
-- is used up, there is nothing to read, and writing succeeds), what was written, why shutting the
-- socket down fails, if it does, and the events that wait.
pub record Connection (S : Type 0) : Type 0 where
  pub visitor : S
  pub incoming : List Read
  pub outgoing : List Write
  pub written : List ℕ
  pub shutdown_error : Option ForeignError
  pub event_channel : List ConnectionEvent
  pub is_closed : Bool

-- What the loop of `read_tcp_stream` gives: the bytes, the reads that are left, and whether the error
-- `UnexpectedEof` was met.
pub record Chunks : Type 0 where
  pub buffer : Result (List ℕ)
  pub left : List Read
  pub at_end : Bool

abbrev pub read_failed : ForeignError → AppError
read_failed = gen_with_msg_and_err (codes "Error reading from TCP connection")

unfoldable pub read_chunks : List Read → Chunks
read_chunks [] = record { buffer = ok []; left = []; at_end = false }
read_chunks (ends_unexpectedly ∷ reads) = record { buffer = ok []; left = reads; at_end = true }
read_chunks (blocks ∷ reads) = record { buffer = ok []; left = reads; at_end = false }
read_chunks (fails e ∷ reads) = record {
  buffer = err (read_failed e);
  left = reads;
  at_end = false;
}
read_chunks (got bytes ∷ reads) =
    let rest = read_chunks reads in
    if ltb (length bytes) read_block_size
    then (record { buffer = ok bytes; left = reads; at_end = false })
    else (record {
      buffer = rest.buffer >>= λ more. ok (bytes ++ more);
      left = rest.left;
      at_end = rest.at_end;
    })

module _ {S : Type 0} where
  abbrev pub send_event : ConnectionEvent → Connection S → Connection S
  send_event event c = record c { event_channel = c.event_channel ++ event ∷ [] }

  -- A handler's new state, with the events it sent behind those that wait.
  abbrev pub after_handler : Handled S → Connection S → Connection S
  after_handler h c = record c { visitor = h.1; event_channel = c.event_channel ++ h.2 }

  -- `read_tcp_stream`.
  unfoldable pub read_tcp_stream : Connection S → Result (List ℕ) × Connection S
  unfolding read_chunks
  read_tcp_stream c =
      let chunks = read_chunks c.incoming in
      let rest = record c { incoming = chunks.left } in
      (chunks.buffer, if chunks.at_end then send_event closing rest else rest)

  -- `write_tcp_stream`. A write that would block is put behind the events that wait, as a whole.
  unfoldable pub on_write_error :
      List ℕ → WriteError → Connection S → Result (Unit {0}) × Connection S
  on_write_error buffer unexpected_eof c = (ok tt, send_event closing c)
  on_write_error buffer would_block c = (ok tt, send_event (write buffer) c)
  on_write_error buffer (other e) c =
      (err (gen_with_msg_and_err (codes "Error writing to TCP connection") e), c)

  unfoldable pub write_tcp_stream : List ℕ → Connection S → Result (Unit {0}) × Connection S
  unfolding on_write_error
  write_tcp_stream buffer c = elim c.outgoing [
    | [] ↦ (ok tt, record c { written = c.written ++ buffer })
    | writes_all ∷ outgoing ↦
        (ok tt, record c { written = c.written ++ buffer; outgoing = outgoing })
    | stops n e ∷ outgoing ↦
        on_write_error buffer e
          (record c { written = c.written ++ take n buffer; outgoing = outgoing })
  ]

  -- "Handle connection error".
  abbrev pub close_on_error : {A : Type 0} → Result A × Connection S → Result A × Connection S
  close_on_error (err e, c) = (err e, send_event closing c)
  close_on_error (ok a, c) = (ok a, c)
  close_on_error (panic, c) = (panic, c)

  -- `write`.
  unfoldable pub write_content : List ℕ → Connection S → Result (Unit {0}) × Connection S
  unfolding write_tcp_stream
  write_content buffer c = close_on_error (write_tcp_stream buffer c)

  -- The next part of a round. Errors are logged only.
  abbrev pub then_go :
      {A B : Type 0}
      → Result A × Connection S
      → (Connection S → Result B × Connection S)
      → Result B × Connection S
  then_go (ok a, c) next = next c
  then_go (err e, c) next = next c
  then_go (panic, c) next = (panic, c)

  module _ (visitor : ConnectionVisitor S) where
    -- What was read goes to the visitor, unless it is empty.
    unfoldable pub handle_read : Result (List ℕ) × Connection S → Result (List ℕ) × Connection S
    handle_read (ok [], c) = (ok [], c)
    handle_read (ok (b ∷ bytes), c) =
        let handled = visitor.on_connection_read (b ∷ bytes) c.visitor in
        (handled.0 >>= λ t. ok (b ∷ bytes), after_handler handled c)
    handle_read (err e, c) = (err e, c)
    handle_read (panic, c) = (panic, c)

    -- `read`.
    unfoldable pub read : Connection S → Result (List ℕ) × Connection S
    unfolding read_tcp_stream handle_read
    read c = close_on_error (handle_read (read_tcp_stream c))

    -- `shutdown`.
    unfoldable pub shutdown : Connection S → Result (Unit {0}) × Connection S
    shutdown c = if c.is_closed then (ok tt, c) else (elim c.shutdown_error [
      | some e ↦ (err (gen_with_msg_and_err (codes "Error shutting down TCP connection") e), c)
      | none ↦
          let handled = visitor.on_shutdown c.visitor in
          (handled.0, after_handler handled (send_event closed (record c { is_closed = true })))
    ])

    -- One event that was received. An error is logged only.
    unfoldable pub handle_event : ConnectionEvent → Connection S → Result (Unit {0}) × Connection S
    unfolding write_content shutdown
    handle_event (write buffer) c = write_content buffer c
    handle_event closing c = shutdown c
    handle_event closed c = (ok tt, c)

    -- The loop `'EVENTS`, on fuel: up to an event `Closed`, or until no event waits.
    unfoldable pub handle_events : ℕ → Connection S → Result (Unit {0}) × Connection S
    unfolding handle_event
    handle_events zero c = (ok tt, c)
    handle_events (suc fuel) c = elim c.event_channel [
      | [] ↦ (ok tt, c)
      | closed ∷ events ↦ (ok tt, record c { event_channel = events })
      | closing ∷ events ↦
          let done = handle_event closing (record c { event_channel = events }) in
          let rest = handle_events fuel done.1 in
          elim done.0 [ ok t ↦ rest | err e ↦ rest | panic ↦ done ]
      | write buffer ∷ events ↦
          let done = handle_event (write buffer) (record c { event_channel = events }) in
          let rest = handle_events fuel done.1 in
          elim done.0 [ ok t ↦ rest | err e ↦ rest | panic ↦ done ]
    ]

    -- What the events can still cost: each that waits, each write that may put another, and the
    -- events of a shutdown.
    abbrev pub budget : Connection S → ℕ
    budget c =
        length c.event_channel
        + length c.outgoing
        + (if c.is_closed then 0 else suc (length (visitor.on_shutdown c.visitor).2))

    -- "Custom polling cycle handler".
    unfoldable pub poll_visitor : Connection S → Result (Unit {0}) × Connection S
    poll_visitor c =
        let handled = visitor.on_polling_cycle c.visitor in (handled.0, after_handler handled c)

    -- One round of the loop of `poll_connection`: `true` when the loop ends.
    unfoldable pub poll_cycle : Connection S → Result Bool × Connection S
    unfolding read poll_visitor handle_events
    poll_cycle c = then_go (read c) λ c1.
        then_go (poll_visitor c1)
          λ c2. then_go (handle_events (suc (budget c2)) c2) λ c3. (ok c3.is_closed, c3)

    -- `poll_connection`, for so many rounds: nothing while the loop goes on.
    unfoldable pub poll_connection : ℕ → Connection S → Option (Result (Unit {0})) × Connection S
    unfolding poll_cycle
    poll_connection zero c = (none, c)
    poll_connection (suc rounds) c =
        let done = poll_cycle c in
        let rest = poll_connection rounds done.1 in
        elim done.0 [
          | ok true ↦ (some (ok tt), done.1)
          | ok false ↦ rest
          | err e ↦ (some (err e), done.1)
          | panic ↦ (some panic, done.1)
        ]
