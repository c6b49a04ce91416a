-- ===== src/Net/Connection/Polling.antt =====
-- The round of polling in which a connection's read fails.
use trust.Prelude.{
  ℕ, suc, ◌≡◌, ◌≢◌, ◌∙◌, ◌⊎◌, inl, inr, refl, Bool, true, false, none, some, List, [], ◌∷◌, ◌++◌,
  arith, In-append_left, In-append_right, All-append,
}
use trust.Result.{Result, ok, err, panic, Result-cases}
use trust.Gateway.Controller.{closing, closed}
use trust.Net.Connection.{
  Connection, ConnectionVisitor, Read, got, ends_unexpectedly, blocks, fails, read_chunks,
  read_tcp_stream, handle_read, read, poll_visitor, handle_events, budget, then_go, poll_cycle,
  poll_connection, send_event, after_handler,
}
use trust.Net.Connection.Closing.{WillClose, AreOpen, handle_events-closes}

-- The read is the last: it fails.
abbrev pub is_last : Read → Bool
is_last ends_unexpectedly = true
is_last (fails e) = true
is_last (got bytes) = false
is_last blocks = false

module _ {S : Type 0} (visitor : ConnectionVisitor S) (c : Connection S) where
  read_last :
      (last : Read) (reads : List Read)
      → is_last last ≡ true
      → c.incoming ≡ last ∷ reads
      → ((read visitor c).0 ≢ panic)
        × ((read visitor c).1 ≡ send_event closing (record c { incoming = reads }))
  unfolding read read_tcp_stream handle_read read_chunks
  read_last ends_unexpectedly reads l e = rw (e, read_chunks) (λ q. cc, refl)
  read_last (fails x) reads l e = rw (e, read_chunks) (λ q. cc, refl)
  read_last (got bytes) reads l e = cc
  read_last blocks reads l e = cc

module _ {S : Type 0} {A B : Type 0} (next : Connection S → Result B × Connection S) where
  then_go_next : (r : Result A × Connection S) → r.0 ≢ panic → then_go r next ≡ next r.1
  then_go_next (ok a, c) h = refl
  then_go_next (err e, c) h = refl
  then_go_next (panic, c) h = absurd (h refl)

  then_go_panic : (r : Result A × Connection S) → r.0 ≡ panic → then_go r next ≡ (panic, r.1)
  then_go_panic (ok a, c) h = cc
  then_go_panic (err e, c) h = cc
  then_go_panic (panic, c) h = refl

module _ {S : Type 0} (visitor : ConnectionVisitor S) where
  -- The connection when its visitor has been polled.
  abbrev polled : Connection S → Connection S
  polled d = after_handler (visitor.on_polling_cycle d.visitor) d

  -- The end of a round.
  abbrev finish : Connection S → Result Bool × Connection S
  finish d = then_go (handle_events visitor (suc (budget visitor d)) d) λ e. (ok e.is_closed, e)

  poll_cycle-finish :
      (c d : Connection S)
      → (read visitor c).0 ≢ panic
      → (read visitor c).1 ≡ d
      → (visitor.on_polling_cycle d.visitor).0 ≢ panic
      → poll_cycle visitor c ≡ finish (polled d)
  unfolding poll_cycle poll_visitor
  poll_cycle-finish c d p e q =
      then_go_next (λ c1. then_go (poll_visitor visitor c1) finish) (read visitor c) p
      ∙ rw e (then_go_next finish (poll_visitor visitor d) q)

  finish-closes :
      (d : Connection S)
      → WillClose d
      → ((finish d).1.is_closed ≡ true) × (((finish d).0 ≡ ok true) ⊎ ((finish d).0 ≡ panic))
  finish-closes d w =
      let r = handle_events visitor (suc (budget visitor d)) d in
      let h = handle_events-closes visitor (suc (budget visitor d)) d (omega arith) w in
      elim (Result-cases r.0) [
        | inl (a, q) ↦ rw (then_go_next (λ e. (ok e.is_closed, e)) r λ z. cc) (h, inl (rw h refl))
        | inr (inl (x, q)) ↦
            rw (then_go_next (λ e. (ok e.is_closed, e)) r λ z. cc) (h, inl (rw h refl))
        | inr (inr q) ↦ rw (then_go_panic (λ e. (ok e.is_closed, e)) r q) (h, inr refl)
      ]

  poll_cycle-closes :
      (c : Connection S) (last : Read) (reads : List Read)
      → c.incoming ≡ last ∷ reads
      → is_last last ≡ true
      → AreOpen c.event_channel
      → c.shutdown_error ≡ none
      → (visitor.on_polling_cycle c.visitor).0 ≢ panic
      → AreOpen (visitor.on_polling_cycle c.visitor).2
      → ((poll_cycle visitor c).1.is_closed ≡ true)
        × (((poll_cycle visitor c).0 ≡ ok true) ⊎ ((poll_cycle visitor c).0 ≡ panic))
  poll_cycle-closes c last reads e l quiet closable polls sends =
      let (p, q) = read_last visitor c last reads l e in
      let d = send_event closing (record c { incoming = reads }) in
      rw (poll_cycle-finish c d p q polls) (
        finish-closes (polled d) (record {
          asked = inr (
              In-append_left closing (c.event_channel ++ closing ∷ [])
                (visitor.on_polling_cycle c.visitor).2
                (In-append_right closing c.event_channel (closing ∷ []) (inl refl)));
          unannounced = λ u.
              All-append (λ event. event ≢ closed) (c.event_channel ++ closing ∷ [])
                (visitor.on_polling_cycle c.visitor).2
                (All-append (λ event. event ≢ closed) c.event_channel (closing ∷ []) quiet
                  ((λ z. cc), tt))
                sends;
          closable = closable;
        }))

  -- A connection whose next read fails, with `UnexpectedEof` or another error that is not
  -- `WouldBlock`, is closed in that round of polling, and the loop of `poll_connection` ends, with
  -- success or in a panic, where the socket can be shut down, no event `Closed` waits, and the visitor
  -- polls without a panic and without announcing one.
  pub poll_connection-closes :
      (rounds : ℕ) (c : Connection S) (last : Read) (reads : List Read)
      → c.incoming ≡ last ∷ reads
      → is_last last ≡ true
      → AreOpen c.event_channel
      → c.shutdown_error ≡ none
      → (visitor.on_polling_cycle c.visitor).0 ≢ panic
      → AreOpen (visitor.on_polling_cycle c.visitor).2
      → let done = poll_connection visitor (suc rounds) c in
        (done.1.is_closed ≡ true) × ((done.0 ≡ some (ok tt)) ⊎ (done.0 ≡ some panic))
  unfolding poll_connection
  poll_connection-closes rounds c last reads e l quiet closable polls sends =
      let (h, o) = poll_cycle-closes c last reads e l quiet closable polls sends in
      elim o [
        | inl q ↦ rw (q, poll_connection) (h, inl refl)
        | inr q ↦ rw (q, poll_connection) (h, inr refl)
      ]
