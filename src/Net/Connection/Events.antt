-- ===== src/Net/Connection/Events.antt =====
-- The loop over the events of a connection: it ends, and a request to close is heard.
use trust.Prelude.{
  ℕ, zero, suc, ◌≤◌, ◌<◌, ◌≡◌, ◌≢◌, ◌⊎◌, inl, inr, refl, List, [], ◌∷◌, ◌++◌, length-append, arith,
  Bool-cases, Option-cases, List-cases,
}
use trust.Result.{Result, ok, err, panic, Result-cases}
use trust.Gateway.Controller.{ConnectionEvent, closing, closed, write}
use trust.Net.Connection.{
  Connection, ConnectionVisitor, writes_all, stops, unexpected_eof, would_block, other,
  on_write_error, write_tcp_stream, write_content, shutdown, handle_event, handle_events, budget,
}

module _ {S : Type 0} where
  -- The connection after the first of its events was taken off.
  abbrev pub taken : Connection S → List ConnectionEvent → Connection S
  taken c events = record c { event_channel = events }

module _ {S : Type 0} (visitor : ConnectionVisitor S) where
  write_content-budget :
      (buffer : List ℕ) (c : Connection S)
      → budget visitor (write_content buffer c).1 ≤ budget visitor c
  unfolding write_content write_tcp_stream on_write_error
  write_content-budget buffer c = elim (List-cases c.outgoing) [
    | inl e ↦ rw (e, write_tcp_stream) (ground arith)
    | inr (writes_all, outgoing, e) ↦ rw (e, write_tcp_stream) (ground arith)
    | inr (stops n unexpected_eof, outgoing, e) ↦
        rw (e, write_tcp_stream) (ground (arith, length-append c.event_channel (closing ∷ [])))
    | inr (stops n would_block, outgoing, e) ↦
        rw (e, write_tcp_stream) (ground (arith, length-append c.event_channel (write buffer ∷ [])))
    | inr (stops n (other x), outgoing, e) ↦
        rw (e, write_tcp_stream) (ground (arith, length-append c.event_channel (closing ∷ [])))
  ]

  shutdown-budget : (c : Connection S) → budget visitor (shutdown visitor c).1 ≤ budget visitor c
  unfolding shutdown
  shutdown-budget c = elim (Bool-cases c.is_closed) [
    | inl e ↦ rw (e, shutdown) (ground arith)
    | inr e ↦ elim (Option-cases c.shutdown_error) [
      | inr (x, f) ↦ rw (e, shutdown) (rw (f, shutdown) (ground arith))
      | inl f ↦
          rw (e, shutdown)
            (rw (f, shutdown)
              (ground (
                arith,
                length-append c.event_channel (closed ∷ []),
                length-append (c.event_channel ++ closed ∷ []) (visitor.on_shutdown c.visitor).2,
              )))
    ]
  ]

  handle_event-budget :
      (event : ConnectionEvent) (c : Connection S)
      → budget visitor (handle_event visitor event c).1 ≤ budget visitor c
  unfolding handle_event
  handle_event-budget closing c = shutdown-budget c
  handle_event-budget closed c = ground arith
  handle_event-budget (write buffer) c = write_content-budget buffer c

  -- What the loop does, without fuel: it stops where no event waits, behind an event `Closed`, or
  -- with a panic; else it handles the first event and goes on.
  pub data Handles : Connection S → Result (Unit {0}) × Connection S → Type 0 where
    idle : (c : Connection S) → c.event_channel ≡ [] → Handles c (ok tt, c)
    ends :
        (c : Connection S) (events : List ConnectionEvent)
        → c.event_channel ≡ closed ∷ events
        → Handles c (ok tt, taken c events)
    dies :
        (c : Connection S) (event : ConnectionEvent) (events : List ConnectionEvent)
        → c.event_channel ≡ event ∷ events
        → event ≢ closed
        → (handle_event visitor event (taken c events)).0 ≡ panic
        → Handles c (handle_event visitor event (taken c events))
    goes_on :
        (c : Connection S) (event : ConnectionEvent) (events : List ConnectionEvent)
        {r : Result (Unit {0}) × Connection S}
        → c.event_channel ≡ event ∷ events
        → event ≢ closed
        → (handle_event visitor event (taken c events)).0 ≢ panic
        → Handles (handle_event visitor event (taken c events)).1 r
        → Handles c r

  handle_events_step :
      (fuel : ℕ) (c : Connection S) (event : ConnectionEvent) (events : List ConnectionEvent)
      → c.event_channel ≡ event ∷ events
      → event ≢ closed
      → (handle_event visitor event (taken c events)).0 ≢ panic
      → handle_events visitor (suc fuel) c
        ≡ handle_events visitor fuel (handle_event visitor event (taken c events)).1
  unfolding handle_events
  handle_events_step fuel c closed events e n p = absurd (n refl)
  handle_events_step fuel c closing events e n p =
      elim (Result-cases (handle_event visitor closing (taken c events)).0) [
        | inl (t, q) ↦ rw (e, handle_events) (rw (q, handle_events) refl)
        | inr (inl (x, q)) ↦ rw (e, handle_events) (rw (q, handle_events) refl)
        | inr (inr q) ↦ absurd (p q)
      ]
  handle_events_step fuel c (write buffer) events e n p =
      elim (Result-cases (handle_event visitor (write buffer) (taken c events)).0) [
        | inl (t, q) ↦ rw (e, handle_events) (rw (q, handle_events) refl)
        | inr (inl (x, q)) ↦ rw (e, handle_events) (rw (q, handle_events) refl)
        | inr (inr q) ↦ absurd (p q)
      ]

  handle_events_panic :
      (fuel : ℕ) (c : Connection S) (event : ConnectionEvent) (events : List ConnectionEvent)
      → c.event_channel ≡ event ∷ events
      → event ≢ closed
      → (handle_event visitor event (taken c events)).0 ≡ panic
      → handle_events visitor (suc fuel) c ≡ handle_event visitor event (taken c events)
  unfolding handle_events
  handle_events_panic fuel c closed events e n p = absurd (n refl)
  handle_events_panic fuel c closing events e n p =
      rw (e, handle_events) (rw (p, handle_events) refl)
  handle_events_panic fuel c (write buffer) events e n p =
      rw (e, handle_events) (rw (p, handle_events) refl)

  handle_events_idle :
      (fuel : ℕ) (c : Connection S)
      → c.event_channel ≡ []
      → handle_events visitor (suc fuel) c ≡ (ok tt, c)
  unfolding handle_events
  handle_events_idle fuel c e = simp (e, handle_events)

  handle_events_ends :
      (fuel : ℕ) (c : Connection S) (events : List ConnectionEvent)
      → c.event_channel ≡ closed ∷ events
      → handle_events visitor (suc fuel) c ≡ (ok tt, taken c events)
  unfolding handle_events
  handle_events_ends fuel c events e = rw (e, handle_events) refl

  taken-budget :
      (c : Connection S) (event : ConnectionEvent) (events : List ConnectionEvent)
      → c.event_channel ≡ event ∷ events
      → suc (budget visitor (taken c events)) ≡ budget visitor c
  taken-budget c event events e = rw e (ground arith)

  is_end : (event : ConnectionEvent) → (event ≡ closed) ⊎ (event ≢ closed)
  is_end closed = inl refl
  is_end closing = inr λ q. cc
  is_end (write buffer) = inr λ q. cc

  is_panic : (r : Result (Unit {0})) → (r ≡ panic) ⊎ (r ≢ panic)
  is_panic (ok t) = inr λ q. cc
  is_panic (err e) = inr λ q. cc
  is_panic panic = inl refl

  -- Fuel above the budget of a connection (the events that wait, the writes that may fail, and the
  -- events of a shutdown to come) is enough for the loop over its events to run to its end.
  pub handle_events-Handles :
      (fuel : ℕ) (c : Connection S)
      → budget visitor c < fuel
      → Handles c (handle_events visitor fuel c)
  handle_events-Handles zero c h = absurd (omega arith)
  handle_events-Handles (suc fuel) c h = elim (List-cases c.event_channel) [
    | inl e ↦ rw (handle_events_idle fuel c e) (idle c e)
    | inr (event, events, e) ↦ elim (is_end event) [
      | inl q ↦
          rw (handle_events_ends fuel c events (rw e (rw q refl)))
            (ends c events (rw e (rw q refl)))
      | inr n ↦ elim (is_panic (handle_event visitor event (taken c events)).0) [
        | inl p ↦ rw (handle_events_panic fuel c event events e n p) (dies c event events e n p)
        | inr p ↦ rw (handle_events_step fuel c event events e n p) (
            goes_on c event events e n p (
              handle_events-Handles fuel (handle_event visitor event (taken c events)).1 (
                omega (
                  arith,
                  h,
                  handle_event-budget event (taken c events),
                  taken-budget c event events e,
                ))))
      ]
    ]
  ]
