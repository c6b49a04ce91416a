-- ===== src/Net/Connection/Closing.antt =====
-- A connection that is asked to close is closed, once: by the loop over its events, and by the round
-- of polling in which its peer's end was met.
use trust.Prelude.{
  ℕ, ◌≡◌, ◌≢◌, ◌∙◌, ◌⊎◌, ◌<◌, inl, inr, refl, sym, subst, true, false, none, List, [], ◌∷◌, ◌++◌,
  arith, Bool-cases, append-nil, List-cases, In, In-append_left, All, All-append,
}
use trust.Result.{Result, ok, panic}
use trust.Gateway.Controller.{ConnectionEvent, closing, closed, write}
use trust.Net.Connection.{
  Connection, ConnectionVisitor, writes_all, stops, unexpected_eof, would_block, other,
  on_write_error, write_tcp_stream, write_content, shutdown, handle_event, handle_events, budget,
}
use trust.Net.Connection.Events.{Handles, idle, ends, dies, goes_on, taken, handle_events-Handles}

abbrev pub AreOpen : List ConnectionEvent → Type 0
AreOpen = All (λ event. event ≢ closed)

-- The connection is closed, or asked to close; only its closing puts an event `Closed`, and the socket
-- can be shut down.
pub record WillClose {S : Type 0} (c : Connection S) : Type 0 where
  pub asked : (c.is_closed ≡ true) ⊎ In closing c.event_channel
  pub unannounced : c.is_closed ≡ false → AreOpen c.event_channel
  pub closable : c.shutdown_error ≡ none

-- What a write adds: events behind those that wait, none of them `Closed`.
record Extends {S : Type 0} (c : Connection S) (r : Result (Unit {0}) × Connection S) : Type 0 where
  extra : List ConnectionEvent
  queue : r.1.event_channel ≡ c.event_channel ++ extra
  open_extra : AreOpen extra
  same_closed : r.1.is_closed ≡ c.is_closed
  same_error : r.1.shutdown_error ≡ c.shutdown_error
  no_panic : r.0 ≢ panic

module _ {S : Type 0} where
  write_content-Extends : (buffer : List ℕ) (c : Connection S) → Extends c (write_content buffer c)
  unfolding write_content write_tcp_stream on_write_error
  write_content-Extends buffer c = elim (List-cases c.outgoing) [
    | inl e ↦
        rw (e, write_tcp_stream)
          (record {
            extra = [];
            queue = sym (rw append-nil refl);
            open_extra = tt;
            same_closed = refl;
            same_error = refl;
            no_panic = λ q. cc;
          })
    | inr (writes_all, outgoing, e) ↦
        rw (e, write_tcp_stream)
          (record {
            extra = [];
            queue = sym (rw append-nil refl);
            open_extra = tt;
            same_closed = refl;
            same_error = refl;
            no_panic = λ q. cc;
          })
    | inr (stops n unexpected_eof, outgoing, e) ↦
        rw (e, write_tcp_stream)
          (record {
            extra = closing ∷ [];
            queue = refl;
            open_extra = (λ q. cc, tt);
            same_closed = refl;
            same_error = refl;
            no_panic = λ q. cc;
          })
    | inr (stops n would_block, outgoing, e) ↦
        rw (e, write_tcp_stream)
          (record {
            extra = write buffer ∷ [];
            queue = refl;
            open_extra = (λ q. cc, tt);
            same_closed = refl;
            same_error = refl;
            no_panic = λ q. cc;
          })
    | inr (stops n (other x), outgoing, e) ↦
        rw (e, write_tcp_stream)
          (record {
            extra = closing ∷ [];
            queue = refl;
            open_extra = (λ q. cc, tt);
            same_closed = refl;
            same_error = refl;
            no_panic = λ q. cc;
          })
  ]

module _ {S : Type 0} (visitor : ConnectionVisitor S) where
  shutdown-closes :
      (c : Connection S)
      → c.shutdown_error ≡ none
      → ((shutdown visitor c).1.is_closed ≡ true) × ((shutdown visitor c).1.shutdown_error ≡ none)
  unfolding shutdown
  shutdown-closes c h = elim (Bool-cases c.is_closed) [
    | inl e ↦ ground (arith, h)
    | inr e ↦ rw (e, shutdown) (rw (h, shutdown) (refl, h))
  ]

  shut_again : (d : Connection S) → d.is_closed ≡ true → shutdown visitor d ≡ (ok tt, d)
  unfolding shutdown
  shut_again d e = ground (arith, e)

  -- Shutting a connection down again does nothing.
  pub shutdown-once :
      (c : Connection S)
      → c.shutdown_error ≡ none
      → let done = (shutdown visitor c).1 in
        (done.is_closed ≡ true) × (shutdown visitor done ≡ (ok tt, done))
  shutdown-once c h = let (e, f) = shutdown-closes c h in (e, shut_again (shutdown visitor c).1 e)

  closed-WillClose : (c : Connection S) → c.is_closed ≡ true → c.shutdown_error ≡ none → WillClose c
  closed-WillClose c e h = record {
    asked = inl e;
    unannounced = λ q. ground (arith, e, q);
    closable = h;
  }

  asked-write :
      (buffer : List ℕ) (events : List ConnectionEvent)
      → In closing (write buffer ∷ events)
      → In closing events
  asked-write buffer events (inl q) = cc
  asked-write buffer events (inr q) = q

  handle_event-WillClose :
      (c : Connection S) (event : ConnectionEvent) (events : List ConnectionEvent)
      → c.event_channel ≡ event ∷ events
      → event ≢ closed
      → WillClose c
      → WillClose (handle_event visitor event (taken c events)).1
  unfolding handle_event
  handle_event-WillClose c closed events e n w = absurd (n refl)
  handle_event-WillClose c closing events e n w =
      let (a, b) = shutdown-closes (taken c events) w.closable in
      closed-WillClose (shutdown visitor (taken c events)).1 a b
  handle_event-WillClose c (write buffer) events e n w =
      let x = write_content-Extends buffer (taken c events) in
      record {
        asked = elim w.asked [
          | inl q ↦ inl (x.same_closed ∙ q)
          | inr q ↦ inr (
              subst (In closing) (sym x.queue) (
                In-append_left closing events x.extra
                  (asked-write buffer events (subst (In closing) e q))))
        ];
        unannounced = λ q. subst AreOpen (sym x.queue) (
            All-append (λ event. event ≢ closed) events x.extra
              (subst AreOpen e (w.unannounced (sym x.same_closed ∙ q))).1 x.open_extra);
        closable = x.same_error ∙ w.closable;
      }

  -- A handler that panics does so after the connection was closed.
  panic_closed :
      (c : Connection S) (event : ConnectionEvent)
      → event ≢ closed
      → c.shutdown_error ≡ none
      → (handle_event visitor event c).0 ≡ panic
      → (handle_event visitor event c).1.is_closed ≡ true
  unfolding handle_event
  panic_closed c closed n h p = absurd (n refl)
  panic_closed c closing n h p = (shutdown-closes c h).0
  panic_closed c (write buffer) n h p = absurd ((write_content-Extends buffer c).no_panic p)

  Handles-closes :
      {c : Connection S} {r : Result (Unit {0}) × Connection S}
      → Handles visitor c r
      → WillClose c
      → r.1.is_closed ≡ true
  Handles-closes (idle c e) w = elim w.asked [ inl q ↦ q | inr q ↦ absurd (subst (In closing) e q) ]
  Handles-closes (ends c events e) w = elim (Bool-cases c.is_closed) [
    | inl q ↦ q
    | inr q ↦ absurd ((subst AreOpen e (w.unannounced q)).0 refl)
  ]
  Handles-closes (dies c event events e n p) w = panic_closed (taken c events) event n w.closable p
  Handles-closes (goes_on c event events e n p rest) w =
      Handles-closes rest (handle_event-WillClose c event events e n w)

  -- Where only the closing of a connection puts an event `Closed`, and its socket can be shut down, the
  -- loop over the events of a connection that is asked to close leaves it closed.
  pub handle_events-closes :
      (fuel : ℕ) (c : Connection S)
      → budget visitor c < fuel
      → WillClose c
      → (handle_events visitor fuel c).1.is_closed ≡ true
  handle_events-closes fuel c h w = Handles-closes (handle_events-Handles visitor fuel c h) w
