-- ===== src/Net/Server/Polling.antt =====
-- How polling for connections ends.
use trust.Prelude.{
  ◌≡◌, ◌≢◌, refl, ap, sym, subst, ◌∙◌, Text, true, false, Bool-cases, inl, inr, none, some, List,
  [], ◌∷◌, ◌++◌, if◌then◌else◌,
}
use trust.Result.{Result, ok, err, panic, Result-cases}
use trust.Net.Server.{
  ServerVisitor, Server, Accepting, Round, waits, accept_fails, connects, accept_stream, accept,
  check_shutdown, poll_rounds, poll_new_connections, assert_listening, with_visitor, end_polling,
  perform_shutdown, Run,
}

unless_panic :
    {A : Type 0} (r : Result (Unit {0})) (x y : A)
    → r ≢ panic
    → (elim r [ ok t ↦ x | err e ↦ x | panic ↦ y ]) ≡ x
unless_panic (ok t) x y h = refl
unless_panic (err e) x y h = refl
unless_panic panic x y h = absurd (h refl)

module _ {V S C : Type 0} (visitor : ServerVisitor V S C) where
  -- What a stream comes to: it is made a connection, which the visitor takes.
  abbrev pub takes : (V → V) → S → V → V
  takes between stream v =
      let created = visitor.create_client_conn stream v in
      elim created.0 [
        | ok connection ↦ (visitor.on_conn_accepted connection (between created.1)).1
        | err e ↦ created.1
        | panic ↦ created.1
      ]

  abbrev pub visit : (V → V) → Accepting S → V → V
  visit between waits v = v
  visit between (accept_fails e) v = v
  visit between (connects peer (some e) stream) v = v
  visit between (connects peer none stream) v = takes between stream v

  -- The visitor after a round.
  abbrev pub turn : Round V S → V → V
  turn a v = a.meanwhile (visit a.between a.accepting (a.before v))

  -- The visitor when all streams were taken, in order, with what other threads did between.
  unfoldable pub visits : List (Round V S) → V → V
  visits [] v = v
  visits (a ∷ rounds) v = visits rounds (turn a v)

  -- No handler of the visitor panics.
  pub record IsCalm : Type 0 where
    pub creates : (stream : S) (v : V) → (visitor.create_client_conn stream v).0 ≢ panic
    pub accepts : (connection : C) (v : V) → (visitor.on_conn_accepted connection v).0 ≢ panic

  -- Polling of `rounds` has ended with success: the listener is gone, and the visitor, which asked for
  -- it, has been through the first rounds.
  pub record Ended (rounds : List (Round V S)) (v : V) (r : Run V) : Type 0 where
    pub returned : r.0 ≡ some (ok tt)
    pub no_listener : r.1.has_listener ≡ false
    pub flagged : r.1.is_closed ≡ true
    pub stopped : r.1.is_polling ≡ false
    pub asked : visitor.get_shutdown_requested r.1.visitor ≡ true
    pub done : List (Round V S)
    pub left : List (Round V S)
    pub in_order : done ++ left ≡ rounds
    pub served : r.1.visitor ≡ visits done v

  -- What `accept` comes to where no handler panics: no panic, and the visitor alone has changed.
  record Accepted (between : V → V) (a : Accepting S) (s : Server V) : Type 0 where
    no_panic : (accept visitor between a s).0 ≢ panic
    changes : (accept visitor between a s).1 ≡ with_visitor (visit between a s.visitor) s

  module _ (calm : IsCalm) where
    accept_stream_lem :
        (between : V → V) (stream : S) (s : Server V)
        → ((accept_stream visitor between stream s).0 ≢ panic)
          × ((accept_stream visitor between stream s).1
              ≡ with_visitor (takes between stream s.visitor) s)
    unfolding accept_stream
    accept_stream_lem between stream s =
        elim (Result-cases (visitor.create_client_conn stream s.visitor).0) [
          | inl (c, e) ↦ rw (e, accept_stream, takes) (calm.accepts c _, refl)
          | inr (inl (x, e)) ↦ rw (e, accept_stream, takes) ((λ q. cc), refl)
          | inr (inr e) ↦ absurd (calm.creates stream s.visitor e)
        ]

    accept-listening :
        (between : V → V) (peer : Text) (stream : S) (s : Server V)
        → s.has_listener ≡ true
        → accept visitor between (connects peer none stream) s
          ≡ accept_stream visitor between stream s
    unfolding accept
    accept-listening between peer stream s listening =
        ap (λ b. if b then (accept_stream visitor between stream s) else (panic, s)) listening

    connects-Accepted :
        (between : V → V) (peer : Text) (stream : S) (s : Server V)
        → s.has_listener ≡ true
        → Accepted between (connects peer none stream) s
    connects-Accepted between peer stream s listening =
        let done = accept_stream_lem between stream s in
        let same = accept-listening between peer stream s listening in
        record { no_panic = rw same done.0; changes = rw same done.1 }

    accept-Accepted :
        (between : V → V) (a : Accepting S) (s : Server V)
        → s.has_listener ≡ true
        → Accepted between a s
    unfolding accept
    accept-Accepted between waits s listening = record {
      no_panic = rw listening (λ q. cc);
      changes = rw listening refl;
    }
    accept-Accepted between (accept_fails e) s listening = record {
      no_panic = rw listening (λ q. cc);
      changes = rw listening refl;
    }
    accept-Accepted between (connects peer (some e) stream) s listening = record {
      no_panic = rw listening (λ q. cc);
      changes = rw listening refl;
    }
    accept-Accepted between (connects peer none stream) s listening =
        connects-Accepted between peer stream s listening

    -- The rest of a round of a server that has accepted, or failed to.
    abbrev goes_on : List (Round V S) → Server V → Run V
    goes_on rounds t =
        let next = check_shutdown visitor t in
        if next.is_polling then (poll_rounds visitor rounds next) else (end_polling next)

    poll_rounds-round :
        (a : Round V S) (rounds : List (Round V S)) (s : Server V)
        → s.has_listener ≡ true
        → poll_rounds visitor (a ∷ rounds) s ≡ goes_on rounds (with_visitor (turn a s.visitor) s)
    unfolding poll_rounds
    poll_rounds-round a rounds s listening =
        let begun = with_visitor (a.before s.visitor) s in
        let done = accept-Accepted a.between a.accepting begun listening in
        unless_panic (accept visitor a.between a.accepting begun).0 _ _ done.no_panic
        ∙ ap (λ t. goes_on rounds (with_visitor (a.meanwhile t.visitor) t)) done.changes

    abbrev Polls : Server V → Type 0
    Polls s = (s.has_listener ≡ true) × (s.is_polling ≡ true)

    goes_on-asked :
        (rounds : List (Round V S)) (s : Server V)
        → visitor.get_shutdown_requested s.visitor ≡ true
        → goes_on rounds s ≡ end_polling (record s { is_polling = false; is_closing = true })
    unfolding check_shutdown
    goes_on-asked rounds s asked = rw (asked, check_shutdown) refl

    goes_on-unasked :
        (rounds : List (Round V S)) (s : Server V)
        → Polls s
        → visitor.get_shutdown_requested s.visitor ≡ false
        → goes_on rounds s ≡ poll_rounds visitor rounds s
    unfolding check_shutdown
    goes_on-unasked rounds s polls unasked =
        rw (unasked, check_shutdown)
          (ap (λ b. if b then (poll_rounds visitor rounds s) else (end_polling s)) polls.1)

    round-Ended :
        (a : Round V S) (rounds : List (Round V S)) (s : Server V)
        → visitor.get_shutdown_requested (turn a s.visitor) ≡ true
        → Ended (a ∷ rounds) s.visitor (
            end_polling
              (record s { visitor = turn a s.visitor; is_polling = false; is_closing = true }))
    unfolding end_polling perform_shutdown visits
    round-Ended a rounds s asked = record {
      returned = refl;
      no_listener = refl;
      flagged = refl;
      stopped = refl;
      asked = asked;
      done = a ∷ [];
      left = rounds;
      in_order = refl;
      served = refl;
    }

    later-Ended :
        (a : Round V S) (rounds : List (Round V S)) (v : V) (r : Run V)
        → Ended rounds (turn a v) r
        → Ended (a ∷ rounds) v r
    unfolding visits
    later-Ended a rounds v r w = record {
      returned = w.returned;
      no_listener = w.no_listener;
      flagged = w.flagged;
      stopped = w.stopped;
      asked = w.asked;
      done = a ∷ w.done;
      left = w.left;
      in_order = ap (λ rest. a ∷ rest) w.in_order;
      served = w.served;
    }

    poll_rounds-Ended :
        (a : Round V S) (rounds : List (Round V S)) (s : Server V)
        → Polls s
        → visitor.get_shutdown_requested (visits (a ∷ rounds) s.visitor) ≡ true
        → Ended (a ∷ rounds) s.visitor (poll_rounds visitor (a ∷ rounds) s)
    unfolding visits
    poll_rounds-Ended a [] s polls asked =
        rw
          (
            poll_rounds-round a [] s polls.0,
            goes_on-asked [] (with_visitor (turn a s.visitor) s) asked,
          )
          (round-Ended a [] s asked)
    poll_rounds-Ended a (b ∷ rounds) s polls asked =
        let t = with_visitor (turn a s.visitor) s in
        elim (Bool-cases (visitor.get_shutdown_requested (turn a s.visitor))) [
          | inl e ↦
              subst (Ended (a ∷ b ∷ rounds) s.visitor)
                (sym (poll_rounds-round a (b ∷ rounds) s polls.0 ∙ goes_on-asked (b ∷ rounds) t e))
                (round-Ended a (b ∷ rounds) s e)
          | inr e ↦
              subst (Ended (a ∷ b ∷ rounds) s.visitor)
                (sym (
                  poll_rounds-round a (b ∷ rounds) s polls.0
                  ∙ goes_on-unasked (b ∷ rounds) t polls e))
                (later-Ended a (b ∷ rounds) s.visitor _ (poll_rounds-Ended b rounds t polls asked))
        ]

    poll_new_connections-poll_rounds :
        (rounds : List (Round V S)) (s : Server V)
        → s.has_listener ≡ true
        → s.is_polling ≡ false
        → poll_new_connections visitor rounds s
          ≡ poll_rounds visitor rounds (record s { is_polling = true })
    unfolding poll_new_connections assert_listening
    poll_new_connections-poll_rounds rounds s listening idle =
        rw (poll_new_connections, assert_listening, listening, idle)
          (ap (λ b. poll_rounds visitor rounds (record s { has_listener = b; is_polling = true }))
            listening)

    -- Where no handler panics, a listener that does not poll yet polls on, whatever connections fail to
    -- be accepted, until the visitor asks for a shutdown, which other threads may make it do: if it asks
    -- by the end of the given rounds, polling has ended by then with success, the server is closed and
    -- its listener gone, and the visitor has been through a first part of the rounds, in order.
    pub poll_new_connections-Ended :
        (a : Round V S) (rounds : List (Round V S)) (s : Server V)
        → s.has_listener ≡ true
        → s.is_polling ≡ false
        → visitor.get_shutdown_requested (visits (a ∷ rounds) s.visitor) ≡ true
        → Ended (a ∷ rounds) s.visitor (poll_new_connections visitor (a ∷ rounds) s)
    poll_new_connections-Ended a rounds s listening idle asked =
        subst (Ended (a ∷ rounds) s.visitor)
          (sym (poll_new_connections-poll_rounds (a ∷ rounds) s listening idle))
          (poll_rounds-Ended a rounds (record s { is_polling = true }) (listening, refl) asked)
