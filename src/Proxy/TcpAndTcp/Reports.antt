-- ===== src/Proxy/TcpAndTcp/Reports.antt =====
-- What a proxy between two TCP streams tells of itself.
use trust.Prelude.{
  ◌≡◌, ◌⊎◌, append-nil, inl, inr, refl, Bool, true, false, Option, none, some, List, [], ◌∷◌, ◌++◌,
  Text, codes, arith, if◌then◌else◌,
}
use trust.AppError.{AppError, ForeignError}
use trust.Channel.{IsOpen, send-IsOpen}
use trust.Result.{Result, ok, err}
use trust.Proxy.Event.{ProxyEvent, closed}
use trust.Proxy.Streams.{Stream}
use trust.Proxy.TcpAndTcp.{
  TcpAndTcpStreamProxy, Copied, copies, skips, ends, fails, Ready, stream1_ready, stream2_ready,
  other_token, Leads, on, out, to_error, with_streams, after_copy, copy_stream, copy_ready,
  perform_shutdown, disconnect, Round, poll_blocks, disconnects, poll_fails, polled, Run, finish,
  fail, copy_loop, copy_thread, Order, clears_first, thread_first, connect,
}

-- The proxy has the same key and channel.
record SameState (p q : TcpAndTcpStreamProxy) : Type 0 where
  same_key : q.proxy_key ≡ p.proxy_key
  same_sender : q.proxy_channel_sender ≡ p.proxy_channel_sender

after_copy-SameState :
    (number : Text) (c : Copied) (reregister : Option ForeignError) (p q : TcpAndTcpStreamProxy)
    (rest : Leads × TcpAndTcpStreamProxy)
    → SameState p q
    → SameState p rest.1
    → SameState p (after_copy number c reregister q rest).1
after_copy-SameState number copies none p q rest h r = r
after_copy-SameState number copies (some e) p q rest h r = h
after_copy-SameState number skips reregister p q rest h r = r
after_copy-SameState number ends reregister p q rest h r = h
after_copy-SameState number (fails e) reregister p q rest h r = h

SameState-streams :
    {p r : TcpAndTcpStreamProxy} {s t : Stream} → SameState (with_streams p s t) r → SameState p r
SameState-streams h = record { same_key = h.same_key; same_sender = h.same_sender }

copy_ready-SameState :
    (events : List Ready) (p : TcpAndTcpStreamProxy) → SameState p (copy_ready events p).1
unfolding copy_ready
copy_ready-SameState [] p = record { same_key = refl; same_sender = refl }
copy_ready-SameState (other_token ∷ events) p = copy_ready-SameState events p
copy_ready-SameState (stream1_ready reregister ∷ events) p =
    let c = copy_stream p.stream1 p.stream2 in
    let q = with_streams p c.1 c.2 in
    after_copy-SameState (codes "1") c.0 reregister p q (copy_ready events q)
      (record { same_key = refl; same_sender = refl })
      (SameState-streams (copy_ready-SameState events q))
copy_ready-SameState (stream2_ready reregister ∷ events) p =
    let c = copy_stream p.stream2 p.stream1 in
    let q = with_streams p c.2 c.1 in
    after_copy-SameState (codes "2") c.0 reregister p q (copy_ready events q)
      (record { same_key = refl; same_sender = refl })
      (SameState-streams (copy_ready-SameState events q))

Leads-cases : (l : Leads) → (l ≡ on) ⊎ (l ≡ out) ⊎ ((e : AppError) × (l ≡ to_error e))
Leads-cases on = inl refl
Leads-cases out = inr (inl refl)
Leads-cases (to_error e) = inr (inr (e, refl))

-- The reports of a proxy: none while its thread runs, and one when it has ended.
abbrev pub reports : Text → Option (Result (Unit {0})) → List ProxyEvent
reports key none = []
reports key (some r) = closed key ∷ []

-- Where the thread has ended, the flag `closed` is as given.
abbrev pub IsFlaggedAs : Bool → Option (Result (Unit {0})) → Bool → Type 0
IsFlaggedAs flag none is_closed = Unit
IsFlaggedAs flag (some r) is_closed = is_closed ≡ flag

pub record Reports (p : TcpAndTcpStreamProxy) (r : Run) : Type 0 where
  pub told : r.1.proxy_channel_sender.sent ≡ p.proxy_channel_sender.sent ++ reports p.proxy_key r.0
  pub flagged : IsFlaggedAs true r.0 r.1.is_closed

Reports-SameState :
    {p q : TcpAndTcpStreamProxy} {r : Run} → SameState p q → Reports q r → Reports p r
Reports-SameState h w = record {
  told = ground (arith, h.same_key, h.same_sender, w.told);
  flagged = w.flagged;
}

finish-Reports :
    (result : Result (Unit {0})) (p : TcpAndTcpStreamProxy)
    → IsOpen p.proxy_channel_sender
    → Reports p (finish result p)
unfolding perform_shutdown
finish-Reports result p listening = record {
  told = ground (arith, send-IsOpen (closed p.proxy_key) p.proxy_channel_sender listening);
  flagged = refl;
}

fail-Reports :
    (e : AppError) (p : TcpAndTcpStreamProxy) → IsOpen p.proxy_channel_sender → Reports p (fail e p)
fail-Reports e p listening =
    Reports-SameState (record { same_key = refl; same_sender = refl })
      (finish-Reports (err e) (record p { is_closing = true }) listening)

runs-Reports : (p : TcpAndTcpStreamProxy) → Reports p (none, p)
runs-Reports p = record { told = rw append-nil refl; flagged = tt }

-- What the loop does, apart from its test of the flag `closing`.
module _ (p : TcpAndTcpStreamProxy) (listening : IsOpen p.proxy_channel_sender) where
  unless_closing :
      (closing : Bool) (rest : Run)
      → Reports p rest
      → Reports p (if closing then finish (ok tt) p else rest)
  unless_closing true rest w = finish-Reports (ok tt) p listening
  unless_closing false rest w = w

  led :
      (events : List Ready) (rest : Run)
      → Reports (copy_ready events p).1 rest
      → Reports p (elim (copy_ready events p).0 [
        | on ↦ rest
        | out ↦ finish (ok tt) (copy_ready events p).1
        | to_error e ↦ fail e (copy_ready events p).1
      ])
  led events rest w =
      let h = copy_ready-SameState events p in
      let open_still : IsOpen (copy_ready events p).1.proxy_channel_sender =
        rw h.same_sender listening in
      elim (Leads-cases (copy_ready events p).0) [
        | inl e ↦ rw e (Reports-SameState h w)
        | inr (inl e) ↦
            rw e (Reports-SameState h (finish-Reports (ok tt) (copy_ready events p).1 open_still))
        | inr (inr (x, e)) ↦
            rw e (Reports-SameState h (fail-Reports x (copy_ready events p).1 open_still))
      ]

copy_loop-Reports :
    (rounds : List Round) (p : TcpAndTcpStreamProxy)
    → IsOpen p.proxy_channel_sender
    → Reports p (copy_loop rounds p)
unfolding copy_loop disconnect
copy_loop-Reports [] p listening =
    unless_closing p listening p.is_closing (none, p) (runs-Reports p)
copy_loop-Reports (poll_blocks ∷ rounds) p listening =
    unless_closing p listening p.is_closing (copy_loop rounds p)
      (copy_loop-Reports rounds p listening)
copy_loop-Reports (disconnects ∷ rounds) p listening =
    unless_closing p listening p.is_closing (copy_loop rounds (disconnect p)) (
      Reports-SameState (record { same_key = refl; same_sender = refl })
        (copy_loop-Reports rounds (disconnect p) listening))
copy_loop-Reports (poll_fails e ∷ rounds) p listening =
    unless_closing p listening p.is_closing _ (fail-Reports _ p listening)
copy_loop-Reports (polled events ∷ rounds) p listening = unless_closing p listening p.is_closing _ (
    led p listening events (copy_loop rounds (copy_ready events p).1) (
      copy_loop-Reports rounds (copy_ready events p).1
        (rw (copy_ready-SameState events p).same_sender listening)))

-- The flag when `connect` is done and the thread has ended.
abbrev pub flag_of : Order → Bool
flag_of clears_first = true
flag_of thread_first = false

-- What `connect` and its thread come to: the reports, and the flag where the thread was started and
-- has ended.
pub record Connects (order : Order) (p : TcpAndTcpStreamProxy) (r : Run) : Type 0 where
  pub told : r.1.proxy_channel_sender.sent ≡ p.proxy_channel_sender.sent ++ reports p.proxy_key r.0
  pub flagged : IsFlaggedAs (flag_of order) r.0 r.1.is_closed

copy_thread-Reports :
    (setup : Option AppError) (rounds : List Round) (p : TcpAndTcpStreamProxy)
    → IsOpen p.proxy_channel_sender
    → Reports p (copy_thread setup rounds p)
unfolding copy_thread
copy_thread-Reports (some e) rounds p listening = finish-Reports (err e) p listening
copy_thread-Reports none rounds p listening = copy_loop-Reports rounds p listening

cleared : (r : Option (Result (Unit {0}))) → IsFlaggedAs false r false
cleared none = tt
cleared (some r) = refl

-- While the receiver of events stays, a proxy between two TCP streams reports that it is closed once,
-- when its thread has ended, whatever ended it; it reports nothing before, nor where its streams cannot
-- be cloned. After the end it is flagged as closed, unless the thread ended before `connect` cleared the
-- flag: then it is not.
pub connect-Reports :
    (order : Order) (clones setup : Option AppError) (rounds : List Round)
    (p : TcpAndTcpStreamProxy)
    → IsOpen p.proxy_channel_sender
    → Connects order p (connect order clones setup rounds p).1
unfolding connect
connect-Reports order (some e) setup rounds p listening = record {
  told = rw append-nil refl;
  flagged = tt;
}
connect-Reports clears_first none setup rounds p listening =
    let q = record p { is_closing = false; is_closed = false } in
    let w = copy_thread-Reports setup rounds q listening in
    record { told = w.told; flagged = w.flagged }
connect-Reports thread_first none setup rounds p listening =
    let q = record p { is_closing = false } in
    let w = copy_thread-Reports setup rounds q listening in
    record { told = w.told; flagged = cleared (copy_thread setup rounds q).0 }
