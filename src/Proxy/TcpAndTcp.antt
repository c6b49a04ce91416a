-- ===== src/Proxy/TcpAndTcp.antt =====
-- crates/common/src/proxy/proxy_tcp_and_tcp.rs: a proxy between two TCP streams. What the poller gives
-- is an argument: a list of rounds. The thread that copies is run here to its end, or to the end of the
-- list. It shares the flag `closed` with the caller of `connect`, who clears it once the thread has
-- started. Shutting a socket down only logs an error.
pub mod Reports
use trust.Prelude.{
  ℕ, Bool, true, false, Option, none, some, List, [], ◌∷◌, ◌++◌, Text, codes, if◌then◌else◌,
}
use trust.AppError.{AppError, ForeignError, gen_with_msg_and_err, would_block, stream_eof}
use trust.Channel.{Channel, send}
use trust.Result.{Result, ok, err, panic, ◌>>=◌}
use trust.Proxy.Event.{ProxyEvent, closed}
use trust.Proxy.Streams.{Stream, read_tcp_stream, write_tcp_stream}

pub record TcpAndTcpStreamProxy : Type 0 where
  pub proxy_key : Text
  pub stream1 : Stream
  pub stream2 : Stream
  pub proxy_channel_sender : Channel ProxyEvent
  pub is_closing : Bool
  pub is_closed : Bool

abbrev pub or_stop : Option ForeignError → Text → Result (Unit {0})
or_stop none msg = ok tt
or_stop (some e) msg = err (gen_with_msg_and_err msg e)

-- `clone_std_tcp_stream`, which prints the stream.
abbrev pub clone_failed : Text → Text
clone_failed stream = codes "Error trying to clone tcp stream: stream=" ++ stream

-- Why cloning a stream, or making it non-blocking, fails, if it does.
pub record Handles : Type 0 where
  pub debug_stream1 : Text
  pub debug_stream2 : Text
  pub clone1 : Option ForeignError
  pub clone2 : Option ForeignError
  pub set_nonblocking1 : Option ForeignError
  pub set_nonblocking2 : Option ForeignError

-- `TcpAndTcpStreamProxy::new`.
unfoldable pub new :
    Handles → Text → Stream → Stream → Channel ProxyEvent → Result TcpAndTcpStreamProxy
new h proxy_key stream1 stream2 proxy_channel_sender = do
  c1 ← or_stop h.clone1 (clone_failed h.debug_stream1)
  c2 ← or_stop h.clone2 (clone_failed h.debug_stream2)
  n1 ←
      or_stop h.set_nonblocking1
        (codes "Failed making stream 1 socket non-blocking: proxy_stream=" ++ proxy_key)
  n2 ←
      or_stop h.set_nonblocking2
        (codes "Failed making stream 2 socket non-blocking: proxy_stream=" ++ proxy_key)
  ok (record {
    proxy_key = proxy_key;
    stream1 = stream1;
    stream2 = stream2;
    proxy_channel_sender = proxy_channel_sender;
    is_closing = false;
    is_closed = false;
  })

-- What copying what is there from one stream to the other comes to.
pub data Copied : Type 0 where
  copies skips ends : Copied
  fails : AppError → Copied

abbrev pub after_write : Result (Unit {0}) → Copied
after_write (ok t) = copies
after_write (err would_block) = skips
after_write (err stream_eof) = ends
after_write (err e) = fails e
after_write panic = ends

abbrev pub copy_bytes : Result (List ℕ) → Stream → Copied × Stream
copy_bytes (ok buffer) target = let w = write_tcp_stream buffer target in (after_write w.0, w.1)
copy_bytes (err e) target = (fails e, target)
copy_bytes panic target = (ends, target)

-- One arm of the `match` on the token: the two streams after it.
unfoldable pub copy_stream : Stream → Stream → Copied × Stream × Stream
unfolding read_tcp_stream write_tcp_stream
copy_stream source target =
    let r = read_tcp_stream source in let c = copy_bytes r.0 target in (c.0, r.1, c.1)

-- An event of the poller: which stream can be read, and why registering it again fails, if it does.
pub data Ready : Type 0 where
  stream1_ready stream2_ready : Option ForeignError → Ready
  other_token : Ready

-- Where the loop over the events leads: on, out of the loop, or to an error.
pub data Leads : Type 0 where
  on out : Leads
  to_error : AppError → Leads

abbrev pub with_streams : TcpAndTcpStreamProxy → Stream → Stream → TcpAndTcpStreamProxy
with_streams p s t = record p { stream1 = s; stream2 = t }

abbrev pub register_failed : Text → ForeignError → AppError
register_failed number e =
    gen_with_msg_and_err
      (codes "Error registering tcp stream " ++ (number ++ codes " in MIO registry")) e

-- What follows on a copy; `rest` is the loop over the events that are left.
abbrev pub after_copy :
    Text
    → Copied
    → Option ForeignError
    → TcpAndTcpStreamProxy
    → Leads × TcpAndTcpStreamProxy
    → Leads × TcpAndTcpStreamProxy
after_copy number copies none p rest = rest
after_copy number copies (some e) p rest = (to_error (register_failed number e), p)
after_copy number skips reregister p rest = rest
after_copy number ends reregister p rest = (out, p)
after_copy number (fails e) reregister p rest = (to_error e, p)

-- The loop over the events of a round.
unfoldable pub copy_ready : List Ready → TcpAndTcpStreamProxy → Leads × TcpAndTcpStreamProxy
unfolding copy_stream
copy_ready [] p = (on, p)
copy_ready (other_token ∷ events) p = copy_ready events p
copy_ready (stream1_ready reregister ∷ events) p =
    let c = copy_stream p.stream1 p.stream2 in
    let q = with_streams p c.1 c.2 in after_copy (codes "1") c.0 reregister q (copy_ready events q)
copy_ready (stream2_ready reregister ∷ events) p =
    let c = copy_stream p.stream2 p.stream1 in
    let q = with_streams p c.2 c.1 in after_copy (codes "2") c.0 reregister q (copy_ready events q)

-- `perform_shutdown`.
unfoldable pub perform_shutdown : TcpAndTcpStreamProxy → TcpAndTcpStreamProxy
perform_shutdown p = record p {
  proxy_channel_sender = (send (closed p.proxy_key) p.proxy_channel_sender).1;
  is_closed = true;
}

-- `disconnect`.
unfoldable pub disconnect : TcpAndTcpStreamProxy → TcpAndTcpStreamProxy
disconnect p = record p { is_closing = true }

-- What happens before the loop looks at the flag `closing` again: a poll, or a call of `disconnect`.
pub data Round : Type 0 where
  poll_blocks disconnects : Round
  poll_fails : ForeignError → Round
  polled : List Ready → Round

abbrev pub Run : Type 0
Run = Option (Result (Unit {0})) × TcpAndTcpStreamProxy

abbrev pub finish : Result (Unit {0}) → TcpAndTcpStreamProxy → Run
finish r p = (some r, perform_shutdown p)

abbrev pub fail : AppError → TcpAndTcpStreamProxy → Run
fail e p = finish (err e) (record p { is_closing = true })

-- The loop `'EVENTS` with what follows it: nothing where it still runs at the end of the rounds.
unfoldable pub copy_loop : List Round → TcpAndTcpStreamProxy → Run
unfolding copy_ready perform_shutdown disconnect
copy_loop [] p = if p.is_closing then finish (ok tt) p else (none, p)
copy_loop (poll_blocks ∷ rounds) p =
    let rest = copy_loop rounds p in if p.is_closing then finish (ok tt) p else rest
copy_loop (disconnects ∷ rounds) p =
    let rest = copy_loop rounds (disconnect p) in if p.is_closing then finish (ok tt) p else rest
copy_loop (poll_fails e ∷ rounds) p =
    if p.is_closing
    then finish (ok tt) p
    else fail (gen_with_msg_and_err (codes "Error while polling for IO events") e) p
copy_loop (polled events ∷ rounds) p =
    let done = copy_ready events p in
    let rest = copy_loop rounds done.1 in
    if p.is_closing
    then finish (ok tt) p
    else elim done.0 [ on ↦ rest | out ↦ finish (ok tt) done.1 | to_error e ↦ fail e done.1 ]

-- The copying thread. `setup` is why the poller cannot be set up, if it cannot.
unfoldable pub copy_thread : Option AppError → List Round → TcpAndTcpStreamProxy → Run
unfolding copy_loop
copy_thread setup rounds p = elim setup [ some e ↦ finish (err e) p | none ↦ copy_loop rounds p ]

-- Which comes first: `connect` clears the flag `closed`, or the thread it has started ends.
pub data Order : Type 0 where
  clears_first thread_first : Order

-- The flag is cleared, by the thread that called `connect`.
abbrev pub clear_closed : TcpAndTcpStreamProxy → TcpAndTcpStreamProxy
clear_closed p = record p { is_closed = false }

abbrev pub run_thread : Order → Option AppError → List Round → TcpAndTcpStreamProxy → Run
run_thread clears_first setup rounds p = copy_thread setup rounds (clear_closed p)
run_thread thread_first setup rounds p =
    let done = copy_thread setup rounds p in (done.0, clear_closed done.1)

-- `connect`, and what its thread comes to. `clones` is why the streams cannot be cloned, if they cannot.
unfoldable pub connect :
    Order
    → Option AppError
    → Option AppError
    → List Round
    → TcpAndTcpStreamProxy
    → Result (Unit {0}) × Run
unfolding copy_thread
connect order clones setup rounds p = elim clones [
  | some e ↦ (err e, (none, record p { is_closing = false }))
  | none ↦ (ok tt, run_thread order setup rounds (record p { is_closing = false }))
]
