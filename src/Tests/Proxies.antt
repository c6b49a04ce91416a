-- ===== src/Tests/Proxies.antt =====
-- Runs of crates/common/src/proxy/proxy_tcp_and_tcp.rs.
use trust.Prelude.{◌≡◌, refl, false, none, some, [], ◌∷◌, codes, take}
use trust.Channel.{send}
use trust.Result.{err}
use trust.Proxy.Event.{closed}
use trust.Proxy.Streams.{bytes, read_fails, write_fails, blocked, broken_pipe}
use trust.AppError.{stream_eof}
use trust.Proxy.TcpAndTcp.{
  clears_first, thread_first, TcpAndTcpStreamProxy, stream1_ready, polled, poll_blocks, disconnects,
  connect,
}
use trust.Proxy.TcpAndTcp.Reports.{Connects, connect-Reports}

-- The first stream sends three bytes and is then broken.
abbrev relay : TcpAndTcpStreamProxy
relay = record {
  proxy_key = codes "T&T:k";
  stream1 = record {
    incoming = bytes (1 ∷ 2 ∷ 3 ∷ []) ∷ read_fails broken_pipe ∷ [];
    outgoing = [];
    written = [];
  };
  stream2 = record { incoming = []; outgoing = []; written = [] };
  proxy_channel_sender = record { sent = []; drops_at = none };
  is_closing = false;
  is_closed = false;
}

connect-Reports_example :
    Connects thread_first relay
      (connect thread_first none none
        (polled (stream1_ready none ∷ []) ∷ poll_blocks ∷ polled (stream1_ready none ∷ []) ∷ [])
        relay).1
connect-Reports_example =
    connect-Reports thread_first none none
      (polled (stream1_ready none ∷ []) ∷ poll_blocks ∷ polled (stream1_ready none ∷ []) ∷ []) relay
      refl

-- The thread has ended, and the proxy is not flagged as closed.
relay_is_not_flagged :
    let done = connect thread_first none (some stream_eof) [] relay in
    (done.1.0 ≡ some (err stream_eof)) × (done.1.1.is_closed ≡ false)
unfolding connect
relay_is_not_flagged = (refl, refl)

-- The three bytes are relayed, and the proxy is reported as closed.
relay_ends :
    (connect clears_first none none
      (polled (stream1_ready none ∷ []) ∷ poll_blocks ∷ polled (stream1_ready none ∷ []) ∷ [])
      relay).1.1.proxy_channel_sender.sent
    ≡ closed (codes "T&T:k") ∷ []
unfolding connect send
relay_ends = refl

relay_copies :
    (connect clears_first none none
      (polled (stream1_ready none ∷ []) ∷ poll_blocks ∷ polled (stream1_ready none ∷ []) ∷ [])
      relay).1.1.stream2.written
    ≡ 1 ∷ 2 ∷ 3 ∷ []
unfolding connect send
relay_copies = refl

-- A write that blocks after one byte loses the others.
relay_loses :
    (connect clears_first none none
      (polled (stream1_ready none ∷ []) ∷ disconnects ∷ [])
      (record relay {
        stream2 = record { incoming = []; outgoing = write_fails 1 blocked ∷ []; written = [] };
      })).1.1.stream2.written
    ≡ take 1 (1 ∷ 2 ∷ 3 ∷ [])
unfolding connect send
relay_loses = refl

-- The end of a stream, a read of no bytes, leaves the proxy running: nothing is reported.
relay_stays :
    (connect clears_first none none (polled (stream1_ready none ∷ []) ∷ []) (record relay {
      stream1 = record { incoming = bytes [] ∷ []; outgoing = []; written = [] };
    })).1.1.proxy_channel_sender.sent
    ≡ []
unfolding connect send
relay_stays = refl
