-- ===== src/Tests/Listening.antt =====
-- Runs of crates/common/src/net/tcp_server/server_std.rs and tls_server/server_std.rs.
use trust.Prelude.{ℕ, ◌≡◌, refl, true, false, none, some, List, [], ◌∷◌, codes, ◌+◌, inl}
use trust.Result.{ok, panic}
use trust.HashMap.{insert}
use trust.Channel.{send}
use trust.Proxy.Event.{key_value}
use trust.Proxy.Executor.{open_tcp_and_tcp_proxy}
use trust.Gateway.Visitor.Accept.{TcpStream}
use trust.Net.TlsClient
use trust.Net.Server.{
  ServerVisitor, accept, accept_stream, Server, Accepting, Round, waits, connects, bind_listener,
  poll_new_connections, new,
}
use trust.Net.TlsServer.{
  HelloRead, read_fails, hello_waits, hello_read, TlsAccepting, handshakes, accept_tls,
}
use trust.Net.Server.Polling.{Ended, visits, poll_new_connections-Ended}
use trust.Client.Visitor
use trust.Client.Visitor.{set_shutdown_requested}
use trust.Client.Visitor.Serving.{Served, as_server_visitor, as_server_visitor-IsCalm}
use trust.Tests.Samples.{chat, ann_sock, tasks}
use trust.Tests.Clients.{gateway}

-- The listener of the client's port for the chat, whose visitor has the channel to the executor.
abbrev chat_server : ServerVisitor Served TcpStream TcpStream
chat_server = as_server_visitor gateway (λ s. codes "TcpStream")

abbrev chat_visitor : Served
chat_visitor = (Visitor.new chat 5000 (codes "gw") 8500 [], tasks)

abbrev bound : Server Served
bound = record {
  visitor = chat_visitor;
  server_port = 8400;
  has_listener = true;
  listen_addr = codes "[::]:8400";
  is_polling = false;
  is_closing = false;
  is_closed = false;
}

-- The listener that is bound to its port is the one that polls.
binds :
    (bind_listener chat_server
      (record {
        server_addr = inl (codes "[::]:8400");
        bind_error = none;
        nonblocking_error = none;
      })
      (new chat_visitor 8400)).1
    ≡ bound
unfolding bind_listener new as_server_visitor
binds = refl

abbrev quiet : Accepting TcpStream → Round Served TcpStream
quiet a = record { before = λ w. w; accepting = a; between = λ w. w; meanwhile = λ w. w }

-- The service manager asks the visitor for a shutdown after a connection, while nobody connects.
abbrev asking : Round Served TcpStream
asking = record {
  before = λ w. w;
  accepting = waits;
  between = λ w. w;
  meanwhile = λ w. (set_shutdown_requested w.0, w.1);
}

abbrev rounds : List (Round Served TcpStream)
rounds = quiet (connects (codes "1.1.1.1:1") none ann_sock) ∷ asking ∷ quiet waits ∷ []

asks :
    chat_server.get_shutdown_requested (visits chat_server (quiet waits ∷ rounds) chat_visitor)
    ≡ true
unfolding visits as_server_visitor set_shutdown_requested
asks = refl

poll_new_connections-Ended_example :
    Ended chat_server
      (quiet waits ∷ rounds)
      chat_visitor
      (poll_new_connections chat_server (quiet waits ∷ rounds) bound)
poll_new_connections-Ended_example =
    poll_new_connections-Ended chat_server
      (as_server_visitor-IsCalm gateway (λ s. codes "TcpStream")) (quiet waits) rounds bound refl
      refl asks

-- Ann's stream is taken before the listener ends.
takes_ann :
    (poll_new_connections chat_server (quiet waits ∷ rounds) bound).1.visitor.1.sent
    ≡ open_tcp_and_tcp_proxy (codes "T&T:\"1.1.1.1:1\",\"2.2.2.2:2\"") ∷ []
unfolding poll_new_connections as_server_visitor visits set_shutdown_requested Visitor.new
    Visitor.on_conn_accepted Visitor.create_client_conn TlsClient.connect TlsClient.establish send
    key_value accept accept_stream insert
takes_ann = refl

-- It counts the connections.
abbrev counts : ServerVisitor ℕ ℕ ℕ
counts = record {
  create_client_conn = λ stream v. (ok stream, v);
  on_listening = λ v. (ok tt, v);
  on_conn_accepted = λ connection v. (ok tt, v + 1);
  get_shutdown_requested = λ v. false;
}

abbrev counter : Server ℕ
counter = record {
  visitor = 0;
  server_port = 8400;
  has_listener = true;
  listen_addr = codes "[::]:8400";
  is_polling = false;
  is_closing = false;
  is_closed = false;
}

-- A client of which the hello is read so.
abbrev client : List (HelloRead ℕ) → TlsAccepting ℕ ℕ ℕ
client hello = handshakes (record {
  peer_addr = codes "[::1]:5000";
  hello = hello;
  into_connection = λ accepted config. inl accepted;
  complete_io = none;
  set_nonblocking = none;
})

-- The client's hello comes in two reads, and its stream is taken.
takes_client :
    accept_tls counts (λ accepted v. (ok 0, v)) (client (hello_waits ∷ hello_read 1 ∷ [])) counter
    ≡ (some (ok tt), record counter { visitor = 1 })
unfolding accept_tls accept_stream
takes_client = refl

-- A client that sends no hello keeps the listener waiting.
waits_for_hello :
    (accept_tls counts
      (λ accepted v. (ok 0, v))
      (client (hello_waits ∷ hello_waits ∷ []))
      counter).0
    ≡ none
unfolding accept_tls
waits_for_hello = refl

-- A client whose hello cannot be read makes the listener panic.
panics_on_hello :
    (accept_tls counts (λ accepted v. (ok 0, v)) (client (read_fails ∷ [])) counter).0 ≡ some panic
unfolding accept_tls
panics_on_hello = refl
