-- ===== src/Tests/Clients.antt =====
-- Runs of crates/client/src/service: a client that opens two services.
use trust.Prelude.{
  ◌≡◌, inl, refl, none, some, [], ◌∷◌, ◌++◌, Text, codes, text_eq, nat_eq, text_beq, if◌then◌else◌,
  ◌-◌,
}
use trust.HashMap.{get, insert, contains_key}
use trust.Text.{u64_bound}
use trust.AppError.{to_string}
use trust.Channel.{send}
use trust.Result.{ok}
use trust.Proxy.Event.{closed, message, key_value}
use trust.Gateway.Visitor.Accept.{TcpStream}
use trust.Net.TlsClient
use trust.Net.TlsClient.{TlsNetwork}
use trust.Client.Visitor
use trust.Client.Visitor.{TcpClientProxyServerVisitor}
use trust.Client.Visitor.Udp
use trust.Client.Visitor.Udp.{UdpClientProxyServerVisitor, on_message_received, udp_key}
use trust.Client.Visitor.Datagram.{
  Delivers, Strands, on_message_received-Delivers, on_message_received-removed,
}
use trust.Client.Manager.{
  ClientServiceMgr, ProxyAddrs, tcp_visitor, new, startup, shutdown, process_next_proxy_event,
}
use trust.Client.Manager.Coherent.{IsCoherent}
use trust.Client.Manager.Closed.{process_next_proxy_event-forgets}
use trust.Client.Manager.Shutdown.{shutdown-forgets_all}
use trust.Client.Manager.Requests.{shutdown_open, closes_of}
use trust.Client.Manager.History.{
  Step, Performs, action, directory, Reach, here, next, starts, connects, after_connection,
  directory, Reach-IsCoherent_client, Reach-refines_directory,
}
use trust.Tests.Samples.{chat, echo, ann_sock, tasks}

-- A gateway that takes every connection.
abbrev pub gateway : TlsNetwork
gateway = record {
  ServerName = Text;
  SocketAddr = Text;
  ClientConnection = Text;
  TcpStream = Text;
  server_name = λ host. inl host;
  to_socket_addrs = λ host port. inl (host ∷ []);
  new_connection = λ alpn name. inl alpn;
  connect = λ addr. inl addr;
  complete_io = λ conn stream. none;
  set_nonblocking = λ stream. none;
  try_clone = λ stream. none;
  debug_name = λ name. name;
  debug_addr = λ addr. addr;
  display_addr = λ addr. addr;
}

abbrev local : ProxyAddrs
local = record { client_port = 5000; gateway_host = codes "gw"; gateway_port = 8500 }

abbrev begun : ClientServiceMgr
begun = (startup chat local (new tasks)).1

abbrev chat_visitor : TcpClientProxyServerVisitor
chat_visitor = Visitor.new chat 5000 (codes "gw") 8500 []

abbrev debug_stream : TcpStream → Text
debug_stream s = codes "TcpStream"

-- The client with one connection to the chat.
abbrev talking : ClientServiceMgr
talking = after_connection gateway debug_stream ann_sock 200 chat_visitor begun

chat_is_found : get 200 begun.service_proxy_visitors ≡ some (tcp_visitor chat_visitor)
unfolding startup get new insert
chat_is_found = refl

Reach-begun : Reach (new tasks) begun
Reach-begun = next here (starts chat local)

Reach-talking : Reach (new tasks) talking
Reach-talking =
    next Reach-begun (connects gateway debug_stream ann_sock 200 chat_visitor chat_is_found)

abbrev ann_key : Text
ann_key = codes "T&T:\"1.1.1.1:1\",\"2.2.2.2:2\""

talking_has_key : talking.services_by_proxy_key ≡ ((ann_key, 200) ∷ [])
unfolding startup get Visitor.on_conn_accepted key_value send new insert
talking_has_key = refl

Reach-IsCoherent_client_example : IsCoherent talking
Reach-IsCoherent_client_example = Reach-IsCoherent_client tasks Reach-talking

abbrev connecting : Step begun talking
connecting = connects gateway debug_stream ann_sock 200 chat_visitor chat_is_found

Reach-refines_directory_example : Performs (action connecting) (directory begun) (directory talking)
Reach-refines_directory_example = Reach-refines_directory tasks Reach-begun connecting

no_max : get (u64_bound - 1) talking.service_proxy_visitors ≡ none
unfolding startup get insert new
no_max = refl

process_next_proxy_event-forgets_example :
    let done = process_next_proxy_event (some (closed ann_key)) talking in
    (done.0 ≡ ok (contains_key ann_key talking.services_by_proxy_key))
    × ((k : Text)
        → get k done.1.services_by_proxy_key
          ≡ (if text_beq ann_key k then none else get k talking.services_by_proxy_key))
    × IsCoherent done.1
process_next_proxy_event-forgets_example =
    process_next_proxy_event-forgets ann_key talking (Reach-IsCoherent_client tasks Reach-talking)
      no_max

shutdown-forgets_all_example :
    get ann_key (shutdown to_string talking).1.services_by_proxy_key ≡ none
shutdown-forgets_all_example =
    shutdown-forgets_all to_string talking ann_key (Reach-IsCoherent_client tasks Reach-talking)

tasks_stay : talking.proxy_tasks_sender.drops_at ≡ none
unfolding startup Visitor.on_conn_accepted send get new
tasks_stay = refl

shutdown_open_example :
    ((shutdown to_string talking).0 ≡ ok tt)
    × ((shutdown to_string talking).1.proxy_tasks_sender.sent
        ≡ talking.proxy_tasks_sender.sent ++ closes_of talking.service_proxy_visitors)
shutdown_open_example = shutdown_open to_string talking tasks_stay

abbrev echo_visitor : UdpClientProxyServerVisitor
echo_visitor = Udp.new echo 5001 (codes "gw") 8501 []

-- The visitor after a first datagram, whose proxy takes no more than one.
abbrev echoed : UdpClientProxyServerVisitor
echoed =
    (on_message_received gateway (some 1) (codes "2.2.2.2:2") (codes "1.1.1.1:1") (1 ∷ [])
      echo_visitor tasks).1

echo_is_sent :
    (on_message_received gateway
      (some 1)
      (codes "2.2.2.2:2")
      (codes "1.1.1.1:1")
      (1 ∷ [])
      echo_visitor
      tasks).0
    ≡ ok tt
unfolding on_message_received Udp.new get send key_value contains_key TlsClient.connect
    TlsClient.establish insert
echo_is_sent = refl

on_message_received-Delivers_example :
    Delivers echo_visitor echoed
      (udp_key (codes "1.1.1.1:1") (codes "2.2.2.2:2"))
      (message (udp_key (codes "1.1.1.1:1") (codes "2.2.2.2:2")) (codes "1.1.1.1:1") (1 ∷ []))
on_message_received-Delivers_example =
    on_message_received-Delivers gateway (some 1) (codes "2.2.2.2:2") (codes "1.1.1.1:1") (1 ∷ [])
      echo_visitor tasks echo_is_sent

on_message_received-removed_example :
    let key = udp_key (codes "1.1.1.1:1") (codes "2.2.2.2:2") in
    let removed = record echoed { base = (Visitor.remove_proxy_for_key key echoed.base).1 } in
    let done =
      on_message_received gateway
        (some 1)
        (codes "2.2.2.2:2")
        (codes "1.1.1.1:1")
        (2 ∷ [])
        removed
        tasks in
    Strands echoed done.1 done.0 tasks done.2 key (message key (codes "1.1.1.1:1") (2 ∷ []))
on_message_received-removed_example =
    on_message_received-removed gateway (some 1) (codes "2.2.2.2:2") (codes "1.1.1.1:1") (1 ∷ [])
      (2 ∷ []) echo_visitor tasks tasks echo_is_sent
