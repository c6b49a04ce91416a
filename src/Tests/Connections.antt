-- ===== src/Tests/Connections.antt =====
-- Runs of crates/gateway/src/service/proxy/tcp_proxy.rs.
use trust.Prelude.{
  inl, ◌≡◌, ◌≢◌, refl, Bool, none, some, [], ◌∷◌, ◌++◌, Text, codes, arith, text_eq,
}
use trust.HashMap.{get, insert, remove}
use trust.Result.{ok, panic}
use trust.Channel.{send}
use trust.Text.{is_digit, parse_uint}
use trust.Alpn
use trust.Repository.AccessRepo
use trust.Repository.UserRepo
use trust.Gateway.Device
use trust.Gateway.Authorization.{
  process_authorization, check_user, parse_alpn_protocol, check_service,
}
use trust.Model.{udp}
use trust.Proxy.Event.{key_value, tcp_and_udp}
use trust.Gateway.Visitor.{
  TcpGatewayProxyServerVisitor, ProxyAddrs, new, remove_proxy_for_key, shutdown_connections,
  key_lists, push_for_user,
}
use trust.Gateway.Visitor.Invariant.{IsConsistent, user_of, Drops, remove_proxy_for_key-Drops}
use trust.Gateway.Visitor.Accept.{
  create_proxy_addrs, create_client_conn, on_conn_accepted, file_proxy,
}
use trust.Gateway.Visitor.AcceptUdp.{UdpNetwork, on_udp_conn_accepted}
use trust.Gateway.Visitor.Shutdown.{shutdown_connections-Closes, keep, closes_all}
use trust.Gateway.Visitor.Filing.{IsFreeAddrs}
use trust.Gateway.Visitor.History.{
  Reach, here, next, connects, accepts, Reach-IsConsistent, Reach-never_panics,
}
use trust.Tests.Samples.{platform, visitor, chat_conn, chat, services, ann_sock, network, tasks}

abbrev idle : TcpGatewayProxyServerVisitor
idle = new chat (some (codes "localhost")) 8500 []

-- Ann has connected.
abbrev connected : TcpGatewayProxyServerVisitor
connected = (create_client_conn platform visitor services chat_conn ann_sock idle).1

abbrev debug_addrs : ProxyAddrs → Text
debug_addrs addrs = addrs.0

-- Her connection has a proxy.
abbrev proxied : TcpGatewayProxyServerVisitor
proxied = (on_conn_accepted network debug_addrs ann_sock connected tasks).1

abbrev ann_key : Text
ann_key = codes "T&T:\"1.1.1.1:1\",\"3.3.3.3:3\""

no_proxies : connected.proxy_addrs_by_proxy_key ≡ []
unfolding create_client_conn new process_authorization Device.new check_user UserRepo.get
    parse_alpn_protocol Alpn.parse is_digit parse_uint check_service AccessRepo.get
no_proxies = refl

idle-IsFreeAddrs : (addrs : ProxyAddrs) → IsFreeAddrs idle addrs
unfolding new get
idle-IsFreeAddrs addrs k q = cc

connected_free : (k : Text) → get k connected.proxy_addrs_by_proxy_key ≡ none
unfolding get
connected_free k = rw no_proxies refl

Reach-proxied : Reach idle proxied
Reach-proxied =
    next
      (next here (
        connects platform visitor services chat_conn ann_sock
          (idle-IsFreeAddrs (create_proxy_addrs ann_sock))))
      (accepts network debug_addrs ann_sock tasks (record {
        free_addrs = λ k q. ground (arith, connected_free k);
        free_key = λ k q. connected_free k;
      }))

proxied_by_ann :
    proxied.proxy_addrs_by_proxy_key ≡ ((ann_key, (codes "1.1.1.1:1", codes "2.2.2.2:2")) ∷ [])
unfolding on_conn_accepted create_client_conn new send file_proxy get key_value
    process_authorization Device.new check_user UserRepo.get parse_alpn_protocol Alpn.parse is_digit
    parse_uint check_service AccessRepo.get
proxied_by_ann = refl

Reach-IsConsistent_example : IsConsistent proxied
Reach-IsConsistent_example =
    Reach-IsConsistent chat (some (codes "localhost")) 8500 [] Reach-proxied

Reach-never_panics_example :
    ((remove_proxy_for_key ann_key proxied).0 ≢ panic)
    × ((shutdown_connections (some 7) proxied tasks).0 ≢ panic)
Reach-never_panics_example =
    Reach-never_panics chat (some (codes "localhost")) 8500 [] ann_key (some 7) tasks Reach-proxied

remove_proxy_for_key-Drops_example :
    (dropped : Bool) × ((remove_proxy_for_key ann_key proxied).0 ≡ ok dropped)
    × Drops proxied ann_key (remove_proxy_for_key ann_key proxied).1 dropped
remove_proxy_for_key-Drops_example =
    remove_proxy_for_key-Drops proxied ann_key
      (Reach-IsConsistent chat (some (codes "localhost")) 8500 [] Reach-proxied)

shutdown_connections-Closes_example :
    let done = shutdown_connections (some 7) proxied tasks in
    (done.0 ≡ ok tt)
    × IsConsistent done.1.visitor
    × ((k : Text) → user_of done.1.visitor k ≡ keep (some 7) (user_of proxied k))
    × (done.1.tasks.sent ≡ tasks.sent ++ closes_all (key_lists (some 7) proxied.proxy_keys_by_user))
shutdown_connections-Closes_example =
    shutdown_connections-Closes (some 7) proxied tasks
      (Reach-IsConsistent chat (some (codes "localhost")) 8500 [] Reach-proxied) refl

-- A network in which the reply socket has the given address.
abbrev udp_network : Text → UdpNetwork
udp_network reply_addr = record {
  IpAddr = Text;
  UdpSocket = Text;
  reply_host = codes "gw";
  query_addrs = λ host. inl (host ∷ []);
  bind = λ addr. inl reply_addr;
  connect = λ socket addr port. inl socket;
  set_nonblocking = λ socket. none;
  local_addr = λ socket. some socket;
  debug_addr = λ addr port. addr;
  debug_service = λ s. s.name;
  debug_socket = λ socket. socket;
  debug_stream = λ s. codes "TcpStream";
}

abbrev reply_key : Text → Text
reply_key reply_addr = key_value tcp_and_udp (some reply_addr) (some chat.host)

abbrev over_udp : TcpGatewayProxyServerVisitor → Text → TcpGatewayProxyServerVisitor
over_udp v reply_addr =
    (on_udp_conn_accepted (udp_network reply_addr) debug_addrs ann_sock
      (create_client_conn platform visitor services chat_conn ann_sock v).1 tasks).1

-- Ann connects to the service over UDP, and again from the same address, while the first proxy, which
-- could not be connected, is still filed.
abbrev reused : TcpGatewayProxyServerVisitor
reused =
    over_udp
      (over_udp (record idle { service = record chat { transport = udp } }) (codes "5.5.5.5:1"))
      (codes "5.5.5.5:2")

-- Once one of the two keys is removed, removing the other panics.
panics_on_reused :
    (remove_proxy_for_key
      (reply_key (codes "5.5.5.5:2"))
      (remove_proxy_for_key (reply_key (codes "5.5.5.5:1")) reused).1).0
    ≡ panic
unfolding remove_proxy_for_key on_udp_conn_accepted create_client_conn new send file_proxy get
    insert key_value process_authorization Device.new check_user UserRepo.get parse_alpn_protocol
    Alpn.parse is_digit parse_uint check_service AccessRepo.get push_for_user remove
panics_on_reused = refl
