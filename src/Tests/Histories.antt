-- ===== src/Tests/Histories.antt =====
-- A history of the service manager: a service starts, Ann connects, and her connection gets a proxy.
use trust.Prelude.{
  ◌≡◌, ◌≢◌, refl, none, some, [], ◌∷◌, Text, codes, arith, text_eq, nat_eq, text_beq, if◌then◌else◌,
}
use trust.HashMap.{get, insert}
use trust.Text.{is_digit, parse_uint}
use trust.AppError.{to_string}
use trust.Channel.{send}
use trust.Result.{ok, panic}
use trust.Alpn
use trust.Proxy.Event.{key_value, message}
use trust.Repository.AccessRepo
use trust.Repository.UserRepo
use trust.Gateway.Device
use trust.Gateway.Authorization.{
  process_authorization, check_user, parse_alpn_protocol, check_service,
}
use trust.Gateway.Visitor
use trust.Gateway.Visitor.{TcpGatewayProxyServerVisitor, ProxyAddrs}
use trust.Gateway.Visitor.Accept.{create_client_conn, on_conn_accepted, file_proxy}
use trust.Gateway.Manager.{
  GatewayServiceMgr, new, lend, take_back, startup, start_new, on_closed_proxy,
}
use trust.Gateway.Manager.Events.{poll_gateway_events}
use trust.Gateway.Manager.Shutdown.{shutdown_connections}
use trust.Gateway.Manager.Coherent.{IsCoherent}
use trust.Gateway.Visitor.Invariant.{user_of}
use trust.Gateway.Manager.Closed.{on_closed_proxy-Drops}
use trust.Gateway.Manager.History.{
  Reach, start, step, starts, connects, accepts, accepted, Reach-IsCoherent, Reach-keeps_running,
}
use trust.Tests.Samples.{
  config, tasks, chat, platform, visitor, services, chat_conn, ann_sock, network,
}

abbrev chat_up : GatewayServiceMgr
chat_up = (startup chat (new config tasks)).1

abbrev chat_visitor : TcpGatewayProxyServerVisitor
chat_visitor = Visitor.new chat (some (codes "localhost")) 8500 []

abbrev ann_visitor : TcpGatewayProxyServerVisitor
ann_visitor =
    (create_client_conn platform visitor services chat_conn ann_sock (lend chat_up chat_visitor)).1

abbrev joined : GatewayServiceMgr
joined = take_back 200 ann_visitor chat_up

abbrev debug_addrs : ProxyAddrs → Text
debug_addrs addrs = addrs.0

abbrev serving : GatewayServiceMgr
serving =
    accepted 200
      (on_conn_accepted network debug_addrs ann_sock (lend joined ann_visitor)
        joined.proxy_tasks_sender)
      joined

chat_started : get 200 chat_up.service_proxy_visitors ≡ some chat_visitor
unfolding startup new start_new Visitor.new
chat_started = refl

ann_joined : get 200 joined.service_proxy_visitors ≡ some ann_visitor
unfolding startup new start_new
ann_joined = refl

no_proxies : ann_visitor.proxy_addrs_by_proxy_key ≡ []
unfolding startup new start_new create_client_conn process_authorization Device.new check_user
    UserRepo.get parse_alpn_protocol Alpn.parse is_digit parse_uint check_service AccessRepo.get
no_proxies = refl

no_keys : joined.services_by_proxy_key ≡ []
unfolding startup new start_new create_client_conn process_authorization Device.new check_user
    UserRepo.get parse_alpn_protocol Alpn.parse is_digit parse_uint check_service AccessRepo.get
no_keys = refl

one_key : serving.services_by_proxy_key ≡ ((codes "T&T:\"1.1.1.1:1\",\"3.3.3.3:3\"", 200) ∷ [])
unfolding startup new start_new on_conn_accepted send file_proxy key_value create_client_conn
    process_authorization Device.new check_user UserRepo.get parse_alpn_protocol Alpn.parse is_digit
    parse_uint check_service AccessRepo.get
one_key = refl

chat_visitor_free : (k : Text) → get k chat_visitor.proxy_addrs_by_proxy_key ≡ none
unfolding Visitor.new get
chat_visitor_free k = refl

ann_visitor_free : (k : Text) → get k ann_visitor.proxy_addrs_by_proxy_key ≡ none
unfolding get
ann_visitor_free k = rw no_proxies refl

no_key_taken : (k : Text) → get k joined.services_by_proxy_key ≡ none
unfolding get
no_key_taken k = rw no_keys refl

Reach-serving : Reach (new config tasks) serving
Reach-serving =
    step
      (accepts 200 ann_visitor network debug_addrs ann_sock ann_joined
        (record {
          free_addrs = λ k q. ground (arith, ann_visitor_free k);
          free_key = λ k q. ann_visitor_free k;
        })
        (λ k o q h. ground (arith, no_key_taken k)))
      (step
        (connects 200 chat_visitor platform visitor services chat_conn ann_sock chat_started
          (λ k q. ground (arith, chat_visitor_free k)))
        (step (starts chat) start))

Reach-IsCoherent_example : IsCoherent serving
Reach-IsCoherent_example = Reach-IsCoherent config tasks Reach-serving

Reach-keeps_running_example :
    ((on_closed_proxy (codes "T&T:\"1.1.1.1:1\",\"3.3.3.3:3\"") serving).0 ≡ ok tt)
    × ((shutdown_connections to_string (some 7) (some 200) serving).0 ≢ panic)
Reach-keeps_running_example =
    Reach-keeps_running config tasks (codes "T&T:\"1.1.1.1:1\",\"3.3.3.3:3\"") to_string (some 7)
      (some 200) Reach-serving

abbrev ann_proxied : TcpGatewayProxyServerVisitor
ann_proxied =
    (on_conn_accepted network debug_addrs ann_sock (lend joined ann_visitor)
      joined.proxy_tasks_sender).1

ann_key_known : user_of ann_proxied (codes "T&T:\"1.1.1.1:1\",\"3.3.3.3:3\"") ≡ some 7
unfolding startup new start_new on_conn_accepted send file_proxy key_value get insert Visitor.new
    create_client_conn process_authorization Device.new check_user UserRepo.get parse_alpn_protocol
    Alpn.parse is_digit parse_uint check_service AccessRepo.get
ann_key_known = refl

ann_serving : get 200 serving.service_proxy_visitors ≡ some ann_proxied
unfolding startup insert new start_new
ann_serving = refl

on_closed_proxy-Drops_example :
    let closed = on_closed_proxy (codes "T&T:\"1.1.1.1:1\",\"3.3.3.3:3\"") serving in
    (closed.0 ≡ ok tt)
    × ((w : TcpGatewayProxyServerVisitor) × (get 200 closed.1.service_proxy_visitors ≡ some w)
        × ((k : Text)
            → user_of w k ≡ (
                if text_beq (codes "T&T:\"1.1.1.1:1\",\"3.3.3.3:3\"") k
                then none
                else user_of ann_proxied k)))
on_closed_proxy-Drops_example =
    on_closed_proxy-Drops serving 200 7 ann_proxied (codes "T&T:\"1.1.1.1:1\",\"3.3.3.3:3\"")
      (Reach-IsCoherent config tasks Reach-serving) ann_serving ann_key_known

-- A message among the events makes the gateway panic.
panics_on_message :
    (poll_gateway_events (message (codes "T&T") (codes "1.1.1.1:1") [] ∷ []) chat_up).0 ≡ panic
unfolding poll_gateway_events
panics_on_message = refl
