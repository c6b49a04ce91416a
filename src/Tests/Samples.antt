-- ===== src/Tests/Samples.antt =====
-- A user with access to one of two services, and the surroundings of a gateway.
use trust.Prelude.{
  ◌≡◌, refl, ℕ, ◌⊎◌, inl, inr, true, false, Option, none, some, List, [], ◌∷◌, Text, codes,
}
use trust.Text.{is_digit}
use trust.AppError.{ForeignError, to_string}
use trust.Channel.{Channel}
use trust.Model.{Service, User, ServiceAccess, tcp, udp, active}
use trust.Repository.AccessRepo.{AccessRepo}
use trust.Repository.ServiceRepo.{ServiceRepo}
use trust.Repository.UserRepo.{UserRepo}
use trust.Control.Request.{CommandParser, subcommand}
use trust.Control.Response.{Json, Codec, Response, Proxy, Connection, About}
use trust.Control.Response
use trust.Gateway.Device.{X509, uri, default_device}
use trust.Gateway.Authorization.{Platform, TlsConnection, ClientConnVisitor}
use trust.Gateway.Visitor.{ProxyExecutorEvent}
use trust.Gateway.Visitor.Accept.{Network, TcpStream}
use trust.Gateway.Manager.{AppConfig}
use trust.Gateway.Controller.{ControlPlane, ConnectionEvent, Outside}

abbrev pub chat : Service
chat = record {
  service_id = 200;
  name = codes "chat";
  transport = tcp;
  host = codes "chat.local";
  port = 8500;
}

abbrev pub echo : Service
echo = record {
  service_id = 201;
  name = codes "echo";
  transport = udp;
  host = codes "echo.local";
  port = 8600;
}

abbrev pub ann : User
ann = record { user_id = 7; name = codes "Ann"; status = active }

abbrev pub ann_to_chat : ServiceAccess
ann_to_chat = record { user_id = 7; service_id = 200 }

abbrev pub users : UserRepo
users = record { is_poisoned = false; table = (7, ann) ∷ [] }

abbrev pub accesses : AccessRepo
accesses = record { is_poisoned = false; table = ((7, 200), ann_to_chat) ∷ [] }

abbrev pub services : ServiceRepo
services = record { is_poisoned = false; table = (200, chat) ∷ (201, echo) ∷ [] }

-- A certificate is the number of its user.
abbrev pub x509 : X509
x509 = record {
  Certificate = ℕ;
  parse_x509_certificate =
      λ n. inl (record { subject = []; subject_alternative_name = inl (some (uri (n ∷ []) ∷ [])) });
  context_from_str = λ s. elim s [
    | [] ↦ inl (record { user_id = 0; platform = [] })
    | n ∷ t ↦ inl (record { user_id = n; platform = codes "Linux" })
  ];
}

abbrev pub platform : Platform
platform = record {
  x509 = x509;
  is_decimal = is_digit;
  from_utf8_lossy = λ bytes. bytes;
  debug_error = to_string;
}

abbrev pub chat_conn : TlsConnection ℕ
chat_conn = record { peer_certificates = some (7 ∷ []); alpn_protocol = some (codes "T0SRV200") }

abbrev pub visitor : ClientConnVisitor
visitor = record { access_repo = accesses; user_repo = users; device = none; user = none }

abbrev pub ann_sock : TcpStream
ann_sock = record {
  peer_addr = some (codes "1.1.1.1:1");
  local_addr = some (codes "2.2.2.2:2");
  set_nonblocking = none;
  try_clone = none;
}

abbrev pub chat_sock : TcpStream
chat_sock = record {
  peer_addr = some (codes "3.3.3.3:3");
  local_addr = some (codes "2.2.2.2:4");
  set_nonblocking = none;
  try_clone = none;
}

abbrev pub network : Network
network = record {
  IpAddr = Text;
  query_addrs = λ host. inl (host ∷ []);
  connect = λ addr port. inl chat_sock;
  debug_service = λ s. s.name;
  debug_stream = λ s. codes "TcpStream";
}

abbrev pub tasks : Channel ProxyExecutorEvent
tasks = record { sent = []; drops_at = none }

abbrev pub events : Channel ConnectionEvent
events = record { sent = []; drops_at = none }

abbrev pub config : AppConfig
config = record {
  server_port = 8400;
  gateway_service_host = some (codes "localhost");
  gateway_service_ports = some (8500, 8501);
  overflow_checks = true;
}

-- A JSON value: a text, an array, a service, or a proxy.
mutual
  pub data Value : Type 0 where
    text_value : Text → Value
    array_value : Values → Value
    service_value : Response.Service → Value
    proxy_value : Response.Proxy → Value
    other_value : Value

  pub data Values : Type 0 where
    no_values : Values
    and_value : Value → Values → Values

abbrev pub values_of : List Value → Values
values_of [] = no_values
values_of (v ∷ vs) = and_value v (values_of vs)

abbrev pub list_of : Values → List Value
list_of no_values = []
list_of (and_value v vs) = v ∷ list_of vs

pub list_of-values_of : (vs : List Value) → list_of (values_of vs) ≡ vs
list_of-values_of [] = refl
list_of-values_of (v ∷ vs) = rw (list_of-values_of vs) refl

abbrev pub foreign : ForeignError
foreign = record { display = codes "wrong type"; debug = codes "WrongType" }

abbrev pub items_of : Value → Option (List Value)
items_of (array_value vs) = some (list_of vs)
items_of _ = none

abbrev pub service_from : Value → Response.Service ⊎ ForeignError
service_from (service_value s) = inl s
service_from _ = inr foreign

abbrev pub writes_only : {A : Type 0} → Codec Value A
writes_only = record { to_value = λ a. inl other_value; from_value = λ v. inr foreign }

abbrev pub json : Json
json = record {
  Value = Value;
  array = λ vs. array_value (values_of vs);
  as_array = items_of;
  string = text_value;
  about = writes_only;
  proxy = writes_only;
  service = record { to_value = λ s. inl (service_value s); from_value = service_from };
  connection = writes_only;
  to_string = λ r. inl (codes "{}");
  from_str = λ t. inr foreign;
}

-- A parser of one command.
abbrev pub parser : CommandParser
parser = record {
  split_args = λ line. some (line ∷ []);
  try_get_matches_from =
      λ args. subcommand (some (codes "ping", record { service = none; port = none }));
}

abbrev pub outside : Outside
outside = record {
  json = json;
  parser = parser;
  debug_error = to_string;
  debug_names = λ m. codes "{}";
  debug_context = λ c. c.platform;
}

abbrev pub control : ControlPlane
control = record {
  mask_addresses = true;
  access_repo = accesses;
  user_repo = users;
  event_channel_sender = events;
  device = default_device;
  user = ann;
  services_by_id = (200, chat) ∷ (201, echo) ∷ [];
  services_by_name = (codes "chat", chat) ∷ (codes "echo", echo) ∷ [];
}
