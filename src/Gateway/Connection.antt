-- ===== src/Gateway/Connection.antt =====
-- crates/gateway/src/client/connection.rs: what a connection's handlers do. The control plane has a
-- clone of the connection's sender: the channel is the field of the control plane.
pub mod Error
use trust.Prelude.{
  ℕ, ◌≡◌, ◌⊎◌, inl, inr, Bool, true, false, Option, none, some, List, [], ◌∷◌, ◌++◌, Text, codes,
  nat_eq, if◌then◌else◌,
}
use trust.HashMap.{get}
use trust.Text.{show}
use trust.AppError.{AppError, ForeignError, get_code, gen_with_msg_and_err}
use trust.Channel.{Channel, send}
use trust.Result.{Result, ok, err, panic, ◌>>=◌, ◌>>◌, unwrap}
use trust.Model.{User, inactive}
use trust.Repository.ServiceRepo.{ServiceRepo}
use trust.Gateway.Codes.{response_msgs, respcode_0500_system_error, respcode_0520_unknown_code}
use trust.Gateway.Device.{Device, default_device}
use trust.Gateway.Authorization.{ClientConnVisitor}
use trust.Gateway.Manager.{GatewayServiceMgr}
use trust.Gateway.Manager.Shutdown.{shutdown_connections}
use trust.Gateway.Controller
use trust.Gateway.Controller.{ControlPlane, ConnectionEvent, closing, write, Outside, newline}
use trust.Gateway.Controller.Process.{process_request}

pub data ServerMode : Type 0 where
  control_plane proxy : ServerMode

-- `User::default()`.
abbrev pub default_user : User
default_user = record { user_id = 0; name = []; status = inactive }

abbrev pub device_or_default : Option Device → Device
device_or_default none = default_device
device_or_default (some d) = d

abbrev pub user_or_default : Option User → User
user_or_default none = default_user
user_or_default (some u) = u

-- `set_event_channel_sender`: the control plane of the connection.
unfoldable pub set_event_channel_sender :
    Bool → ServiceRepo → ClientConnVisitor → Channel ConnectionEvent → Result ControlPlane
unfolding Controller.new
set_event_channel_sender mask_addresses service_repo v event_channel_sender =
    Controller.new mask_addresses v.access_repo service_repo v.user_repo event_channel_sender
      (device_or_default v.device) (user_or_default v.user)

-- `on_connection_read`. `from_utf8` is an argument; a missing control plane panics.
unfoldable pub on_connection_read :
    Outside
    → (List ℕ → Text ⊎ ForeignError)
    → ServerMode
    → List ℕ
    → Option ControlPlane × GatewayServiceMgr
    → Result (Unit {0}) × (Option ControlPlane × GatewayServiceMgr)
unfolding process_request
on_connection_read o from_utf8 proxy bytes s = (ok tt, s)
on_connection_read o from_utf8 control_plane bytes (none, m) = elim (from_utf8 bytes) [
  | inr e ↦
      (err (gen_with_msg_and_err (codes "Error converting client input as UTF8") e), (none, m))
  | inl text ↦ (panic, (none, m))
]
on_connection_read o from_utf8 control_plane bytes (some c, m) = elim (from_utf8 bytes) [
  | inr e ↦
      (err (gen_with_msg_and_err (codes "Error converting client input as UTF8") e), (some c, m))
  | inl text ↦
      let done = process_request o text (c, m) in (done.0 >>= λ r. ok tt, (some done.1.0, done.1.1))
]

-- `on_shutdown`: all connections of the user.
unfoldable pub on_shutdown :
    (AppError → Text)
    → ClientConnVisitor
    → GatewayServiceMgr
    → Result (Unit {0}) × GatewayServiceMgr
unfolding shutdown_connections
on_shutdown debug v m = elim v.user [
  | none ↦ (panic, m)
  | some user ↦ shutdown_connections debug (some user.user_id) none m
]

-- The message of a code. The message of an unknown code is made in any case.
unfoldable pub unknown_msg : ℕ → Result Text
unfolding get
unknown_msg code = unwrap (get respcode_0520_unknown_code response_msgs) >>= λ m.
    ok (m ++ (codes ": ref=" ++ show code))

unfoldable pub message_of_code : ℕ → Result Text
unfolding unknown_msg get
message_of_code code = unknown_msg code >>= λ unknown.
    ok (elim (get code response_msgs) [ some m ↦ m | none ↦ unknown ])

unfoldable pub message_of : AppError → Result Text
unfolding message_of_code get_code get
message_of e = elim (get_code e) [
  | some code ↦ message_of_code code
  | none ↦ unwrap (get respcode_0500_system_error response_msgs)
]

abbrev pub send_message : Text → Channel ConnectionEvent → Channel ConnectionEvent
send_message msg events =
    let sent = send (write (msg ++ newline ∷ [])) events in
    if sent.0 then sent.1 else (send closing sent.1).1

-- `send_error_response`. A sender that is not set panics.
unfoldable pub send_error_response :
    AppError
    → Option (Channel ConnectionEvent)
    → Result (Unit {0}) × Option (Channel ConnectionEvent)
unfolding message_of
send_error_response e events = elim (message_of e) [
  | ok msg ↦ elim events [
    | none ↦ (panic, none)
    | some events ↦ (ok tt, some (send_message msg events))
  ]
  | err x ↦ (err x, events)
  | panic ↦ (panic, events)
]
