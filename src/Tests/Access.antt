-- ===== src/Tests/Access.antt =====
-- Runs of crates/gateway/src/client/connection.rs and of the stores.
use trust.Prelude.{◌≡◌, ◌↔◌, ◌⊎◌, inl, refl, some, List, [], ◌∷◌, ◌++◌, Text, codes, In, nat_eq}
use trust.Result.{ok}
use trust.Model.{Service, ServiceAccess}
use trust.Alpn.{service}
use trust.HashMap
use trust.AppError.{ForeignError, get_code, gen_with_code_and_msg}
use trust.Channel.{accept, send}
use trust.Repository.AccessRepo.{get_all_for_user, get}
use trust.Repository.AccessRepo.ForUser.{get_all_for_user-get}
use trust.Repository.Table.{connect_to_datasource, find, last_or}
use trust.Repository.Laws.{connect_to_datasource-find}
use trust.Repository.ServiceRepo
use trust.Repository.ServiceRepo.{service_key}
use trust.Gateway.ControlPlane.{create_control_conn}
use trust.Gateway.Visitor.Accept.{new_connection}
use trust.Gateway.Device
use trust.Gateway.Device.{Device, CertAccessContext}
use trust.Gateway.Authorization.{
  process_authorization, check_user, parse_alpn_protocol, check_service,
}
use trust.Alpn
use trust.Repository.UserRepo
use trust.Text.{is_digit, parse_uint}
use trust.Gateway.Authorization.Decision.{IsAuthorized, process_authorization_lem}
use trust.Gateway.Controller.{write, newline}
use trust.Gateway.Connection.{send_error_response}
use trust.Gateway.Connection.Error.{TellsCode, send_error_response-TellsCode}
use trust.Gateway.Codes.{respcode_0403_forbidden}
use trust.Tests.Samples.{
  platform, visitor, chat_conn, ann, ann_to_chat, accesses, services, chat, echo, events,
}

abbrev ann_device : Device
ann_device = record {
  cert_subj = [];
  cert_alt_subj = (codes "URI", (7 ∷ []) ∷ []) ∷ [];
  cert_access_context = record { user_id = 7; platform = codes "Linux" };
}

ann_is_let_in :
    process_authorization platform visitor chat_conn (some 200)
    ≡ (ok (service 200), record visitor { device = some ann_device; user = some ann })
unfolding process_authorization Device.new check_user UserRepo.get parse_alpn_protocol Alpn.parse
    is_digit parse_uint check_service get
ann_is_let_in = refl

-- The control plane's listener asks for no service: it takes a connection with any protocol.
control_plane_takes_ann :
    (create_control_conn platform visitor services chat_conn).0 ≡ ok (service 200)
unfolding create_control_conn process_authorization Device.new check_user UserRepo.get
    parse_alpn_protocol Alpn.parse is_digit parse_uint check_service new_connection
    ServiceRepo.get_all
control_plane_takes_ann = refl

process_authorization_lem_example :
    (process_authorization platform visitor chat_conn (some 200)
      ≡ (ok (service 200), record visitor { device = some ann_device; user = some ann }))
    ↔ IsAuthorized platform visitor chat_conn (some 200) ann_device ann (service 200)
process_authorization_lem_example =
    process_authorization_lem platform visitor chat_conn (some 200) ann_device ann (service 200)

get_all_for_user-get_example :
    (found : List ServiceAccess) × (get_all_for_user 7 accesses ≡ ok found)
    × (In ann_to_chat found
        ↔ ((ann_to_chat.user_id ≡ 7) × (get 7 200 accesses ≡ ok (some ann_to_chat))))
unfolding HashMap.get
get_all_for_user-get_example = get_all_for_user-get 7 ann_to_chat accesses (refl, refl, tt) refl

abbrev read_any : Text → Text ⊎ ForeignError
read_any path = inl path

abbrev chat_then_echo : Text → List Service ⊎ ForeignError
chat_then_echo text = inl (chat ∷ echo ∷ [])

connect_to_datasource-find_example :
    let loaded =
      connect_to_datasource service_key read_any chat_then_echo (codes "services.json") services in
    (loaded.0 ≡ ok tt)
    × (find 201 loaded.1
        ≡ ok (last_or service_key 201 (chat ∷ echo ∷ []) (HashMap.get 201 services.table)))
connect_to_datasource-find_example =
    connect_to_datasource-find service_key read_any chat_then_echo (codes "services.json")
      (codes "services.json") (chat ∷ echo ∷ []) services 201 refl refl refl

send_error_response-TellsCode_example :
    (msg : Text) × TellsCode
      (get_code (gen_with_code_and_msg respcode_0403_forbidden (codes "no")))
      msg
    × (send_error_response
          (gen_with_code_and_msg respcode_0403_forbidden (codes "no"))
          (some events)
        ≡ (ok tt, some (accept (write (msg ++ newline ∷ [])) events)))
send_error_response-TellsCode_example =
    send_error_response-TellsCode (gen_with_code_and_msg respcode_0403_forbidden (codes "no"))
      events refl

forbidden_is_told :
    send_error_response (gen_with_code_and_msg respcode_0403_forbidden (codes "no")) (some events)
    ≡ (ok tt, some (record events { sent = write (codes "[E0403] Access is forbidden\n") ∷ [] }))
unfolding send_error_response send
forbidden_is_told = refl
