-- ===== src/Gateway/Authorization.antt =====
-- crates/gateway/src/client/connection.rs: who may open a connection, and for what.
pub mod Decision
use trust.Prelude.{
  ℕ, ◌≡◌, Bool, true, false, not, Option, none, some, List, ◌∷◌, ◌++◌, Text, codes, ◌==◌,
}
use trust.Text.{show}
use trust.AppError.{AppError, gen_with_code_and_msg}
use trust.Result.{Result, ok, err, panic, ◌>>=◌, ◌>>◌, ok_or, ensure}
use trust.Model.{User, Status, active, inactive, is_active, ServiceAccess}
use trust.Alpn
use trust.Alpn.{Protocol, control_plane, service}
use trust.Repository.AccessRepo
use trust.Repository.AccessRepo.{AccessRepo}
use trust.Repository.UserRepo
use trust.Repository.UserRepo.{UserRepo}
use trust.Gateway.Codes.{
  respcode_0403_forbidden, respcode_0420_invalid_client_certificate, respcode_0421_unknown_user,
  respcode_0422_inactive_user, respcode_0424_invalid_alpn_protocol, respcode_0500_system_error,
}
use trust.Gateway.Device
use trust.Gateway.Device.{Device, X509}

-- What stands outside of the program: certificates, the regex crate's `\d`,
-- `String::from_utf8_lossy`, and how an error is printed by `{:?}`.
pub record Platform : Type 1 where
  pub x509 : X509
  pub open x509 use {Certificate}
  pub is_decimal : ℕ → Bool
  pub from_utf8_lossy : List ℕ → Text
  pub debug_error : AppError → Text

abbrev pub debug_status : Status → Text
debug_status active = codes "Active"
debug_status inactive = codes "Inactive"

abbrev pub debug_protocol : Protocol → Text
debug_protocol control_plane = codes "ControlPlane"
debug_protocol (service id) = codes "Service(" ++ (show id ++ codes ")")

abbrev pub is_some : {A : Type 0} → Option A → Bool
is_some none = false
is_some (some a) = true

-- The two reads of `TlsConnection`.
pub record TlsConnection (Certificate : Type 0) : Type 0 where
  pub peer_certificates : Option (List Certificate)
  pub alpn_protocol : Option (List ℕ)

pub record ClientConnVisitor : Type 0 where
  pub access_repo : AccessRepo
  pub user_repo : UserRepo
  pub device : Option Device
  pub user : Option User

-- Whether the negotiated protocol is the one of the service.
abbrev pub is_for : Protocol → ℕ → Bool
is_for control_plane service_id = false
is_for (service alpn_svc_id) service_id = service_id == alpn_svc_id

abbrev pub or_system_error : {A : Type 0} → Text → (AppError → Text) → Result A → Result A
or_system_error msg debug (ok a) = ok a
or_system_error msg debug (err e) =
    err (gen_with_code_and_msg respcode_0500_system_error (msg ++ debug e))
or_system_error msg debug panic = panic

-- Validate the service, if the listener is one of a service.
unfoldable pub check_service : AccessRepo → ℕ → Protocol → Option ℕ → Result (Unit {0})
check_service access_repo user_id protocol none = ok tt
check_service access_repo user_id protocol (some service_id) = do
  ensure (is_for protocol service_id) (
      gen_with_code_and_msg respcode_0424_invalid_alpn_protocol (
        codes "ALPN has wrong service ID: alpn="
        ++ (debug_protocol protocol ++ (codes ", svc_id=" ++ show service_id))))
  access ← AccessRepo.get user_id service_id access_repo
  ensure (is_some access) (
      gen_with_code_and_msg respcode_0403_forbidden (
        codes "User is not authorized for service: uid="
        ++ (show user_id ++ (codes ", svc_id=" ++ show service_id))))

-- Validate the user.
unfoldable pub check_user : (AppError → Text) → UserRepo → ℕ → Result User
check_user debug user_repo user_id = do
  ensure (not (user_id == 0)) (
      gen_with_code_and_msg respcode_0420_invalid_client_certificate
        (codes "Invalid certificate user identity"))
  found ←
      or_system_error
        (codes "Error retrieving user from user repo: uid=" ++ (show user_id ++ codes ", err="))
        debug (UserRepo.get user_id user_repo)
  user ← ok_or found (
      gen_with_code_and_msg respcode_0421_unknown_user
        (codes "User is not found in user repo: uid=" ++ show user_id))
  ensure (is_active user.status) (
      gen_with_code_and_msg respcode_0422_inactive_user (
        codes "User is not active: uid="
        ++ (show user_id ++ (codes ", status=" ++ debug_status user.status))))
  ok user

module _ (p : Platform) where
  -- `ClientConnVisitor::parse_alpn_protocol`.
  unfoldable pub parse_alpn_protocol : Option (List ℕ) → Result Protocol
  parse_alpn_protocol none =
      err
        (gen_with_code_and_msg respcode_0424_invalid_alpn_protocol (codes "Missing ALPN protocol"))
  parse_alpn_protocol (some protocol_name_bytes) = do
    let protocol_name = p.from_utf8_lossy protocol_name_bytes
    parsed ← Alpn.parse p.is_decimal protocol_name
    ok_or parsed (
        gen_with_code_and_msg respcode_0424_invalid_alpn_protocol
          (codes "Invalid ALPN protocol: proto=" ++ protocol_name))

  -- `process_authorization` up to the two writes at its end.
  unfoldable pub authorize :
      ClientConnVisitor → TlsConnection p.Certificate → Option ℕ → Result (Device × User × Protocol)
  authorize v tls_conn service_id = do
    chain ← ok_or tls_conn.peer_certificates (
        gen_with_code_and_msg respcode_0420_invalid_client_certificate
          (codes "Empty client certificate chain"))
    device ← Device.new p.x509 chain
    user ← check_user p.debug_error v.user_repo device.cert_access_context.user_id
    protocol ← parse_alpn_protocol tls_conn.alpn_protocol
    check_service v.access_repo device.cert_access_context.user_id protocol service_id
    ok (device, user, protocol)

  -- `ClientConnVisitor::process_authorization`.
  unfoldable pub process_authorization :
      ClientConnVisitor
      → TlsConnection p.Certificate
      → Option ℕ
      → Result Protocol × ClientConnVisitor
  unfolding authorize
  process_authorization v tls_conn service_id = elim (authorize v tls_conn service_id) [
    | ok (device, user, protocol) ↦
        (ok protocol, record v { device = some device; user = some user })
    | err e ↦ (err e, v)
    | panic ↦ (panic, v)
  ]
