-- ===== src/Gateway/Authorization/Decision.antt =====
-- Exactly who is let in.
use trust.Prelude.{ℕ, ◌≡◌, ◌≢◌, ◌↔◌, Option, none, some, List, Text, arith}
use trust.AppError.{AppError}
use trust.Result.{ok}
use trust.Model.{User, active, ServiceAccess}
use trust.Alpn.{Protocol, service}
use trust.Repository.AccessRepo
use trust.Repository.AccessRepo.{AccessRepo}
use trust.Repository.UserRepo
use trust.Repository.UserRepo.{UserRepo}
use trust.Gateway.Device
use trust.Gateway.Device.{Device}
use trust.Gateway.Authorization.{
  Platform, TlsConnection, ClientConnVisitor, check_service, check_user, parse_alpn_protocol,
  authorize, process_authorization,
}

-- The user of the certificate is known and active.
abbrev pub IsKnown : UserRepo → ℕ → User → Type 0
IsKnown repo user_id user =
    (user_id ≢ 0) × (UserRepo.get user_id repo ≡ ok (some user)) × (user.status ≡ active)

-- For a service's listener: the protocol names the service, and the user has access to it.
abbrev pub IsEntitled : AccessRepo → ℕ → Protocol → Option ℕ → Type 0
IsEntitled repo user_id protocol none = Unit
IsEntitled repo user_id protocol (some service_id) =
    (protocol ≡ service service_id)
    × ((access : ServiceAccess) × (AccessRepo.get user_id service_id repo ≡ ok (some access)))

check_user_lem :
    (debug : AppError → Text) (repo : UserRepo) (user_id : ℕ) (user : User)
    → (check_user debug repo user_id ≡ ok user) ↔ IsKnown repo user_id user
unfolding check_user
check_user_lem debug repo user_id user = ground arith

check_service_lem :
    (repo : AccessRepo) (user_id : ℕ) (protocol : Protocol) (service_id : Option ℕ)
    → (check_service repo user_id protocol service_id ≡ ok tt)
      ↔ IsEntitled repo user_id protocol service_id
unfolding check_service
check_service_lem repo user_id protocol none = ground arith
check_service_lem repo user_id protocol (some service_id) = ground arith

module _ (p : Platform) (v : ClientConnVisitor) (tls_conn : TlsConnection p.Certificate)
    (service_id : Option ℕ) where
  -- What has to hold for a connection to be authorized as a device and a user, for a protocol.
  pub record IsAuthorized (device : Device) (user : User) (protocol : Protocol) : Type 0 where
    pub certified :
        (chain : List p.Certificate) × (tls_conn.peer_certificates ≡ some chain)
        × (Device.new p.x509 chain ≡ ok device)
    pub known : IsKnown v.user_repo device.cert_access_context.user_id user
    pub negotiated : parse_alpn_protocol p tls_conn.alpn_protocol ≡ ok protocol
    pub entitled : IsEntitled v.access_repo device.cert_access_context.user_id protocol service_id

  authorize-IsAuthorized :
      (device : Device) (user : User) (protocol : Protocol)
      → authorize p v tls_conn service_id ≡ ok (device, user, protocol)
      → IsAuthorized device user protocol
  unfolding authorize
  authorize-IsAuthorized device user protocol h = record {
    certified = ground arith;
    known =
        ground
          (arith, check_user_lem p.debug_error v.user_repo device.cert_access_context.user_id user);
    negotiated = ground arith;
    entitled = ground (
      arith,
      check_service_lem v.access_repo device.cert_access_context.user_id protocol service_id,
    );
  }

  authorize_of_IsAuthorized :
      (device : Device) (user : User) (protocol : Protocol)
      → IsAuthorized device user protocol
      → authorize p v tls_conn service_id ≡ ok (device, user, protocol)
  unfolding authorize
  authorize_of_IsAuthorized device user protocol a = ground (
    arith,
    check_user_lem p.debug_error v.user_repo device.cert_access_context.user_id user,
    check_service_lem v.access_repo device.cert_access_context.user_id protocol service_id,
  )

  -- A connection is authorized, and the visitor then holds its device and user, exactly if the
  -- certificate chain gives that device, the device's user is not 0, is known and active, the
  -- protocol is negotiated, and, on the listener of a service, the protocol names that service and
  -- the user has access to it.
  pub process_authorization_lem :
      (device : Device) (user : User) (protocol : Protocol)
      → (process_authorization p v tls_conn service_id
          ≡ (ok protocol, record v { device = some device; user = some user }))
        ↔ IsAuthorized device user protocol
  unfolding process_authorization
  process_authorization_lem device user protocol = (
    λ h. authorize-IsAuthorized device user protocol (ground arith),
    λ a. ground (arith, authorize_of_IsAuthorized device user protocol a),
  )
