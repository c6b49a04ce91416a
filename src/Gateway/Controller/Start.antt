-- ===== src/Gateway/Controller/Start.antt =====
-- crates/gateway/src/client/controller.rs: who can start a service, and what starting it tells.
use trust.Prelude.{
  ℕ, ◌≡◌, ◌≢◌, inl, inr, refl, none, some, Text, text_eq, nat_eq, pair_eq, arith, Option-cases,
}
use trust.HashMap.{get}
use trust.AppError.{AppError}
use trust.Result.{Result, ok, err, panic, Result-cases}
use trust.Repository.Table
use trust.Model
use trust.Model.{ServiceAccess}
use trust.Repository.AccessRepo
use trust.Gateway.Manager.{GatewayServiceMgr, startup}
use trust.Gateway.Controller.{Outside, ControlPlane}
use trust.Gateway.Controller.Commands.{startable, process_cmd_start, unknown_service, unauthorized}

-- The user may start the service: its name is known, and the store of accesses has the user's.
pub record MayStart (c : ControlPlane) (service_name : Text) (service : Model.Service)
    : Type 0 where
  pub known : get service_name c.services_by_name ≡ some service
  pub access : ServiceAccess
  pub has_access : AccessRepo.get c.user.user_id service.service_id c.access_repo ≡ ok (some access)

-- How a request to start a service by its name goes, and what it does to the service manager.
pub data Outcome (c : ControlPlane) (service_name : Text) (m : GatewayServiceMgr)
    (r : Result Text × GatewayServiceMgr) : Type 0 where
  starts :
      (service : Model.Service)
      → MayStart c service_name service
      → r.1 ≡ (startup service m).1
      → Outcome c service_name m r
  is_unknown :
      get service_name c.services_by_name ≡ none
      → r ≡ (err (unknown_service service_name), m)
      → Outcome c service_name m r
  is_forbidden :
      (service : Model.Service)
      → get service_name c.services_by_name ≡ some service
      → AccessRepo.get c.user.user_id service.service_id c.access_repo ≡ ok none
      → r ≡ (err (unauthorized c.user.user_id service.service_id), m)
      → Outcome c service_name m r
  fails :
      (service : Model.Service) (e : AppError)
      → get service_name c.services_by_name ≡ some service
      → AccessRepo.get c.user.user_id service.service_id c.access_repo ≡ err e
      → r ≡ (err e, m)
      → Outcome c service_name m r

get-panic :
    (user_id service_id : ℕ) (r : AccessRepo.AccessRepo)
    → AccessRepo.get user_id service_id r ≢ panic
unfolding AccessRepo.get Table.find
get-panic user_id service_id r = ground arith

-- A request to start a service goes in one of four ways. The name is known and the store has the user's
-- access: then the service manager does what `startup` does. Or nothing changes, and the request fails:
-- with 404 and the name if it is not known, with 403 if it is known and the store has no access, and with
-- the store's error if the store cannot be read.
pub process_cmd_start_lem :
    (o : Outside) (c : ControlPlane) (service_name : Text) (local_port : ℕ) (m : GatewayServiceMgr)
    → Outcome c service_name m (process_cmd_start o c service_name local_port m)
unfolding process_cmd_start startable
process_cmd_start_lem o c name port m = elim (Option-cases (get name c.services_by_name)) [
  | inl k ↦ is_unknown k (rw (k, process_cmd_start, startable) refl)
  | inr (s, k) ↦ elim (Result-cases (AccessRepo.get c.user.user_id s.service_id c.access_repo)) [
    | inr (inl (e, q)) ↦
        fails s e k q (rw (k, process_cmd_start, startable) (rw (q, startable) refl))
    | inr (inr q) ↦ absurd (get-panic c.user.user_id s.service_id c.access_repo q)
    | inl (none, q) ↦
        is_forbidden s k q (rw (k, process_cmd_start, startable) (rw (q, startable) refl))
    | inl (some access, q) ↦
        starts s (record { known = k; access = access; has_access = q })
          (rw (k, process_cmd_start, startable) (rw (q, startable) refl))
  ]
]
