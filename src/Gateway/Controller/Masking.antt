-- ===== src/Gateway/Controller/Masking.antt =====
-- crates/gateway/src/client/controller.rs: what `services` tells where addresses are masked.
use trust.Prelude.{
  ℕ, ◌≡◌, inl, inr, refl, true, Option, none, some, List, [], ◌∷◌, map, nat_eq, arith, codes,
}
use trust.HashMap.{HashMap, get}
use trust.Result.{Result, Result-cases}
use trust.Model
use trust.Model.{ServiceAccess}
use trust.Repository.AccessRepo
use trust.Control.Response.{collect, try_into}
use trust.Gateway.Controller.{Outside, ControlPlane, prepare_response_service}
use trust.Gateway.Controller.Commands.{services_of, found_cons, process_cmd_services}

-- A service without its address, and a map of such.
abbrev pub hide : Model.Service → Model.Service
hide s = record s { host = []; port = 0 }

abbrev pub hide_all : HashMap ℕ Model.Service → HashMap ℕ Model.Service
hide_all [] = []
hide_all ((k, s) ∷ m) = (k, hide s) ∷ hide_all m

abbrev hide_option : Option Model.Service → Option Model.Service
hide_option none = none
hide_option (some s) = some (hide s)

get-hide_all : (k : ℕ) (m : HashMap ℕ Model.Service) → get k (hide_all m) ≡ hide_option (get k m)
unfolding get
get-hide_all k [] = refl
get-hide_all k ((j, s) ∷ m) = ground (arith, get-hide_all k m)

found_cons-hide :
    (s : Option Model.Service) (ss : List Model.Service)
    → found_cons (hide_option s) (map hide ss) ≡ map hide (found_cons s ss)
found_cons-hide none ss = refl
found_cons-hide (some s) ss = refl

services_of-hide_all :
    (m : HashMap ℕ Model.Service) (accesses : List ServiceAccess)
    → services_of (hide_all m) accesses ≡ map hide (services_of m accesses)
unfolding services_of
services_of-hide_all m [] = refl
services_of-hide_all m (access ∷ accesses) = rw (get-hide_all access.service_id m) (
    rw (services_of-hide_all m accesses)
      (found_cons-hide (get access.service_id m) (services_of m accesses)))

module _ {B : Type 0} (f : Model.Service → Result B)
    (unaddressed : (s : Model.Service) → f (hide s) ≡ f s) where
  collect-hide : (ss : List Model.Service) → collect f (map hide ss) ≡ collect f ss
  unfolding collect
  collect-hide [] = refl
  collect-hide (s ∷ ss) = rw (unaddressed s) (rw (collect-hide ss) refl)

-- Where addresses are masked, the answer to `services` does not depend on the addresses of the
-- services: it is the same where no service has one.
pub process_cmd_services-hide_all :
    (o : Outside) (c : ControlPlane)
    → c.mask_addresses ≡ true
    → process_cmd_services o c
      ≡ process_cmd_services o (record c { services_by_id = hide_all c.services_by_id })
unfolding process_cmd_services prepare_response_service
process_cmd_services-hide_all o c masked =
    elim (Result-cases (AccessRepo.get_all_for_user c.user.user_id c.access_repo)) [
      | inr (inl (e, q)) ↦ rw (q, process_cmd_services) refl
      | inr (inr q) ↦ rw (q, process_cmd_services) refl
      | inl (accesses, q) ↦
          rw (q, process_cmd_services)
            (rw (services_of-hide_all c.services_by_id accesses) (
              rw
                (collect-hide
                  (λ s.
                    try_into o.json o.json.service (codes "Service")
                      (prepare_response_service s c.mask_addresses))
                  (λ s. rw masked refl) (services_of c.services_by_id accesses))
                refl))
    ]
