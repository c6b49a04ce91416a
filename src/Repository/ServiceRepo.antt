-- ===== src/Repository/ServiceRepo.antt =====
-- crates/gateway/src/repository/service_repo/in_memory_repo.rs: the store of services, filed by `service_id`.
use trust.Prelude.{ℕ, ◌⊎◌, Option, List, Text, nat_eq, if◌then◌else◌}
use trust.HashMap.{values}
use trust.AppError.{ForeignError}
use trust.Result.{Result, ok, err}
use trust.Model.{Service}
use trust.Repository.Table
use trust.Repository.Table.{InMemRepo, read_error}

abbrev pub ServiceRepo : Type 0
ServiceRepo = InMemRepo ℕ Service

abbrev pub service_key : Service → ℕ
service_key service = service.service_id

-- `InMemServiceRepo::new`.
unfoldable pub new : ServiceRepo
new = Table.new

-- `put`, which returns the record that was there.
unfoldable pub put : Service → ServiceRepo → Result (Option Service) × ServiceRepo
unfolding Table.put
put service r = Table.put service_key service r

unfoldable pub get : ℕ → ServiceRepo → Result (Option Service)
unfolding Table.find
get service_id r = Table.find service_id r

-- In the map's order.
unfoldable pub get_all : ServiceRepo → Result (List Service)
get_all r = if r.is_poisoned then err read_error else ok (values r.table)

unfoldable pub delete : ℕ → ServiceRepo → Result (Option Service) × ServiceRepo
unfolding Table.delete
delete service_id r = Table.delete service_id r

unfoldable pub connect_to_datasource :
    (Text → Text ⊎ ForeignError)
    → (Text → List Service ⊎ ForeignError)
    → Text
    → ServiceRepo
    → Result (Unit {0}) × ServiceRepo
unfolding Table.connect_to_datasource
connect_to_datasource read_to_string from_str spec r =
    Table.connect_to_datasource service_key read_to_string from_str spec r
