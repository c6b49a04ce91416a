-- ===== src/Repository/AccessRepo.antt =====
-- crates/gateway/src/repository/access_repo/in_memory_repo.rs: the store of accesses, filed by user
-- and service.
pub mod ForUser
use trust.Prelude.{ℕ, ◌⊎◌, Option, List, [], ◌∷◌, Text, ◌==◌, nat_eq, pair_eq, if◌then◌else◌}
use trust.HashMap.{HashMap}
use trust.AppError.{ForeignError}
use trust.Result.{Result, ok, err}
use trust.Model.{ServiceAccess}
use trust.Repository.Table
use trust.Repository.Table.{InMemRepo, read_error}

abbrev pub AccessRepo : Type 0
AccessRepo = InMemRepo (ℕ × ℕ) ServiceAccess

abbrev pub access_key : ServiceAccess → ℕ × ℕ
access_key access = (access.user_id, access.service_id)

-- `InMemAccessRepo::new`.
unfoldable pub new : AccessRepo
new = Table.new

-- `put`, which returns the record that was there.
unfoldable pub put : ServiceAccess → AccessRepo → Result (Option ServiceAccess) × AccessRepo
unfolding Table.put
put access r = Table.put access_key access r

unfoldable pub get : ℕ → ℕ → AccessRepo → Result (Option ServiceAccess)
unfolding Table.find
get user_id service_id r = Table.find (user_id, service_id) r

-- `filter(|entry| entry.0.0 == user_id).map(|entry| entry.1)`.
unfoldable pub entries_of : ℕ → HashMap (ℕ × ℕ) ServiceAccess → List ServiceAccess
entries_of user_id [] = []
entries_of user_id ((k, access) ∷ m) =
    let rest = entries_of user_id m in if k.0 == user_id then access ∷ rest else rest

unfoldable pub get_all_for_user : ℕ → AccessRepo → Result (List ServiceAccess)
unfolding entries_of
get_all_for_user user_id r =
    if r.is_poisoned then err read_error else ok (entries_of user_id r.table)

unfoldable pub delete : ℕ → ℕ → AccessRepo → Result (Option ServiceAccess) × AccessRepo
unfolding Table.delete
delete user_id service_id r = Table.delete (user_id, service_id) r

unfoldable pub connect_to_datasource :
    (Text → Text ⊎ ForeignError)
    → (Text → List ServiceAccess ⊎ ForeignError)
    → Text
    → AccessRepo
    → Result (Unit {0}) × AccessRepo
unfolding Table.connect_to_datasource
connect_to_datasource read_to_string from_str spec r =
    Table.connect_to_datasource access_key read_to_string from_str spec r
