-- ===== src/Repository/UserRepo.antt =====
-- crates/gateway/src/repository/user_repo/in_memory_repo.rs: the store of users, filed by `user_id`.
use trust.Prelude.{ℕ, ◌⊎◌, Option, List, Text, nat_eq, if◌then◌else◌}
use trust.HashMap.{values}
use trust.AppError.{ForeignError}
use trust.Result.{Result, ok, err}
use trust.Model.{User}
use trust.Repository.Table
use trust.Repository.Table.{InMemRepo, read_error}

abbrev pub UserRepo : Type 0
UserRepo = InMemRepo ℕ User

abbrev pub user_key : User → ℕ
user_key user = user.user_id

-- `InMemUserRepo::new`.
unfoldable pub new : UserRepo
new = Table.new

-- `put`, which returns the record that was there.
unfoldable pub put : User → UserRepo → Result (Option User) × UserRepo
unfolding Table.put
put user r = Table.put user_key user r

unfoldable pub get : ℕ → UserRepo → Result (Option User)
unfolding Table.find
get user_id r = Table.find user_id r

-- In the map's order.
unfoldable pub get_all : UserRepo → Result (List User)
get_all r = if r.is_poisoned then err read_error else ok (values r.table)

unfoldable pub delete : ℕ → UserRepo → Result (Option User) × UserRepo
unfolding Table.delete
delete user_id r = Table.delete user_id r

unfoldable pub connect_to_datasource :
    (Text → Text ⊎ ForeignError)
    → (Text → List User ⊎ ForeignError)
    → Text
    → UserRepo
    → Result (Unit {0}) × UserRepo
unfolding Table.connect_to_datasource
connect_to_datasource read_to_string from_str spec r =
    Table.connect_to_datasource user_key read_to_string from_str spec r
