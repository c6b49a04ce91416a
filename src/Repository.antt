-- ===== src/Repository.antt =====
-- crates/gateway/src/repository: the stores of accesses, services and users.
pub mod Table
pub mod Laws
pub mod AccessRepo
pub mod ServiceRepo
pub mod UserRepo
