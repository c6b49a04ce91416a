-- ===== src/Model.antt =====
-- crates/common/src/model: users, services and accesses.
use trust.Prelude.{ℕ, Bool, true, false, Text}

pub data Transport : Type 0 where
  tcp udp : Transport

pub record Service : Type 0 where
  pub service_id : ℕ
  pub name : Text
  pub transport : Transport
  pub host : Text
  pub port : ℕ

pub record ServiceAccess : Type 0 where
  pub user_id : ℕ
  pub service_id : ℕ

pub data Status : Type 0 where
  active inactive : Status

pub record User : Type 0 where
  pub user_id : ℕ
  pub name : Text
  pub status : Status

-- `user.status == Status::Active`.
abbrev pub is_active : Status → Bool
is_active active = true
is_active inactive = false
