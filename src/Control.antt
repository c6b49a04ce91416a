-- ===== src/Control.antt =====
-- crates/common/src/control: the requests and responses of the control plane.
pub mod Codes
pub mod Request
pub mod Response
