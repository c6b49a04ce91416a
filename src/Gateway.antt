-- ===== src/Gateway.antt =====
-- crates/gateway/src: the gateway.
pub mod Codes
pub mod Device
pub mod Authorization
pub mod Visitor
pub mod Manager
pub mod Controller
pub mod ControlPlane
pub mod Connection
