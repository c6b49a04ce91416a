-- ===== src/Client.antt =====
-- crates/client/src: the client, which listens for the connections of local programs and takes them
-- through the gateway.
pub mod Visitor
pub mod Manager
pub mod Console
pub mod Controller
pub mod Connection
