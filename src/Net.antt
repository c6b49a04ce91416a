-- ===== src/Net.antt =====
-- crates/common/src/net: connections and listeners.
pub mod TlsClient
pub mod Connection
pub mod Server
pub mod TlsServer
