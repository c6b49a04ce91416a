-- ===== src/Proxy.antt =====
-- crates/common/src/proxy: what the two ends share of a proxied connection.
pub mod Event
pub mod Executor
pub mod Streams
pub mod TcpAndTcp
