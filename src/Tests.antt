-- ===== src/Tests.antt =====
-- Runs of the models on small inputs, and the inputs.
pub mod Samples
pub mod Access
pub mod Connections
pub mod Services
pub mod Histories
pub mod Commands
pub mod Names
pub mod Wire
pub mod Clients
pub mod Answers
pub mod Listening
pub mod Proxies
