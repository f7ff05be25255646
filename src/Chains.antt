-- ===== src/Chains.antt =====
-- Chains and their connections (src/chains).
pub mod Configs
pub mod Rpc
pub mod Manager
pub mod Laws
pub mod Connections
mod Tests
