-- ===== src/Client.antt =====
-- The client's own state machines (src/core).
pub mod Connection
pub mod Keys
pub mod Provider
pub mod Storage
mod Tests
