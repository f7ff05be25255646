-- ===== src/Recovery.antt =====
-- Recovery of a key without the backend (src/core/self-custody-recovery.ts): a password seals the
-- client's share, and a key that it determines opens the backend's share.
mod Bits
pub mod Json
pub mod Blob
pub mod Custody
pub mod Joint
pub mod Kdf
pub mod Extract
pub mod Laws
mod Tests
