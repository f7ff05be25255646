-- ===== src/Client/Storage.antt =====
-- The encrypted storage of the client's shares (src/core/secure-storage.ts), in memory, and the
-- encryption with a password (src/core/crypto-primitives.ts).
pub mod Memory
pub mod Secure
pub mod Laws
mod Tests
