-- ===== src/Dkls.antt =====
-- The DKLS protocol (src/protocols/dkls): oblivious transfer, its batches, multiplication into
-- additive shares, key generation and signing.
pub mod Ot
pub mod Address
pub mod Batch
pub mod Challenge
pub mod Wire
pub mod Mta
pub mod Client
pub mod Keygen
pub mod Signing
pub mod Sample
