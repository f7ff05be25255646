-- ===== src/Client/Provider.antt =====
-- `NeroProvider` (src/core/provider.ts), the EIP-1193 face of the wallet: its state and its events,
-- the methods of a request, and what holds of every state that they reach.
pub mod State
pub mod Host
pub mod Request
pub mod Laws
pub mod Signing
mod Tests
