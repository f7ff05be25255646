-- ===== src/Transport.antt =====
-- The retry middleware (src/transport/middleware/retry.ts) and the message queue of the WebSocket
-- client (src/transport/websocket-client.ts).
pub mod Retry
pub mod Queue
mod Tests
