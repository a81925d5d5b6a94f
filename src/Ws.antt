-- ===== src/Ws.antt =====
-- infrastructure/ws: the registry of WebSocket connections and subscriptions of one process.
pub mod Manager
pub mod Registry
pub mod Refinement
pub mod Broadcast
pub mod SetLoop
pub mod Interleaved
pub mod Endpoint
