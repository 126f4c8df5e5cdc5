-- ===== src/Nats.antt =====
-- The embedded NATS Core server, src/nats/.
pub mod Parser
pub mod Router
pub mod Server
pub mod Hub
