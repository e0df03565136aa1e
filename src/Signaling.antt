-- ===== src/Signaling.antt =====
-- The signaling side of the server: connections from clients and the workers that serve them.
pub mod Conn
pub mod Framing
pub mod Json
pub mod Request
pub mod Server
pub mod Worker
pub mod Handlers
pub mod Table
pub mod Events
