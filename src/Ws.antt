-- ===== src/Ws.antt =====
-- Package ws/server: the topics, and the connections of a server.
pub mod Topics
pub mod Hub
pub mod Messages
pub mod Client
