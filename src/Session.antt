-- ===== src/Session.antt =====
-- serverf: the server's sessions with its clients, their registry, and the handlers that run them.
pub mod Frames
pub mod Registry
pub mod Handlers
