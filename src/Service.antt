-- ===== src/Service.antt =====
-- The requests of an admitted session (server.cpp).
pub mod Groups
pub mod Requests
pub mod Changes
pub mod Steps
pub mod Durable
pub mod Routed
