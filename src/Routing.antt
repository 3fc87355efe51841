-- ===== src/Routing.antt =====
-- The requests for durable messages (serverf/durable_routing.cpp).
pub mod Messages
pub mod Page
pub mod Prefix
pub mod Database
pub mod Requests
pub mod Deliveries
pub mod Handlers
pub mod Narrowing
pub mod Recipients
pub mod Delivered
pub mod Acceptance
