-- ===== src/Discovery.antt =====
-- The discovery protocol (serverf/discovery_protocol.cpp): contacts, and the search of users and groups.
pub mod Results
pub mod Page
pub mod Handlers
pub mod Search
pub mod Prefix
