-- ===== src/Agreement.antt =====
-- The two ends of the connection together: what the server writes and what the client accepts.
pub mod Reads
pub mod Envelope
pub mod History
pub mod Pending
pub mod Synchronization
pub mod Requests
pub mod Handled
pub mod Entries
pub mod Discovery
pub mod Listings
