-- ===== src/Tests.antt =====
-- Runs of the models on small data: the theorems at concrete inputs.
pub mod Conversations
pub mod Frames
pub mod Registration
pub mod Display
pub mod Typing
mod Values
mod Pages
mod Deliveries
mod Connections
