-- ===== src/Client.antt =====
-- ClientConnection (clientf/client_connection): what it accepts of the server's frames, and what it
-- sends by itself.
pub mod Fields
pub mod Envelope
pub mod State
pub mod Requests
pub mod Pending
pub mod Discovery
pub mod Dispatch
pub mod Receive
pub mod Steps
pub mod Runs
pub mod Loop
pub mod Receiver
pub mod Invariant
pub mod Once
pub mod Theorems
pub mod Accepted
