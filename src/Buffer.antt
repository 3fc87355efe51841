-- ===== src/Buffer.antt =====
-- clientf/message_buffer: the client's store of messages by conversation. Each public method is a
-- function of the buffer; the mutex makes each call one step. Running out of memory inside a method
-- is not modelled. State, Key, Envelope, Receive, Outgoing and View hold the definitions, the other
-- modules their proofs.
pub mod Key
pub mod State
pub mod Envelope
pub mod Receive
pub mod Outgoing
pub mod View
pub mod Calls
pub mod Cases
pub mod Grows
pub mod Limits
pub mod Delivery
pub mod Reservation
pub mod Costs
pub mod Accounting
pub mod Filing
pub mod Agreement
pub mod Unread
pub mod Overcommit
pub mod Handles
