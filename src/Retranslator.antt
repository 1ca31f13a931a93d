-- ===== src/Retranslator.antt =====
-- services/retranslator/internal/sendegts: records sent on to other systems, and their answers.
pub mod Ack
pub mod Accepts
pub mod Sender
pub mod Saved
pub mod Packed
pub mod Delivered
pub mod Tests
pub mod Clients
pub mod Deleted
pub mod Relay
