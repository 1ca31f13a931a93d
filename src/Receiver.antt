-- ===== src/Receiver.antt =====
-- services/receiver/internal/portmanager: the ports on which the receiver listens.
pub mod Instance
pub mod Manager
pub mod Config
pub mod Sound
pub mod Runs
pub mod Control
pub mod Numbers
pub mod View
pub mod Refine
pub mod Synced
pub mod Invariant
pub mod Reach
pub mod Outcome
pub mod Clients
pub mod Shutdown
pub mod Reconnect
pub mod Connections
pub mod Tests
