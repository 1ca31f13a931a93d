-- ===== src/Writer.antt =====
-- services/writer: records from NATS, in batches to the database, or to a file while it is away.
pub mod Server
pub mod Files
pub mod Counts
pub mod Held
pub mod Conserved
pub mod Reach
pub mod Nats
pub mod Config
pub mod Services
pub mod Tests
