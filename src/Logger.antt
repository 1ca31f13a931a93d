-- ===== src/Logger.antt =====
-- pkg/logger: reading the log.
pub mod Filter
pub mod Read
pub mod Selected
pub mod Newest
pub mod Blocks
pub mod Tests
