-- ===== src/Egts/Tests.antt =====
-- Runs of the codecs on concrete structs.
pub mod Fractions
mod Optional
mod Sets
mod Answers
mod Sessions
