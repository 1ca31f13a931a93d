-- ===== src/Arnavi.antt =====
-- services/receiver/handler/arnavi: the Arnavi protocol.
pub mod Crc
pub mod Header
pub mod Answer
pub mod Tags
pub mod Packet
pub mod Session
pub mod Rounds
pub mod Framing
pub mod Parcel
pub mod Tests
