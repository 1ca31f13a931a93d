-- ===== src/Egts.antt =====
-- services/receiver/handler/egts
pub mod Fields
pub mod StateData
pub mod ExtPosData
pub mod LiquidLevelSensor
pub mod AbsAnSensData
pub mod AbsCntrData
pub mod AbsDigSensData
pub mod ResultCode
pub mod DispatcherIdentity
pub mod AuthInfo
pub mod ModuleData
pub mod CountersData
pub mod AdSensorsData
pub mod TermIdentity
pub mod PassengersCounters
pub mod PosData
pub mod Response
pub mod Data
pub mod Records
pub mod Service
pub mod Crc
pub mod PtResponse
pub mod Package
pub mod Lengths
pub mod Reply
pub mod NavRecord
pub mod Export
pub mod ResultReply
pub mod Session
pub mod Tests
