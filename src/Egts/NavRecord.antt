-- ===== src/Egts/NavRecord.antt =====
-- pkg/models/navrecord.go: the records that are published.
use nav_control.Base.{ℕ, List}
use nav_control.Go.Text.{Text}

pub record DopAnIn : Type 0 where
  pub asfe : ℕ
  pub ansi : List ℕ

pub record DopDigIn : Type 0 where
  pub dioe : ℕ
  pub adio : List ℕ

pub record DiSensor : Type 0 where
  pub state_number : ℕ
  pub number : ℕ

pub record LiquidSensor : Type 0 where
  pub flag_liq_num : ℕ
  pub value : List ℕ

pub record Sensor : Type 0 where
  pub sensor_number : ℕ
  pub value : ℕ

pub record NavRecord : Type 0 where
  pub client : ℕ
  pub packet_id : ℕ
  pub navigation_timestamp : ℕ
  pub received_timestamp : ℕ
  pub latitude : ℕ
  pub longitude : ℕ
  pub speed : ℕ
  pub flag_pos : ℕ
  pub pdop : ℕ
  pub hdop : ℕ
  pub vdop : ℕ
  pub nsat : ℕ
  pub ns : ℕ
  pub dig_input : ℕ
  pub odometer : ℕ
  pub course : ℕ
  pub imei : Text
  pub imsi : Text
  pub an_sen_abs : List Sensor
  pub dig_sen_abs : List DiSensor
  pub an_sensors : List DopAnIn
  pub dig_senonrs : List DopDigIn
  pub dig_sen_outs : List ℕ
  pub liquid_sensors : LiquidSensor

pub record NavRecords : Type 0 where
  pub packet_type : ℕ
  pub packet_id : ℕ
  pub rec_nav : List NavRecord
