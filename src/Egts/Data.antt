-- ===== src/Egts/Data.antt =====
-- head.go (the types of subrecords) and the interface BinaryData, with the structs that implement it as one data type.
pub mod RoundTrip
use nav_control.Base.{ℕ, ◌%◌, ◌^◌, List, length, if◌then◌else◌, ◌==◌}
use nav_control.Go.Result.{Result, ok, err, panic, stuck, and_then, unknown_type}
use nav_control.Go.Reader.{run}
use nav_control.Egts.PosData
use nav_control.Egts.PosData.{SrPosData}
use nav_control.Egts.TermIdentity
use nav_control.Egts.TermIdentity.{SrTermIdentity}
use nav_control.Egts.ModuleData
use nav_control.Egts.ModuleData.{SrModuleData}
use nav_control.Egts.Response
use nav_control.Egts.Response.{SrResponse}
use nav_control.Egts.ResultCode
use nav_control.Egts.ResultCode.{SrResultCode}
use nav_control.Egts.ExtPosData
use nav_control.Egts.ExtPosData.{SrExtPosData}
use nav_control.Egts.AdSensorsData
use nav_control.Egts.AdSensorsData.{SrAdSensorsData}
use nav_control.Egts.StateData
use nav_control.Egts.StateData.{SrStateData}
use nav_control.Egts.LiquidLevelSensor
use nav_control.Egts.LiquidLevelSensor.{SrLiquidLevelSensor}
use nav_control.Egts.AbsCntrData
use nav_control.Egts.AbsCntrData.{SrAbsCntrData}
use nav_control.Egts.AuthInfo
use nav_control.Egts.AuthInfo.{SrAuthInfo}
use nav_control.Egts.CountersData
use nav_control.Egts.CountersData.{SrCountersData}
use nav_control.Egts.AbsAnSensData
use nav_control.Egts.AbsAnSensData.{SrAbsAnSensData}
use nav_control.Egts.AbsDigSensData
use nav_control.Egts.AbsDigSensData.{SrAbsDigSensData}
use nav_control.Egts.DispatcherIdentity
use nav_control.Egts.DispatcherIdentity.{SrDispatcherIdentity}
use nav_control.Egts.PassengersCounters
use nav_control.Egts.PassengersCounters.{SrPassengersCountersData}
use nav_control.Go.Float.{Float64}

abbrev pub egts_sr_record_response : ℕ
egts_sr_record_response = 0

abbrev pub egts_sr_term_identity : ℕ
egts_sr_term_identity = 1

abbrev pub egts_sr_module_data : ℕ
egts_sr_module_data = 2

abbrev pub egts_sr_dispatcher_identity : ℕ
egts_sr_dispatcher_identity = 5

abbrev pub egts_sr_auth_info : ℕ
egts_sr_auth_info = 7

abbrev pub egts_sr_result_code : ℕ
egts_sr_result_code = 9

abbrev pub egts_sr_pos_data : ℕ
egts_sr_pos_data = 16

abbrev pub egts_sr_ext_pos_data : ℕ
egts_sr_ext_pos_data = 17

abbrev pub egts_sr_ad_sensors_data : ℕ
egts_sr_ad_sensors_data = 18

abbrev pub egts_sr_counters_data : ℕ
egts_sr_counters_data = 19

abbrev pub egts_sr_state_data : ℕ
egts_sr_state_data = 20

abbrev pub egts_sr_abs_dig_sens_data : ℕ
egts_sr_abs_dig_sens_data = 23

abbrev pub egts_sr_abs_an_sens_data : ℕ
egts_sr_abs_an_sens_data = 24

abbrev pub egts_sr_abs_cntr_data : ℕ
egts_sr_abs_cntr_data = 25

abbrev pub egts_sr_liquid_level_sensor : ℕ
egts_sr_liquid_level_sensor = 27

abbrev pub egts_sr_passengers_counters : ℕ
egts_sr_passengers_counters = 28

pub data BinaryData : Type 0 where
  pos : SrPosData → BinaryData
  term : SrTermIdentity → BinaryData
  module_data : SrModuleData → BinaryData
  response : SrResponse → BinaryData
  result_code : SrResultCode → BinaryData
  ext_pos : SrExtPosData → BinaryData
  ad_sensors : SrAdSensorsData → BinaryData
  state_data : SrStateData → BinaryData
  liquid : SrLiquidLevelSensor → BinaryData
  abs_cntr : SrAbsCntrData → BinaryData
  auth : SrAuthInfo → BinaryData
  counters : SrCountersData → BinaryData
  abs_an : SrAbsAnSensData → BinaryData
  abs_dig : SrAbsDigSensData → BinaryData
  dispatcher : SrDispatcherIdentity → BinaryData
  passengers : SrPassengersCountersData → BinaryData

-- The switch on the type in `RecordDataSet.Decode`: a type that is not in it is skipped.
pub data Decoded : Type 0 where
  decoded : Result BinaryData → Decoded
  skipped : Decoded

unfoldable pub decode_data : Float64 → (List ℕ → Result (Unit {0})) → ℕ → List ℕ → Decoded
decode_data f service kind bytes =
    if kind == egts_sr_pos_data
    then decoded (and_then (run (PosData.decode f) bytes) (λ e. ok (pos e)))
    else if kind == egts_sr_term_identity
    then decoded (and_then (run TermIdentity.decode bytes) (λ e. ok (term e)))
    else if kind == egts_sr_module_data
    then decoded (and_then (run ModuleData.decode bytes) (λ e. ok (module_data e)))
    else if kind == egts_sr_record_response
    then decoded (and_then (run (Response.decode service) bytes) (λ e. ok (response e)))
    else if kind == egts_sr_result_code
    then decoded (and_then (run ResultCode.decode bytes) (λ e. ok (result_code e)))
    else if kind == egts_sr_ext_pos_data
    then decoded (and_then (run ExtPosData.decode bytes) (λ e. ok (ext_pos e)))
    else if kind == egts_sr_ad_sensors_data
    then decoded (and_then (run AdSensorsData.decode bytes) (λ e. ok (ad_sensors e)))
    else if kind == egts_sr_state_data
    then decoded (and_then (run StateData.decode bytes) (λ e. ok (state_data e)))
    else if kind == egts_sr_liquid_level_sensor
    then decoded (and_then (run LiquidLevelSensor.decode bytes) (λ e. ok (liquid e)))
    else if kind == egts_sr_abs_cntr_data
    then decoded (and_then (run AbsCntrData.decode bytes) (λ e. ok (abs_cntr e)))
    else if kind == egts_sr_auth_info
    then decoded (and_then (run AuthInfo.decode bytes) (λ e. ok (auth e)))
    else if kind == egts_sr_counters_data
    then decoded (and_then (run CountersData.decode bytes) (λ e. ok (counters e)))
    else if kind == egts_sr_abs_an_sens_data
    then decoded (and_then (AbsAnSensData.decode bytes) (λ e. ok (abs_an e)))
    else if kind == egts_sr_abs_dig_sens_data
    then decoded (and_then (AbsDigSensData.decode bytes) (λ e. ok (abs_dig e)))
    else if kind == egts_sr_dispatcher_identity
    then decoded (and_then (run DispatcherIdentity.decode bytes) (λ e. ok (dispatcher e)))
    else if kind == egts_sr_passengers_counters
    then decoded (and_then (run PassengersCounters.decode bytes) (λ e. ok (passengers e)))
    else skipped

-- The call of `Encode` through the interface.
unfoldable pub encode_data : Float64 → BinaryData → Result (List ℕ)
encode_data f (pos e) = ok (PosData.encode f e)
encode_data f (term e) = ok (TermIdentity.encode e)
encode_data f (module_data e) = ok (ModuleData.encode e)
encode_data f (response e) = ok (Response.encode e)
encode_data f (result_code e) = ok (ResultCode.encode e)
encode_data f (ext_pos e) = ExtPosData.encode e
encode_data f (ad_sensors e) = ok (AdSensorsData.encode e)
encode_data f (state_data e) = StateData.encode e
encode_data f (liquid e) = ok (LiquidLevelSensor.encode e)
encode_data f (abs_cntr e) = ok (AbsCntrData.encode e)
encode_data f (auth e) = ok (AuthInfo.encode e)
encode_data f (counters e) = CountersData.encode e
encode_data f (abs_an e) = ok (AbsAnSensData.encode e)
encode_data f (abs_dig e) = ok (AbsDigSensData.encode e)
encode_data f (dispatcher e) = ok (DispatcherIdentity.encode e)
encode_data f (passengers e) = PassengersCounters.encode e

-- The type that `RecordDataSet.Encode` writes where the struct gives none.
unfoldable pub implied_type : BinaryData → Result ℕ
implied_type (pos e) = ok egts_sr_pos_data
implied_type (term e) = ok egts_sr_term_identity
implied_type (module_data e) = err unknown_type
implied_type (response e) = ok egts_sr_record_response
implied_type (result_code e) = ok egts_sr_result_code
implied_type (ext_pos e) = ok egts_sr_ext_pos_data
implied_type (ad_sensors e) = ok egts_sr_ad_sensors_data
implied_type (state_data e) = ok egts_sr_state_data
implied_type (liquid e) = ok egts_sr_liquid_level_sensor
implied_type (abs_cntr e) = ok egts_sr_abs_an_sens_data
implied_type (auth e) = ok egts_sr_auth_info
implied_type (counters e) = ok egts_sr_counters_data
implied_type (abs_an e) = ok egts_sr_abs_an_sens_data
implied_type (abs_dig e) = err unknown_type
implied_type (dispatcher e) = err unknown_type
implied_type (passengers e) = err unknown_type

-- The type that the decoder takes a struct from.
abbrev pub kind_of : BinaryData → ℕ
kind_of (pos e) = egts_sr_pos_data
kind_of (term e) = egts_sr_term_identity
kind_of (module_data e) = egts_sr_module_data
kind_of (response e) = egts_sr_record_response
kind_of (result_code e) = egts_sr_result_code
kind_of (ext_pos e) = egts_sr_ext_pos_data
kind_of (ad_sensors e) = egts_sr_ad_sensors_data
kind_of (state_data e) = egts_sr_state_data
kind_of (liquid e) = egts_sr_liquid_level_sensor
kind_of (abs_cntr e) = egts_sr_abs_cntr_data
kind_of (auth e) = egts_sr_auth_info
kind_of (counters e) = egts_sr_counters_data
kind_of (abs_an e) = egts_sr_abs_an_sens_data
kind_of (abs_dig e) = egts_sr_abs_dig_sens_data
kind_of (dispatcher e) = egts_sr_dispatcher_identity
kind_of (passengers e) = egts_sr_passengers_counters

-- `Length()`: the encoded length as a uint16, or 0 where encoding fails.
abbrev pub length_of : Result (List ℕ) → ℕ
length_of (ok bytes) = length bytes % 2 ^ 16
length_of (err e) = 0
length_of panic = 0
length_of stuck = 0
