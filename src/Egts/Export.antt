-- ===== src/Egts/Export.antt =====
-- hangle.go, the record that is exported to NATS for a service data record; and navrecord.go.
pub mod Counts
pub mod Identity
use nav_control.Base.{
  ℕ, zero, suc, ◌+◌, ◌-◌, ◌*◌, ◌/◌, ◌%◌, ◌^◌, List, [], ◌∷◌, ◌++◌, Option, none, some, set,
  replicate, if◌then◌else◌, ◌==◌, bit_or,
}
use nav_control.Go.Result.{Result, ok, err, panic, stuck}
use nav_control.Go.Text.{Text, is_one}
use nav_control.Go.Words.{le_uint}
use nav_control.Egts.PosData.{SrPosData}
use nav_control.Egts.ExtPosData.{SrExtPosData}
use nav_control.Egts.AdSensorsData.{SrAdSensorsData}
use nav_control.Egts.AbsAnSensData.{SrAbsAnSensData}
use nav_control.Egts.AbsDigSensData.{SrAbsDigSensData}
use nav_control.Egts.AbsCntrData.{SrAbsCntrData}
use nav_control.Egts.LiquidLevelSensor.{SrLiquidLevelSensor}
use nav_control.Egts.Data.{
  BinaryData, pos, term, module_data, response, result_code, ext_pos, ad_sensors, state_data,
  liquid, abs_cntr, auth, counters, abs_an, abs_dig, dispatcher, passengers,
}
use nav_control.Egts.Records.{RecordData}
use nav_control.Egts.Service.{ServiceDataRecord}
use nav_control.Egts.NavRecord.{
  NavRecord, NavRecords, LiquidSensor, Sensor, DiSensor, DopAnIn, DopDigIn,
}

-- `models.NavRecord{}`
abbrev pub blank : NavRecord
blank = record {
  client = 0;
  packet_id = 0;
  navigation_timestamp = 0;
  received_timestamp = 0;
  latitude = 0;
  longitude = 0;
  speed = 0;
  flag_pos = 0;
  pdop = 0;
  hdop = 0;
  vdop = 0;
  nsat = 0;
  ns = 0;
  dig_input = 0;
  odometer = 0;
  course = 0;
  imei = [];
  imsi = [];
  an_sen_abs = [];
  dig_sen_abs = [];
  an_sensors = [];
  dig_senonrs = [];
  dig_sen_outs = [];
  liquid_sensors = record { flag_liq_num = 0; value = replicate 8 0 };
}

-- The variables of the loop over the subrecords. `client` outlives the record, the packet too, and so
-- does `sr_result_code` the record.
pub record Building : Type 0 where
  pub rec_nav : List NavRecord
  pub i : ℕ
  pub imei : Text
  pub imsi : Text
  pub client : ℕ
  pub packet_id_bytes : List ℕ
  pub sr_result_code : List ℕ

-- A round of the loop: on to the next, `goto Received`, or an index out of range.
pub data Round : Type 0 where
  built : Building → Round
  leaves : Building → Round
  crashed : Round

-- `rs[k]`, changed.
unfoldable pub change_at : ℕ → (NavRecord → NavRecord) → List NavRecord → Option (List NavRecord)
change_at k change [] = none
change_at zero change (r ∷ rs) = some (change r ∷ rs)
change_at (suc k) change (r ∷ rs) = elim (change_at k change rs) [
  | none ↦ none
  | some rs' ↦ some (r ∷ rs')
]

unfoldable pub with_records : Building → Option (List NavRecord) → Round
with_records b none = crashed
with_records b (some rs) = built (record b { rec_nav = rs })

-- `k := 0; if i > 0 { k = i - 1 } else if i == 0 { … append(…, models.NavRecord{}) }`
unfoldable pub last_index : Building → ℕ
last_index b = if b.i == 0 then 0 else b.i - 1

unfoldable pub make_room : Building → Building
make_room b = if b.i == 0 then record b { rec_nav = b.rec_nav ++ (blank ∷ []) } else b

-- The fields of `RecNav[k]`, with room made for it.
unfoldable pub change_last : Building → (NavRecord → NavRecord) → Round
change_last b change =
    with_records (make_room b) (change_at (last_index b) change (make_room b).rec_nav)

unfoldable pub position_of : (received_timestamp : ℕ) → Building → SrPosData → NavRecord → NavRecord
position_of received_timestamp b e r = record r {
  imei = b.imei;
  imsi = b.imsi;
  packet_id = (b.i + 1) % 2 ^ 32;
  client = b.client;
  navigation_timestamp = e.navigation_time;
  received_timestamp = received_timestamp;
  latitude = e.latitude;
  longitude = e.longitude;
  speed = e.speed;
  course = e.direction;
  flag_pos = e.flag_pos;
  dig_input = e.digital_inputs;
  odometer = e.odometer;
}

unfoldable pub counted : Round → Round
counted (built b) = built (record b { i = b.i + 1 })
counted (leaves b) = leaves b
counted crashed = crashed

-- `*SrPosData`
unfoldable pub add_position : (received_timestamp : ℕ) → Building → SrPosData → Round
add_position received_timestamp b e =
    let more = record b { rec_nav = b.rec_nav ++ (blank ∷ []) } in
    counted (with_records more (change_at b.i (position_of received_timestamp b e) more.rec_nav))

unfoldable pub ext_of : SrExtPosData → NavRecord → NavRecord
ext_of e r = record r {
  nsat = e.satellites;
  pdop = e.position_dilution_of_precision;
  hdop = e.horizontal_dilution_of_precision;
  vdop = e.vertical_dilution_of_precision;
  ns = e.navigation_system;
}

unfoldable pub sensors_of : SrAdSensorsData → NavRecord → NavRecord
sensors_of e r = record r {
  dig_sen_outs = r.dig_sen_outs ++ (e.digital_outputs ∷ []);
  dig_senonrs =
      r.dig_senonrs
      ++ (record { dioe = e.digital_inputs_octet_exists; adio = e.additional_digital_inputs_octet }
          ∷ []);
  an_sensors =
      r.an_sensors
      ++ (record { asfe = e.analog_sensor_field_exists; ansi = e.analog_sensors } ∷ []);
}

unfoldable pub abs_an_of : SrAbsAnSensData → NavRecord → NavRecord
abs_an_of e r = record r {
  an_sen_abs = r.an_sen_abs ++ (record { sensor_number = e.sensor_number; value = e.value } ∷ []);
}

unfoldable pub abs_dig_of : SrAbsDigSensData → NavRecord → NavRecord
abs_dig_of e r = record r {
  dig_sen_abs = r.dig_sen_abs ++ (record { state_number = e.state_number; number = e.number } ∷ []);
}

-- The number of the sensor is below 8, the length of `Value`.
unfoldable pub liquid_of : SrLiquidLevelSensor → NavRecord → NavRecord
liquid_of e r =
    let ind = e.flag_liq % 8 in
    record r {
      liquid_sensors = record {
        flag_liq_num = bit_or r.liquid_sensors.flag_liq_num (2 ^ ind);
        value = set r.liquid_sensors.value ind e.liquid_level_sensor_data;
      };
    }

-- `binary.BigEndian.PutUint32`
unfoldable pub put_be : ℕ → List ℕ
put_be v = (v / 2 ^ 24 % 256) ∷ (v / 2 ^ 16 % 256) ∷ (v / 2 ^ 8 % 256) ∷ (v % 256) ∷ []

-- `*SrAbsCntrData`: counters 110 and 111 carry a packet number.
unfoldable pub add_counter : Building → SrAbsCntrData → Round
add_counter b e =
    if e.counter_number == 110
    then change_last (record b { packet_id_bytes = put_be e.counter_value })
        (λ r. record r { packet_id = e.counter_value })
    else if e.counter_number == 111
    then (let bytes = set b.packet_id_bytes 3 (e.counter_value % 256) in
        change_last (record b { packet_id_bytes = bytes })
          (λ r. record r { packet_id = le_uint bytes }))
    else built (make_room b)

-- `srResultCodePkg, err = createSrResultCode(…)`: an error leaves it empty.
unfoldable pub add_result_code : Building → Result (List ℕ) → Round
add_result_code b (ok bytes) = built (record b { sr_result_code = bytes })
add_result_code b (err e) = built (record b { sr_result_code = [] })
add_result_code b panic = crashed
add_result_code b stuck = crashed

module _ (received_timestamp : ℕ) (result_code_reply : Result (List ℕ)) where
  -- The switch on the subrecord. `result_code_reply` is the call of createSrResultCode.
  unfoldable pub add_subrecord : Building → BinaryData → Round
  add_subrecord b (term e) =
      add_result_code (record b { client = e.terminal_identifier; imei = e.imei; imsi = e.imsi })
        result_code_reply
  add_subrecord b (auth e) = add_result_code b result_code_reply
  add_subrecord b (response e) = leaves b
  add_subrecord b (pos e) = add_position received_timestamp b e
  add_subrecord b (ext_pos e) = change_last b (ext_of e)
  add_subrecord b (ad_sensors e) = change_last b (sensors_of e)
  add_subrecord b (abs_an e) = change_last b (abs_an_of e)
  add_subrecord b (abs_dig e) = change_last b (abs_dig_of e)
  add_subrecord b (abs_cntr e) = add_counter b e
  add_subrecord b (liquid e) = change_last b (liquid_of e)
  add_subrecord b (module_data e) = built b
  add_subrecord b (result_code e) = built b
  add_subrecord b (state_data e) = built b
  add_subrecord b (counters e) = built b
  add_subrecord b (dispatcher e) = built b
  add_subrecord b (passengers e) = built b

  unfoldable pub and_next : (Building → Round) → Round → Round
  and_next next (built b) = next b
  and_next next (leaves b) = leaves b
  and_next next crashed = crashed

  -- The loop over `rec.RecordDataSet`.
  unfoldable pub add_subrecords : List RecordData → Building → Round
  add_subrecords [] b = built b
  add_subrecords (r ∷ rs) b = and_next (add_subrecords rs) (add_subrecord b r.subrecord_data)

-- The variables at the start of a record; an object identifier changes the client.
unfoldable pub start_record :
    (client : ℕ) → (sr_result_code : List ℕ) → ServiceDataRecord → Building
start_record client sr_result_code rec = record {
  rec_nav = [];
  i = 0;
  imei = [];
  imsi = [];
  client = if is_one rec.object_id_field_exists then rec.object_identifier else client;
  packet_id_bytes = replicate 4 0;
  sr_result_code = sr_result_code;
}

unfoldable pub exported : ServiceDataRecord → Building → NavRecords
exported rec b = record {
  packet_type = 1;
  packet_id = rec.record_number % 2 ^ 32;
  rec_nav = b.rec_nav;
}
