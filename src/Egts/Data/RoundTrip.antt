-- ===== src/Egts/Data/RoundTrip.antt =====
-- Every kind of subrecord survives encoding and decoding, through the interface.
use nav_control.Base.{ℕ, ◌^◌, ◌<◌, ◌≡◌, refl, sym, ap, List, []}
use nav_control.Go.Result.{Result, ok, and_then, and_then-eq-ok}
use nav_control.Go.Reader.{run}
use nav_control.Go.Float.{Float64, IsAccurate}
use nav_control.Egts.Data.{
  BinaryData, pos, term, module_data, response, result_code, ext_pos, ad_sensors, state_data,
  liquid, abs_cntr, auth, counters, abs_an, abs_dig, dispatcher, passengers, decoded, decode_data,
  encode_data, kind_of,
}
use nav_control.Egts.PosData.RoundTrip
use nav_control.Egts.PosData
use nav_control.Egts.TermIdentity
use nav_control.Egts.ModuleData
use nav_control.Egts.Response
use nav_control.Egts.ResultCode
use nav_control.Egts.ExtPosData
use nav_control.Egts.AdSensorsData
use nav_control.Egts.StateData
use nav_control.Egts.LiquidLevelSensor
use nav_control.Egts.AbsCntrData
use nav_control.Egts.AuthInfo
use nav_control.Egts.CountersData
use nav_control.Egts.AbsAnSensData
use nav_control.Egts.AbsDigSensData
use nav_control.Egts.DispatcherIdentity
use nav_control.Egts.PassengersCounters

-- What each struct must satisfy to be encoded without a loss in its bytes.
abbrev pub IsWritable : BinaryData → Type 0
IsWritable (pos e) = PosData.IsValid e
IsWritable (term e) = TermIdentity.IsValid e
IsWritable (module_data e) = ModuleData.IsValid e
IsWritable (response e) = e.confirmed_record_number < 2 ^ 16
IsWritable (result_code e) = Unit {0}
IsWritable (ext_pos e) = ExtPosData.IsValid e
IsWritable (ad_sensors e) = AdSensorsData.IsValid e
IsWritable (state_data e) = StateData.IsValid e
IsWritable (liquid e) = LiquidLevelSensor.IsValid e
IsWritable (abs_cntr e) = e.counter_value < 2 ^ 24
IsWritable (auth e) = AuthInfo.IsValid e
IsWritable (counters e) = CountersData.IsValid e
IsWritable (abs_an e) = AbsAnSensData.IsValid e
IsWritable (abs_dig e) = Unit {0}
IsWritable (dispatcher e) = e.dispatcher_id < 2 ^ 32
IsWritable (passengers e) = PassengersCounters.IsValid e

-- What the decoder makes of a struct that was encoded: of counters, the second in the place of the
-- first; of a discrete sensor, the state in the place of the number.
unfoldable pub as_read : BinaryData → BinaryData
as_read (counters e) = counters (CountersData.second_as_first e)
as_read (abs_dig e) = abs_dig (record e { number = e.state_number })
as_read d = d

-- What each struct must satisfy. Counters lose the second counter to the first unless these agree, and
-- a discrete sensor its number, so the structs are those on which encoding keeps all.
abbrev pub IsValidData : BinaryData → Type 0
IsValidData (pos e) = PosData.IsValid e
IsValidData (term e) = TermIdentity.IsValid e
IsValidData (module_data e) = ModuleData.IsValid e
IsValidData (response e) = e.confirmed_record_number < 2 ^ 16
IsValidData (result_code e) = Unit {0}
IsValidData (ext_pos e) = ExtPosData.IsValid e
IsValidData (ad_sensors e) = AdSensorsData.IsValid e
IsValidData (state_data e) = StateData.IsValid e
IsValidData (liquid e) = LiquidLevelSensor.IsValid e
IsValidData (abs_cntr e) = e.counter_value < 2 ^ 24
IsValidData (auth e) = AuthInfo.IsValid e
IsValidData (counters e) = CountersData.IsValid e × (CountersData.second_as_first e ≡ e)
IsValidData (abs_an e) = AbsAnSensData.IsValid e
IsValidData (abs_dig e) = e.number ≡ e.state_number
IsValidData (dispatcher e) = e.dispatcher_id < 2 ^ 32
IsValidData (passengers e) = PassengersCounters.IsValid e

pub IsValidData-IsWritable : (d : BinaryData) → IsValidData d → IsWritable d
IsValidData-IsWritable (counters e) v = v.0
IsValidData-IsWritable (abs_dig e) v = tt
IsValidData-IsWritable (pos e) v = v
IsValidData-IsWritable (term e) v = v
IsValidData-IsWritable (module_data e) v = v
IsValidData-IsWritable (response e) v = v
IsValidData-IsWritable (result_code e) v = v
IsValidData-IsWritable (ext_pos e) v = v
IsValidData-IsWritable (ad_sensors e) v = v
IsValidData-IsWritable (state_data e) v = v
IsValidData-IsWritable (liquid e) v = v
IsValidData-IsWritable (abs_cntr e) v = v
IsValidData-IsWritable (auth e) v = v
IsValidData-IsWritable (abs_an e) v = v
IsValidData-IsWritable (dispatcher e) v = v
IsValidData-IsWritable (passengers e) v = v

pub as_read-IsValidData : (d : BinaryData) → IsValidData d → as_read d ≡ d
unfolding as_read
as_read-IsValidData (counters e) v = ap counters v.1
as_read-IsValidData (abs_dig e) v = ap abs_dig (λ i. record e { number = sym v i })
as_read-IsValidData (pos e) v = refl
as_read-IsValidData (term e) v = refl
as_read-IsValidData (module_data e) v = refl
as_read-IsValidData (response e) v = refl
as_read-IsValidData (result_code e) v = refl
as_read-IsValidData (ext_pos e) v = refl
as_read-IsValidData (ad_sensors e) v = refl
as_read-IsValidData (state_data e) v = refl
as_read-IsValidData (liquid e) v = refl
as_read-IsValidData (abs_cntr e) v = refl
as_read-IsValidData (auth e) v = refl
as_read-IsValidData (abs_an e) v = refl
as_read-IsValidData (dispatcher e) v = refl
as_read-IsValidData (passengers e) v = refl

module _ (f : Float64) (acc_90 : IsAccurate f f.degrees_90 90)
    (acc_180 : IsAccurate f f.degrees_180 180) (service : List ℕ → Result (Unit {0}))
    (empty : service [] ≡ ok tt) where
  pub decode_data-encode_data :
      (d : BinaryData)
      → IsWritable d
      → (bytes : List ℕ) × (encode_data f d ≡ ok bytes)
        × (decode_data f service (kind_of d) bytes ≡ decoded (ok (as_read d)))
  unfolding decode_data encode_data as_read
  decode_data-encode_data (pos e) v = (
    _,
    refl,
    ap (λ r. decoded (and_then r (λ x. ok (pos x))))
        (PosData.RoundTrip.decode-encode_pos f acc_90 acc_180 e v),
  )
  decode_data-encode_data (term e) v = (
    _,
    refl,
    ap (λ r. decoded (and_then r (λ x. ok (term x))))
        (TermIdentity.decode-encode_term_identity e v),
  )
  decode_data-encode_data (module_data e) v = (
    _,
    refl,
    ap (λ r. decoded (and_then r (λ x. ok (module_data x))))
        (ModuleData.decode-encode_module_data e v),
  )
  decode_data-encode_data (response e) v = (
    _,
    refl,
    ap (λ r. decoded (and_then r (λ x. ok (response x))))
        (Response.decode-encode_response service e empty v),
  )
  decode_data-encode_data (result_code e) v = (
    _,
    refl,
    ap (λ r. decoded (and_then r (λ x. ok (result_code x))))
        (ResultCode.decode-encode_result_code e),
  )
  decode_data-encode_data (ext_pos e) v =
      let (bytes, written, back) =
        and_then-eq-ok (ExtPosData.encode e) (run ExtPosData.decode)
          (ExtPosData.decode-encode_ext_pos e v) in
      (bytes, written, ap (λ r. decoded (and_then r (λ x. ok (ext_pos x)))) back)
  decode_data-encode_data (ad_sensors e) v = (
    _,
    refl,
    ap (λ r. decoded (and_then r (λ x. ok (ad_sensors x))))
        (AdSensorsData.decode-encode_ad_sensors e v),
  )
  decode_data-encode_data (state_data e) v =
      let (bytes, written, back) =
        and_then-eq-ok (StateData.encode e) (run StateData.decode)
          (StateData.decode-encode_state_data e v) in
      (bytes, written, ap (λ r. decoded (and_then r (λ x. ok (state_data x)))) back)
  decode_data-encode_data (liquid e) v = (
    _,
    refl,
    ap (λ r. decoded (and_then r (λ x. ok (liquid x))))
        (LiquidLevelSensor.decode-encode_liquid e v),
  )
  decode_data-encode_data (abs_cntr e) v = (
    _,
    refl,
    ap (λ r. decoded (and_then r (λ x. ok (abs_cntr x)))) (AbsCntrData.decode-encode_abs_cntr e v),
  )
  decode_data-encode_data (auth e) v = (
    _,
    refl,
    ap (λ r. decoded (and_then r (λ x. ok (auth x)))) (AuthInfo.decode-encode_auth_info e v),
  )
  decode_data-encode_data (counters e) v =
      let (bytes, written, back) =
        and_then-eq-ok (CountersData.encode e) (run CountersData.decode)
          (CountersData.decode-encode_counters e v) in
      (bytes, written, ap (λ r. decoded (and_then r (λ x. ok (counters x)))) back)
  decode_data-encode_data (abs_an e) v = (
    _,
    refl,
    ap (λ r. decoded (and_then r (λ x. ok (abs_an x)))) (AbsAnSensData.decode-encode_abs_an e v),
  )
  decode_data-encode_data (abs_dig e) v = (
    _,
    refl,
    ap (λ r. decoded (and_then r (λ x. ok (abs_dig x)))) (AbsDigSensData.decode-encode_abs_dig e),
  )
  decode_data-encode_data (dispatcher e) v = (
    _,
    refl,
    ap (λ r. decoded (and_then r (λ x. ok (dispatcher x))))
        (DispatcherIdentity.decode-encode_dispatcher e v),
  )
  decode_data-encode_data (passengers e) v =
      let (bytes, written, back) =
        and_then-eq-ok (PassengersCounters.encode e) (run PassengersCounters.decode)
          (PassengersCounters.decode-encode_passengers e v) in
      (bytes, written, ap (λ r. decoded (and_then r (λ x. ok (passengers x)))) back)
