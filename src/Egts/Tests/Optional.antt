-- ===== src/Egts/Tests/Optional.antt =====
-- Runs of the codecs of the subrecords with optional fields.
use nav_control.Base.{◌≡◌, refl, [], ◌∷◌, replicate, inl, inr, arith}
use nav_control.Egts.TermIdentity
use nav_control.Egts.PassengersCounters
use nav_control.Go.Result.{ok, and_then}
use nav_control.Go.Reader.{run}
use nav_control.Go.Text.{zero_text, one_text, format8}

abbrev term_sample : TermIdentity.SrTermIdentity
term_sample = record {
  terminal_identifier = 133552;
  mne = zero_text;
  bse = one_text;
  nide = one_text;
  ssra = one_text;
  lngce = zero_text;
  imsie = zero_text;
  imeie = one_text;
  hdide = zero_text;
  home_dispatcher_identifier = 0;
  imei = replicate 15 b'5';
  imsi = [];
  language_code = [];
  network_identifier = 1 ∷ 2 ∷ 3 ∷ [];
  buffer_size = 1024;
  mobile_number = [];
}

abbrev passengers_sample : PassengersCounters.SrPassengersCountersData
passengers_sample = record {
  raw_data_flag = zero_text;
  doors_presented = format8 5;
  doors_released = format8 1;
  module_address = 300;
  passengers_counters_data =
      record { door_no = 1; inside = 4; outside = 2 }
      ∷ record { door_no = 3; inside = 0; outside = 7 }
      ∷ [];
  passengers_counters_raw_data = [];
}

decode-encode_passengers_example :
    and_then (PassengersCounters.encode passengers_sample) (run PassengersCounters.decode)
    ≡ ok passengers_sample
unfolding PassengersCounters.is_absent format8
decode-encode_passengers_example =
    PassengersCounters.decode-encode_passengers passengers_sample (record {
      presented = (5, omega arith, refl);
      released = (1, omega arith, refl);
      address = omega arith;
      body = inl (
        refl,
        inr (
          refl,
          refl,
          inl (refl, inr (refl, refl, (refl, (refl, (refl, (refl, (refl, refl))))))),
        ),
        refl,
      );
    })
