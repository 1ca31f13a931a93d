-- ===== src/Retranslator/Packed.antt =====
-- client.go, received: the packet of a record is one that the encoder takes.
use nav_control.Base.{
  ℕ, ◌+◌, ◌*◌, ◌%◌, ◌^◌, ◌≤◌, ◌<◌, ◌≡◌, refl, sym, ap, subst, ◌∙◌, List, [], ◌∷◌, length, none,
  some, arith, All, length-append, Bool-cases, inl, inr,
}
use nav_control.Go.Result.{ok}
use nav_control.Go.Float.{Float64}
use nav_control.Egts.Fields.{opt}
use nav_control.Egts.Data.{encode_data}
use nav_control.Egts.PosData
use nav_control.Egts.PosData.{has_altitude}
use nav_control.Egts.AdSensorsData
use nav_control.Egts.AdSensorsData.{AreFields, write_sensors, write_octets, bit}
use nav_control.Egts.Records
use nav_control.Egts.Records.{RecordData}
use nav_control.Egts.Records.RoundTrip.{IsValidRecord}
use nav_control.Go.Text.{parse_flags}
use nav_control.Egts.Service
use nav_control.Egts.Service.{ServiceDataRecord}
use nav_control.Egts.Package.{
  Package, services, encode_body, encode_frame, with_key, is_plain, header_size,
}
use nav_control.Egts.Package.RoundTrip.{IsRoute, kind_of_frame}
use nav_control.Egts.Package.Frame.{IsValidFrame, IsOpened}
use nav_control.Egts.Package.Kept.{IsValidPackage}
use nav_control.Egts.Service.OneRecord.{IsValidService}
use nav_control.Egts.Reply.Confirmed.{ok_length}
use nav_control.Egts.Lengths.{
  with_length, with_lengths, with_size, encode-with_lengths, encode_record-with_size,
}
use nav_control.Retranslator.Sender.{
  SendPkg, position_record, sensors_record, has_sensors, records_of, service_record, packet_of,
}

-- The place is on the globe, the speed below 1639, and the sensors are eight, of three bytes where their
-- bit is set and zero elsewhere.
pub record IsValidSend (p : SendPkg) : Type 0 where
  pub latitude : p.lat % 2 ^ 32 ≤ 90 * 10 ^ 7
  pub longitude : p.lng % 2 ^ 32 ≤ 180 * 10 ^ 7
  pub speed : p.speed % 2 ^ 16 < 1639
  pub sensors : AreFields 3 0 (p.asfe % 2 ^ 8) p.ansi
  pub eight : length p.ansi ≡ 8

write_sensors-length :
    (i flags : ℕ) (vs : List ℕ) → length (write_sensors i flags vs) ≤ 3 * length vs
unfolding write_sensors opt
write_sensors-length i flags [] = omega arith
write_sensors-length i flags (v ∷ vs) =
    let more = write_sensors-length (i + 1) flags vs in
    elim (Bool-cases (bit flags i)) [
      | inl e ↦ rw (write_sensors, opt, e) (omega (arith, more))
      | inr e ↦ rw (write_sensors, opt, e) (omega (arith, more))
    ]

module _ (f : Float64) where
  -- A subrecord without a length gets that of its bytes.
  own_length-with_length :
      (r : RecordData)
      → r.subrecord_length ≡ 0
      → ok_length (encode_data f r.subrecord_data) < 100
      → (bytes : List ℕ) → encode_data f r.subrecord_data ≡ ok bytes
      → (length bytes ≡ (with_length f r).subrecord_length)
        × ((with_length f r).subrecord_length < 2 ^ 16)
  unfolding with_length Records.record_length
  own_length-with_length r none_yet small bytes e =
      let fits : length bytes < 100 = subst (λ m. ok_length m < 100) e small in
      rw (none_yet, e) (omega (arith, fits), omega (arith))

  position-small :
      (p : SendPkg) → ok_length (encode_data f (position_record p).subrecord_data) < 100
  unfolding encode_data position_record PosData.encode opt
  position-small p = elim (Bool-cases (has_altitude (p.flag % 2 ^ 8))) [
    | inl there ↦ rw (opt, there) (omega arith)
    | inr absent ↦ rw (opt, absent) (omega arith)
  ]

  sensors-small :
      (p : SendPkg)
      → length p.ansi ≡ 8
      → ok_length (encode_data f (sensors_record p).subrecord_data) < 100
  unfolding encode_data sensors_record AdSensorsData.encode write_octets opt
  sensors-small p eight = omega (arith, eight, write_sensors-length 0 (p.asfe % 2 ^ 8) p.ansi)

  position-IsValid :
      (p : SendPkg) → IsValidSend p → IsValidRecord f (with_length f (position_record p))
  unfolding with_length position_record
  position-IsValid p v = record {
    data_valid = record {
      time = omega arith;
      latitude = v.latitude;
      longitude = v.longitude;
      highest = omega arith;
      sign = omega arith;
      speed = v.speed;
      direction = omega arith;
      top = λ e. absurd (omega arith);
      odometer = omega arith;
      altitude = elim (Bool-cases (has_altitude (p.flag % 2 ^ 8))) [
        | inl there ↦ inl (there, omega arith)
        | inr absent ↦ inr (absent, refl)
      ];
      no_source_data = refl;
    };
    own_type = refl;
    own_length = own_length-with_length (position_record p) refl (position-small p);
  }

  sensors-IsValid :
      (p : SendPkg) → IsValidSend p → IsValidRecord f (with_length f (sensors_record p))
  unfolding with_length sensors_record
  sensors-IsValid p v = record {
    data_valid = record {
      octets = (
        inr (refl, refl),
        (
          inr (refl, refl),
          (
            inr (refl, refl),
            (
              inr (refl, refl),
              (inr (refl, refl), (inr (refl, refl), (inr (refl, refl), (inr (refl, refl), tt)))),
            ),
          ),
        ),
      );
      sensors = v.sensors;
      eight_octets = refl;
      eight_sensors = v.eight;
    };
    own_type = refl;
    own_length = own_length-with_length (sensors_record p) refl (sensors-small p v.eight);
  }

  records-IsValid :
      (p : SendPkg) → IsValidSend p → All (IsValidRecord f) (with_lengths f (records_of p))
  unfolding with_lengths records_of
  records-IsValid p v = elim (Bool-cases (has_sensors p)) [
    | inl there ↦
        rw (with_lengths, records_of, there) (position-IsValid p v, (sensors-IsValid p v, tt))
    | inr absent ↦ rw (with_lengths, records_of, absent) (position-IsValid p v, tt)
  ]

  records-length :
      (p : SendPkg)
      → length p.ansi ≡ 8
      → (content : List ℕ) × (Records.encode f (records_of p) ≡ ok content) × (length content < 300)
  unfolding Records.encode Records.encode_record Records.record_type encode_data records_of
      position_record sensors_record
  records-length p eight =
      let place = position-small p in
      let more = sensors-small p eight in
      elim (Bool-cases (has_sensors p)) [
        | inl there ↦
            rw (records_of, there) (_, refl, simp (length-append) (omega (arith, place, more)))
        | inr absent ↦
            rw (records_of, absent) (_, refl, simp (length-append) (omega (arith, place)))
      ]

  service_record-IsValid :
      (id_rec : ℕ) (p : SendPkg)
      → IsValidSend p
      → IsValidService f (with_size f (service_record id_rec p))
  unfolding with_size service_record
  service_record-IsValid id_rec p v = record {
    source = inl refl;
    recipient = inl refl;
    group = inl refl;
    priority = (1, 0, omega arith, omega arith, refl);
    object = record { is_flag = inr refl; is_opt = inl (refl, omega arith) };
    event = record { is_flag = inl refl; is_opt = inr (refl, refl) };
    time_flag = inl refl;
    time = inr (refl, refl);
    number = omega arith;
    records = records-IsValid p v;
    own_length = λ bytes e.
        let own : Records.encode f (records_of p) ≡ ok bytes =
          sym (encode-with_lengths f (records_of p)) ∙ e in
        let (content, encoded, most) = records-length p v.eight in
        let same : length bytes ≡ length content = ap ok_length (sym own ∙ encoded) in
        let small : length bytes < 300 = omega (arith, same, most) in
        rw own (omega (arith, small), omega arith);
  }

  -- The packet with the lengths that Encode fills in below it.
  unfoldable pub with_sizes : (id_rec : ℕ) → SendPkg → Package
  with_sizes id_rec p = record (packet_of id_rec p) {
    services_frame_data = some (services (with_size f (service_record id_rec p) ∷ []));
  }

  services-length :
      (id_rec : ℕ) (p : SendPkg)
      → IsValidSend p
      → (bytes : List ℕ) × (Service.encode f (service_record id_rec p ∷ []) ≡ ok bytes)
        × (0 < length bytes)
        × (length bytes < 400)
  unfolding Service.encode Service.encode_record Service.flag_bits service_record parse_flags opt
  services-length id_rec p v =
      let (content, encoded, most) = records-length p v.eight in
      rw encoded (_, refl, omega arith, simp (length-append) (omega (arith, most)))

  pub body_of :
      (id_rec : ℕ) (p : SendPkg)
      → IsValidSend p
      → (body : List ℕ) × (encode_body f none
            (b'0' ∷ b'0' ∷ [])
            (packet_of id_rec p).services_frame_data
          ≡ ok body)
        × (encode_body f none (b'0' ∷ b'0' ∷ []) (with_sizes id_rec p).services_frame_data
            ≡ ok body)
        × (0 < length body)
        × (length body < 400)
  unfolding packet_of with_sizes encode_body encode_frame with_key is_plain Service.encode
  body_of id_rec p v =
      let (body, encoded, some_bytes, most) = services-length id_rec p v in
      (
        body,
        rw encoded refl,
        rw (encode_record-with_size f (service_record id_rec p)) (rw encoded refl),
        some_bytes,
        most,
      )

  pub with_sizes-IsValid :
      (id_rec : ℕ) (p : SendPkg)
      → IsValidSend p
      → IsValidPackage f none
          (with_sizes id_rec p)
          (services (with_size f (service_record id_rec p) ∷ []))
  unfolding with_sizes packet_of header_size
  with_sizes-IsValid id_rec p v =
      let (body, plain, sealed, some_bytes, most) = body_of id_rec p v in
      record {
        prefix = (0, 0, omega arith, omega arith, refl);
        route = inl refl;
        algorithm = (0, 0, omega arith, omega arith, refl);
        compression = inl refl;
        priority = (1, 0, omega arith, omega arith, refl);
        size = inr refl;
        way = unfold IsRoute in inr (refl, refl, refl, refl);
        identifier = omega arith;
        has_data = refl;
        kind = unfold kind_of_frame in refl;
        frame = unfold IsValidFrame in (service_record-IsValid id_rec p v, tt);
        opened = unfold IsOpened is_plain in inl refl;
        fits = λ bytes e.
            let same : length bytes ≡ length body = ap ok_length (sym e ∙ sealed) in
            (omega (arith, same, some_bytes), omega (arith, same, most));
      }
