-- ===== src/Egts/Service/OneRecord.antt =====
-- A service data record survives encoding and decoding.
use nav_control.Base.{
  length-replicate, replicate, ℕ, ◌+◌, ◌^◌, ◌<◌, ◌≡◌, refl, sym, ap, subst, ◌∙◌, List, [], ◌∷◌,
  ◌++◌, length, arith, append_assoc, if◌then◌else◌, Bool, true, false, ◌⊎◌, inl, inr, All, Option,
  none, some, append-nil,
}
use nav_control.Go.Result.{Result, ok, and_then}
use nav_control.Go.Words.{put_le}
use nav_control.Go.Text.{
  is_one, IsFlag, flag_digit, byte_of, parse_flags-digits_of, format8-byte_of,
}
use nav_control.Go.Float.{Float64, IsAccurate}
use nav_control.Egts.Fields.{
  drop-append, copy-append, written, opt, IsOpt, IsField, IsOpt-subst, read_opt-opt, le_uint-put_le,
}
use nav_control.Egts.Records
use nav_control.Egts.Records.RoundTrip
use nav_control.Egts.Records.RoundTrip.{IsValidRecord}
use nav_control.Egts.Service.{
  ServiceDataRecord, decode_record, encode_record, read_set, record_size, flag_bits, time_of,
  time_word, time_offset,
}

-- The flags are digits, each optional field is there or zero, a time is one that 32 bits of seconds
-- reach, the records are valid, and the length is that of their bytes.
pub record IsValidService (f : Float64) (r : ServiceDataRecord) : Type 0 where
  pub source : IsFlag r.source_service_on_device
  pub recipient : IsFlag r.recipient_service_on_device
  pub group : IsFlag r.group
  pub priority :
      (p : ℕ) × (q : ℕ) × (p < 2)
      × (q < 2)
      × (r.record_processing_priority ≡ (b'0' + p) ∷ (b'0' + q) ∷ [])
  pub object : IsField 4 r.object_id_field_exists r.object_identifier
  pub event : IsField 4 r.event_id_field_exists r.event_identifier
  pub time_flag : IsFlag r.time_field_exists
  pub time :
      ((is_one r.time_field_exists ≡ true)
        × ((t : ℕ) × (r.time ≡ some (t + time_offset)) × (t < 2 ^ 32)))
      ⊎ ((is_one r.time_field_exists ≡ false) × (r.time ≡ none))
  pub number : r.record_number < 2 ^ 16
  pub records : All (IsValidRecord f) r.record_data_set
  pub own_length :
      (bytes : List ℕ)
      → Records.encode f r.record_data_set ≡ ok bytes
      → (length bytes ≡ r.record_length) × (r.record_length < 2 ^ 16)

-- The seconds that the time field holds.
abbrev secs_of : Bool → Option ℕ → ℕ
secs_of there t = if there then time_word t else 0

IsTime : Bool → Option ℕ → Type 0
IsTime there time =
    ((there ≡ true) × ((t : ℕ) × (time ≡ some (t + time_offset)) × (t < 2 ^ 32)))
    ⊎ ((there ≡ false) × (time ≡ none))

opt_secs :
    (there : Bool) (time : Option ℕ)
    → opt there (put_le 4 (time_word time)) ≡ opt there (put_le 4 (secs_of there time))
unfolding opt
opt_secs true time = refl
opt_secs false time = refl

secs-IsOpt :
    (there : Bool) (time : Option ℕ) → IsTime there time → IsOpt 4 there (secs_of there time)
unfolding IsTime time_word
secs-IsOpt there time (inl (e, (t, et, h))) = rw (e, et) (inl (refl, omega (arith)))
secs-IsOpt there time (inr (e, et)) = rw e (inr (refl, refl))

time_of-secs :
    (there : Bool) (time : Option ℕ) → IsTime there time → time_of there (secs_of there time) ≡ time
unfolding IsTime time_of time_word
time_of-secs there time (inl (e, (t, et, h))) = rw (e, et) (ap some (omega arith))
time_of-secs there time (inr (e, et)) = rw (e, et)

module _ (f : Float64) (acc_90 : IsAccurate f f.degrees_90 90)
    (acc_180 : IsAccurate f f.degrees_180 180) (service : List ℕ → Result (Unit {0}))
    (empty : service [] ≡ ok tt) where
  read_set-append :
      (content rest : List ℕ) (size : ℕ) {rs : List Records.RecordData}
      → length content ≡ size
      → Records.decode f service content ≡ ok rs
      → read_set f service size (content ++ rest) ≡ ok (rs, rest)
  unfolding read_set
  read_set-append [] [] size e back =
      ap (λ r. and_then r (λ rs. ok (rs, []))) (sym (Records.RoundTrip.decode-nil f service) ∙ back)
  read_set-append [] (b ∷ rest) size e back = rw (
    copy-append (replicate size 0) [] (b ∷ rest) (length-replicate size 0 ∙ sym e),
    drop-append (replicate size 0) [] (b ∷ rest) (length-replicate size 0 ∙ sym e),
    back,
  )
  read_set-append (b ∷ bs) rest size e back = rw (
    copy-append (replicate size 0) (b ∷ bs) rest (length-replicate size 0 ∙ sym e),
    drop-append (replicate size 0) (b ∷ bs) rest (length-replicate size 0 ∙ sym e),
    back,
  )

  -- The bytes of a record, with the flags as digits.
  bytes_of : ServiceDataRecord → (t e o flags : ℕ) → List ℕ → List ℕ
  bytes_of r t e o flags tail =
      put_le 2 r.record_length
      ++ (put_le 2 r.record_number
          ++ (flags
              ∷ (opt (is_one ((b'0' + o) ∷ [])) (put_le 4 r.object_identifier)
                  ++ (opt (is_one ((b'0' + e) ∷ [])) (put_le 4 r.event_identifier)
                      ++ (opt (is_one ((b'0' + t) ∷ [])) (put_le 4 (time_word r.time))
                          ++ (r.source_service_type ∷ r.recipient_service_type ∷ tail))))))

  decode_fields :
      (r : ServiceDataRecord) (s c g p q t e o : ℕ) (content rest : List ℕ)
      → (s < 2) × (c < 2) × (g < 2) × (p < 2) × (q < 2) × (t < 2) × (e < 2) × (o < 2)
      → IsOpt 4 (is_one ((b'0' + o) ∷ [])) r.object_identifier
      → IsOpt 4 (is_one ((b'0' + e) ∷ [])) r.event_identifier
      → IsTime (is_one ((b'0' + t) ∷ [])) r.time
      → r.record_number < 2 ^ 16
      → Records.decode f service content ≡ ok r.record_data_set
      → length content ≡ r.record_length
      → r.record_length < 2 ^ 16
      → decode_record f service (bytes_of r t e o (byte_of s c g p q t e o) (content ++ rest))
        ≡ ok (
          record r {
            source_service_on_device = (b'0' + s) ∷ [];
            recipient_service_on_device = (b'0' + c) ∷ [];
            group = (b'0' + g) ∷ [];
            record_processing_priority = (b'0' + p) ∷ (b'0' + q) ∷ [];
            time_field_exists = (b'0' + t) ∷ [];
            event_id_field_exists = (b'0' + e) ∷ [];
            object_id_field_exists = (b'0' + o) ∷ [];
          },
          rest,
        )
  unfolding decode_record bytes_of
  decode_fields r s c g p q t e o content rest digits ho he ht hn back exact fits = rw (
    format8-byte_of s c g p q t e o digits,
    opt_secs (is_one ((b'0' + t) ∷ [])) r.time,
    read_opt-opt (is_one ((b'0' + o) ∷ [])) (replicate 4 0) 3 r.object_identifier _ refl ho,
    read_opt-opt (is_one ((b'0' + e) ∷ [])) (replicate 4 0) 3 r.event_identifier _ refl he,
    read_opt-opt (is_one ((b'0' + t) ∷ [])) (replicate 4 0) 3
        (secs_of (is_one ((b'0' + t) ∷ [])) r.time) _ refl
        (secs-IsOpt (is_one ((b'0' + t) ∷ [])) r.time ht),
    le_uint-put_le 2 r.record_length fits,
    le_uint-put_le 2 r.record_number hn,
    read_set-append content rest r.record_length exact back,
    time_of-secs (is_one ((b'0' + t) ∷ [])) r.time ht,
  )

  record_size-own :
      (size : ℕ) (content : List ℕ)
      → length content ≡ size
      → size < 2 ^ 16
      → record_size f size content ≡ size
  unfolding record_size
  record_size-own size content exact fits = ground arith

  -- The bytes that `encode_record` writes are those above.
  encode_record-bytes_of :
      (r : ServiceDataRecord) (s c g p q t e o : ℕ) (content : List ℕ)
      → (s < 2) × (c < 2) × (g < 2) × (p < 2) × (q < 2) × (t < 2) × (e < 2) × (o < 2)
      → Records.encode f r.record_data_set ≡ ok content
      → length content ≡ r.record_length
      → r.record_length < 2 ^ 16
      → let r' = record r {
        source_service_on_device = (b'0' + s) ∷ [];
        recipient_service_on_device = (b'0' + c) ∷ [];
        group = (b'0' + g) ∷ [];
        record_processing_priority = (b'0' + p) ∷ (b'0' + q) ∷ [];
        time_field_exists = (b'0' + t) ∷ [];
        event_id_field_exists = (b'0' + e) ∷ [];
        object_id_field_exists = (b'0' + o) ∷ [];
      } in
        (bytes : List ℕ) × (encode_record f r' ≡ ok bytes)
        × (0 < length bytes)
        × ((rest : List ℕ)
            → bytes ++ rest ≡ bytes_of r t e o (byte_of s c g p q t e o) (content ++ rest))
  unfolding encode_record flag_bits bytes_of
  encode_record-bytes_of r s c g p q t e o content digits enc exact fits = (
    written (
        put_le 2 r.record_length
        ∷ put_le 2 r.record_number
        ∷ (byte_of s c g p q t e o ∷ [])
        ∷ opt (is_one ((b'0' + o) ∷ [])) (put_le 4 r.object_identifier)
        ∷ opt (is_one ((b'0' + e) ∷ [])) (put_le 4 r.event_identifier)
        ∷ opt (is_one ((b'0' + t) ∷ [])) (put_le 4 (time_word r.time))
        ∷ (r.source_service_type ∷ [])
        ∷ (r.recipient_service_type ∷ [])
        ∷ content
        ∷ []),
    rw (
      enc,
      parse_flags-digits_of s c g p q t e o digits,
      record_size-own r.record_length content exact fits,
    ),
    omega arith,
    λ rest. simp (append_assoc, append-nil),
  )

  pub decode_record-encode_record :
      (r : ServiceDataRecord)
      → IsValidService f r
      → (bytes : List ℕ) × (encode_record f r ≡ ok bytes)
        × (0 < length bytes)
        × ((rest : List ℕ) → decode_record f service (bytes ++ rest) ≡ ok (r, rest))
  decode_record-encode_record r v =
      let (content, enc, back) =
        Records.RoundTrip.decode-encode-valid f acc_90 acc_180 service empty r.record_data_set
          v.records in
      let (exact, fits) = v.own_length content enc in
      let (s, ls, es) = flag_digit _ v.source in
      let (c, lc, ec) = flag_digit _ v.recipient in
      let (g, lg, eg) = flag_digit _ v.group in
      let (p, q, lp, lq, epq) = v.priority in
      let (t, lt, et) = flag_digit _ v.time_flag in
      let (e, le, ee) = flag_digit _ v.event.is_flag in
      let (o, lo, eo) = flag_digit _ v.object.is_flag in
      let digits : (s < 2) × (c < 2) × (g < 2) × (p < 2) × (q < 2) × (t < 2) × (e < 2) × (o < 2) =
        (ls, lc, lg, lp, lq, lt, le, lo) in
      subst
        (λ x.
          (bytes : List ℕ) × (encode_record f x ≡ ok bytes)
          × (0 < length bytes)
          × ((rest : List ℕ) → decode_record f service (bytes ++ rest) ≡ ok (x, rest)))
        (λ i. record r {
          source_service_on_device = sym es i;
          recipient_service_on_device = sym ec i;
          group = sym eg i;
          record_processing_priority = sym epq i;
          time_field_exists = sym et i;
          event_id_field_exists = sym ee i;
          object_id_field_exists = sym eo i;
        })
        (let (bytes, written_bytes, some_bytes, same) =
            encode_record-bytes_of r s c g p q t e o content digits enc exact fits in
          (
            bytes,
            written_bytes,
            some_bytes,
            λ rest. rw (same rest) (
                decode_fields r s c g p q t e o content rest digits
                  (IsOpt-subst 4 r.object_identifier eo v.object.is_opt)
                  (IsOpt-subst 4 r.event_identifier ee v.event.is_opt)
                  (subst (λ x. IsTime (is_one x) r.time) et (unfold IsTime in v.time)) v.number back
                  exact fits),
          ))
