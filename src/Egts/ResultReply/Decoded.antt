-- ===== src/Egts/ResultReply/Decoded.antt =====
-- The answer of createSrResultCode is always made, and read back as what it says.
use nav_control.Base.{
  ℕ, suc, ◌+◌, ◌%◌, ◌^◌, ◌≡◌, refl, sym, ap, ◌∙◌, List, [], ◌∷◌, length, none, some, inl, inr,
  arith,
}
use nav_control.Go.Result.{ok}
use nav_control.Go.Text.{parse_flags}
use nav_control.Go.Float.{Float64, IsAccurate}
use nav_control.Egts.Fields.{opt}
use nav_control.Egts.Data.{encode_data}
use nav_control.Egts.ResultCode
use nav_control.Egts.Records
use nav_control.Egts.Records.{RecordData}
use nav_control.Egts.Service
use nav_control.Egts.Service.{ServiceDataRecord}
use nav_control.Egts.Service.OneRecord.{IsValidService}
use nav_control.Egts.Reply.Confirmed.{ok_length}
use nav_control.Egts.ResultReply.{
  result_records, result_service, result_package, create_sr_result_code,
}
use nav_control.Egts.Package
use nav_control.Egts.Package.{
  Package, services, done, egts_pt_appdata, encode_body, encode_frame, header_size, with_key,
  is_plain,
}
use nav_control.Egts.Package.RoundTrip.{IsRoute, kind_of_frame}
use nav_control.Egts.Package.Frame.{IsValidFrame, IsOpened}
use nav_control.Egts.Package.Whole.{IsKept}
use nav_control.Egts.Package.Kept.{IsValidPackage, decode-encode_package}

module _ (f : Float64) (pid code : ℕ) where
  encode-result_service :
      (body : List ℕ) × (Service.encode f (result_service f code ∷ []) ≡ ok body)
      × (length body ≡ 11)
  unfolding result_service result_records Service.encode Service.encode_record Service.flag_bits
      Records.encode Records.encode_record Records.record_type Records.record_length encode_data
      ResultCode.encode parse_flags opt
  encode-result_service = (_, refl, refl)

  encode_body-result :
      (body : List ℕ) × (encode_body f none
          (b'0' ∷ b'0' ∷ [])
          (some (services (result_service f code ∷ [])))
        ≡ ok body)
      × (length body ≡ 11)
  unfolding encode_body encode_frame with_key is_plain
  encode_body-result =
      let (body, encoded, size) = encode-result_service in (body, rw encoded refl, size)

  result_service-IsValid : IsValidService f (result_service f code)
  unfolding result_service result_records encode_data ResultCode.encode Records.encode
      Records.encode_record Records.record_type Records.record_length
  result_service-IsValid = record {
    source = inl refl;
    recipient = inl refl;
    group = inr refl;
    priority = (0, 0, omega arith, omega arith, refl);
    object = record { is_flag = inl refl; is_opt = inr (refl, refl) };
    event = record { is_flag = inl refl; is_opt = inr (refl, refl) };
    time_flag = inl refl;
    time = inr (refl, refl);
    number = omega arith;
    records = (
      record {
        data_valid = tt;
        own_type = refl;
        own_length = λ bytes e. (sym (ap ok_length e), omega arith);
      },
      tt,
    );
    own_length = λ bytes e. (sym (ap ok_length e), omega arith);
  }

  result_package-IsValid :
      IsValidPackage f none (result_package f pid code) (services (result_service f code ∷ []))
  unfolding result_package header_size
  result_package-IsValid =
      let (bytes, written, size) = encode_body-result in
      record {
        prefix = (0, 0, omega arith, omega arith, refl);
        route = inl refl;
        algorithm = (0, 0, omega arith, omega arith, refl);
        compression = inl refl;
        priority = (0, 0, omega arith, omega arith, refl);
        size = inr refl;
        way = unfold IsRoute in inr (refl, refl, refl, refl);
        identifier = omega arith;
        has_data = refl;
        kind = unfold kind_of_frame in refl;
        frame = unfold IsValidFrame in (result_service-IsValid, tt);
        opened = unfold IsOpened is_plain in inl refl;
        fits = λ body e.
            let same : length body ≡ length bytes = ap ok_length (sym e ∙ written) in
            (omega (arith, same, size), omega (arith, same, size));
      }

  -- If the float formulas are accurate, the packet with the result code is encoded without an error,
  -- and decoding its bytes, at any depth from 2 on and whatever the spare bytes, gives a packet of
  -- data with the next 16-bit identifier and the one service record with the result code.
  pub decode-create_sr_result_code :
      IsAccurate f f.degrees_90 90
      → IsAccurate f f.degrees_180 180
      → (depth : ℕ)
      → (bytes : List ℕ) × (create_sr_result_code f pid code ≡ ok bytes)
        × ((spare : List ℕ)
            → (read_back : Package) × (Package.decode f none (suc (suc depth)) bytes spare
                ≡ done read_back)
              × (read_back.packet_type ≡ egts_pt_appdata)
              × (read_back.packet_identifier ≡ (pid + 1) % 2 ^ 16)
              × (read_back.services_frame_data ≡ some (services (result_service f code ∷ []))))
  unfolding create_sr_result_code result_package IsKept
  decode-create_sr_result_code acc_90 acc_180 depth =
      let (body, sealed, kept) =
        decode-encode_package f acc_90 acc_180 none depth (result_package f pid code)
          (services (result_service f code ∷ [])) result_package-IsValid in
      let (bytes, sum, of_header, encoded, decoded) = kept in
      (bytes, rw encoded refl, λ spare. (_, decoded spare, refl, refl, refl))
