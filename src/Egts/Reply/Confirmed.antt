-- ===== src/Egts/Reply/Confirmed.antt =====
-- The answer to a packet is read back by whoever sent the packet.
use nav_control.Base.{
  ℕ, suc, ◌+◌, ◌*◌, ◌%◌, ◌^◌, ◌<◌, ◌≤◌, ◌≡◌, refl, sym, ap, ◌∙◌, List, [], ◌∷◌, ◌++◌, length, none,
  some, inl, inr, arith, All, length-append,
}
use nav_control.Go.Result.{Result, ok, err, panic, stuck}
use nav_control.Go.Words.{put_le}
use nav_control.Go.Text.{parse_flags}
use nav_control.Go.Float.{Float64, IsAccurate}
use nav_control.Egts.Fields.{opt}
use nav_control.Egts.Data.{encode_data, implied_type}
use nav_control.Egts.Response
use nav_control.Egts.Records
use nav_control.Egts.Records.{RecordData}
use nav_control.Egts.Records.RoundTrip.{IsValidRecord}
use nav_control.Egts.Service
use nav_control.Egts.Reply.{
  confirmations, confirming_record, confirming_set, response_section, response_package,
  create_pt_response,
}
use nav_control.Egts.Service.OneRecord.{IsValidService}
use nav_control.Egts.PtResponse
use nav_control.Egts.Package
use nav_control.Egts.Package.{
  Package, SecretKey, answer, done, egts_pt_response, encode_body, encode_frame, header_size,
  with_key, is_plain,
}
use nav_control.Egts.Package.RoundTrip.{IsRoute, kind_of_frame}
use nav_control.Egts.Package.Frame.{IsValidFrame, IsValidAnswer, IsOpened}
use nav_control.Egts.Package.Whole.{IsKept}
use nav_control.Egts.Package.Kept.{IsValidPackage, decode-encode_package}

abbrev pub ok_length : Result (List ℕ) → ℕ
ok_length (ok bytes) = length bytes
ok_length (err e) = 0
ok_length panic = 0
ok_length stuck = 0

confirmations-length :
    (f : Float64) (ns : List ℕ)
    → (bytes : List ℕ) × (Records.encode f (confirmations ns) ≡ ok bytes)
      × (length bytes ≡ 6 * length ns)
unfolding confirmations Records.encode Records.encode_record Records.record_type
    Records.record_length encode_data implied_type Response.encode
confirmations-length f [] = ([], refl, refl)
confirmations-length f (n ∷ ns) =
    let (bytes, encoded, size) = confirmations-length f ns in
    (0 ∷ (put_le 2 3 ++ (put_le 2 n ++ (0 ∷ bytes))), rw encoded refl, omega (arith, size))

confirmations-IsValid :
    (f : Float64) (ns : List ℕ)
    → All (λ n. n < 2 ^ 16) ns
    → All (IsValidRecord f) (confirmations ns)
unfolding confirmations encode_data Response.encode
confirmations-IsValid f [] h = tt
confirmations-IsValid f (n ∷ ns) (h, hs) = (
  record {
    data_valid = h;
    own_type = refl;
    own_length = λ bytes e. (sym (ap ok_length e), omega arith);
  },
  confirmations-IsValid f ns hs,
)

module _ (f : Float64) (pid result_code service_type : ℕ) where
  confirming_record-IsValid :
      (ns : List ℕ)
      → All (λ n. n < 2 ^ 16) ns
      → 6 * length ns < 2 ^ 16
      → IsValidService f (confirming_record f service_type (confirmations ns))
  unfolding confirming_record
  confirming_record-IsValid ns h small =
      let (content, encoded, size) = confirmations-length f ns in
      record {
        source = inl refl;
        recipient = inl refl;
        group = inr refl;
        priority = (0, 0, omega arith, omega arith, refl);
        object = record { is_flag = inl refl; is_opt = inr (refl, refl) };
        event = record { is_flag = inl refl; is_opt = inr (refl, refl) };
        time_flag = inl refl;
        time = inr (refl, refl);
        number = omega arith;
        records = confirmations-IsValid f ns h;
        own_length = λ bytes e.
            let same : length bytes ≡ length content = ap ok_length (sym e ∙ encoded) in
            rw encoded (omega (arith, same, size, small), omega (arith, size, small));
      }

  confirming_record-length :
      (rs : List RecordData) (content : List ℕ)
      → Records.encode f rs ≡ ok content
      → (bytes : List ℕ) × (Service.encode f (confirming_record f service_type rs ∷ []) ≡ ok bytes)
        × (length bytes ≡ 7 + length content)
  unfolding confirming_record Service.encode Service.encode_record Service.flag_bits parse_flags opt
  confirming_record-length rs content encoded =
      rw encoded
        (_, refl, omega (arith, length-append content [], length-append (content ++ []) []))

  pub response_section-length :
      (ns : List ℕ)
      → (bytes : List ℕ) × (PtResponse.encode f
            (response_section f pid result_code service_type (confirmations ns))
          ≡ ok bytes)
        × (0 < length bytes)
        × (length bytes ≤ 10 + 6 * length ns)
  unfolding response_section confirming_set PtResponse.encode PtResponse.encode_sdr
  response_section-length [] = unfold confirmations in (_, refl, omega arith, omega arith)
  response_section-length (n ∷ ns) =
      let (content, encoded, size) = confirmations-length f (n ∷ ns) in
      let (bytes, written, whole) =
        confirming_record-length (confirmations (n ∷ ns)) content encoded in
      unfold confirmations in
      (
        put_le 2 pid ++ (result_code ∷ bytes),
        rw written refl,
        omega arith,
        omega (arith, whole, size),
      )

  confirming_set-IsValid :
      (ns : List ℕ)
      → All (λ n. n < 2 ^ 16) ns
      → 6 * length ns < 2 ^ 16
      → IsValidAnswer f (confirming_set f service_type (confirmations ns))
  unfolding IsValidAnswer confirming_set confirmations
  confirming_set-IsValid [] h small = tt
  confirming_set-IsValid (n ∷ ns) h small =
      ((confirming_record-IsValid (n ∷ ns) h small, tt), λ e. cc)

  response_package-IsValid :
      (ns : List ℕ)
      → pid < 2 ^ 16
      → All (λ n. n < 2 ^ 16) ns
      → 6 * length ns + 21 < 2 ^ 16
      → IsValidPackage f none
          (response_package f pid result_code service_type (confirmations ns))
          (answer (response_section f pid result_code service_type (confirmations ns)))
  unfolding response_package header_size
  response_package-IsValid ns hp h small =
      let (bytes, written, some_bytes, most) = response_section-length ns in
      record {
        prefix = (0, 0, omega arith, omega arith, refl);
        route = inl refl;
        algorithm = (0, 0, omega arith, omega arith, refl);
        compression = inl refl;
        priority = (0, 0, omega arith, omega arith, refl);
        size = inr refl;
        way = unfold IsRoute in inr (refl, refl, refl, refl);
        identifier = omega arith;
        has_data = refl;
        kind = unfold kind_of_frame in refl;
        frame =
            unfold IsValidFrame response_section in
            (hp, confirming_set-IsValid ns h (omega (arith, small)));
        opened = unfold IsOpened is_plain in inl refl;
        fits = λ body e.
            let sealed : encode_body f none (b'0' ∷ b'0' ∷ []) (
                  some
                    (answer (response_section f pid result_code service_type (confirmations ns))))
                ≡ ok bytes =
              unfold encode_body encode_frame with_key is_plain in rw written refl in
            let same : length body ≡ length bytes = ap ok_length (sym e ∙ sealed) in
            (omega (arith, same, some_bytes), omega (arith, same, most, small));
      }

  -- If the float formulas are accurate, the identifier and the record numbers have 16 bits, and 6
  -- bytes for each number and 21 more are below 2^16, then `create_pt_response` succeeds, and
  -- decoding its bytes, at any depth from 2 on and whatever the spare bytes, gives a packet of the
  -- type of answers, with the next identifier (0 after 65535), that answers that identifier with the
  -- result code and confirms the records of these numbers.
  pub decode-create_pt_response :
      IsAccurate f f.degrees_90 90
      → IsAccurate f f.degrees_180 180
      → (depth : ℕ) (ns : List ℕ) → pid < 2 ^ 16
      → All (λ n. n < 2 ^ 16) ns
      → 6 * length ns + 21 < 2 ^ 16
      → (bytes : List ℕ) × (create_pt_response f pid result_code service_type (confirmations ns)
          ≡ ok bytes)
        × ((spare : List ℕ)
            → (read_back : Package) × (Package.decode f none (suc (suc depth)) bytes spare
                ≡ done read_back)
              × (read_back.packet_type ≡ egts_pt_response)
              × (read_back.packet_identifier ≡ (pid + 1) % 2 ^ 16)
              × (read_back.services_frame_data
                  ≡ some (
                      answer (response_section f pid result_code service_type (confirmations ns)))))
  unfolding create_pt_response response_package IsKept
  decode-create_pt_response acc_90 acc_180 depth ns hp h small =
      let (body, sealed, kept) =
        decode-encode_package f acc_90 acc_180 none depth
          (response_package f pid result_code service_type (confirmations ns))
          (answer (response_section f pid result_code service_type (confirmations ns)))
          (response_package-IsValid ns hp h small) in
      let (bytes, sum, of_header, encoded, decoded) = kept in
      (bytes, rw encoded refl, λ spare. (_, decoded spare, refl, refl, refl))
