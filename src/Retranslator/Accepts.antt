-- ===== src/Retranslator/Accepts.antt =====
-- client.go, processExistingData, on the answer that hangle.go makes to a packet.
use nav_control.Base.{
  ℕ, suc, ◌+◌, ◌*◌, ◌%◌, ◌^◌, ◌≤◌, ◌<◌, ◌≡◌, refl, ap, subst, ◌∙◌, List, [], ◌∷◌, ◌++◌, length,
  none, some, false, ltb, ◌==◌, arith, All, length-append, take-length-append, drop-length-append,
  ge→ltb,
}
use nav_control.Go.Result.{ok}
use nav_control.Go.Words.{le_uint, put_le}
use nav_control.Go.Text.{parse_flags}
use nav_control.Go.Float.{Float64, IsAccurate}
use nav_control.Egts.Fields.{opt}
use nav_control.Egts.Crc.{crc8, crc16}
use nav_control.Egts.Records.{RecordData}
use nav_control.Egts.Package
use nav_control.Egts.Package.{
  Package, FrameData, answer, Outcome, done, egts_pt_response, header_of, flag_bits, header_size,
  encode_body, encode_frame, with_key, is_plain,
}
use nav_control.Egts.Package.Whole.{encode-body}
use nav_control.Egts.Reply.{confirmations, response_section, response_package, create_pt_response}
use nav_control.Egts.Reply.Confirmed.{response_section-length, decode-create_pt_response}
use nav_control.Retranslator.Ack.{
  Search, settled, headerlen, body_len, pkg_len, compare_id, after_decode, rounds,
  process_existing_data,
}

module _ (f : Float64) (pid result_code service_type : ℕ) where
  -- The bytes of an answer: eleven of the header, the body and its checksum.
  pub create_pt_response-layout :
      (ns : List ℕ)
      → 6 * length ns + 21 < 2 ^ 16
      → (body : List ℕ) × (flags : ℕ) × (tail : List ℕ) × (create_pt_response f pid result_code
            service_type
            (confirmations ns)
          ≡ ok (1 ∷ 0 ∷ flags ∷ 11 ∷ 0 ∷ (put_le 2 (length body) ++ tail)))
        × (length tail ≡ 6 + length body)
        × (0 < length body)
        × (length body ≤ 10 + 6 * length ns)
  unfolding create_pt_response response_package header_of header_size flag_bits parse_flags opt
  create_pt_response-layout ns small =
      let (body, written, some_bytes, most) =
        response_section-length f pid result_code service_type ns in
      let p = response_package f pid result_code service_type (confirmations ns) in
      let sealed : encode_body f none (b'0' ∷ b'0' ∷ [])
            (some (answer (response_section f pid result_code service_type (confirmations ns))))
          ≡ ok body =
        unfold encode_body encode_frame with_key is_plain in rw written refl in
      let encoded =
        encode-body f none 2 p 0 body refl sealed some_bytes (omega (arith, most, small)) in
      let header = header_of p 0 (length body) in
      let tail =
        put_le 2 p.packet_identifier
        ++ (egts_pt_response ∷ crc8 header ∷ (body ++ put_le 2 (crc16 body))) in
      (
        body,
        0,
        tail,
        rw encoded refl,
        omega (arith, length-append body (put_le 2 (crc16 body))),
        some_bytes,
        most,
      )

-- The length of a packet is read off its header.
pkg_len-header :
    (flags : ℕ) (size : ℕ) (tail later : List ℕ)
    → 0 < size
    → size + 13 < 2 ^ 16
    → pkg_len (1 ∷ 0 ∷ flags ∷ 11 ∷ 0 ∷ (put_le 2 size ++ (tail ++ later))) ≡ size + 13
unfolding pkg_len body_len
pkg_len-header flags size tail later some_bytes small =
    let own : le_uint (put_le 2 size) ≡ size = omega arith in ground (arith, own, some_bytes, small)

module _ (f : Float64) (depth : ℕ) (spare : List ℕ) (pack_id : ℕ) where
  -- A packet at the front of the buffer is decoded by itself.
  process-packet :
      (flags size : ℕ) (tail later : List ℕ)
      → 0 < size
      → size + 13 < 2 ^ 16
      → length tail ≡ 6 + size
      → let packet = 1 ∷ 0 ∷ flags ∷ 11 ∷ 0 ∷ (put_le 2 size ++ tail) in
        process_existing_data f depth spare pack_id (packet ++ later)
        ≡ after_decode pack_id
            (packet ++ later)
            later
            (rounds f depth spare pack_id (length (packet ++ later)) later)
            (Package.decode f none depth packet (later ++ spare))
  unfolding process_existing_data rounds
  process-packet flags size tail later some_bytes small exact =
      let packet = 1 ∷ 0 ∷ flags ∷ 11 ∷ 0 ∷ (put_le 2 size ++ tail) in
      let len : pkg_len (packet ++ later) ≡ length packet =
        pkg_len-header flags size tail later some_bytes small ∙ omega (arith, exact) in
      let enough : ltb (length (packet ++ later)) headerlen ≡ false =
        ge→ltb _ _ (omega (arith, length-append tail later, exact)) in
      let whole : ltb (length (packet ++ later)) (length packet) ≡ false =
        ge→ltb _ _ (omega (arith, length-append tail later)) in
      rw (len, take-length-append packet later, drop-length-append packet later, enough, whole) refl

-- What the decoder makes of an answer.
after_decode-answer :
    (f : Float64) (pid result_code service_type pack_id : ℕ) (rs : List RecordData)
    (content rest : List ℕ) (more : Search) (p : Package)
    → pack_id < 2 ^ 16
    → p.packet_type ≡ egts_pt_response
    → p.services_frame_data ≡ some (answer (response_section f pid result_code service_type rs))
    → after_decode pack_id content rest more (done p)
      ≡ settled (pid == pack_id) (pid == pack_id) content
unfolding after_decode compare_id response_section
after_decode-answer f pid result_code service_type pack_id rs content rest more p small kind
      has_data =
    let own : pack_id % 2 ^ 16 ≡ pack_id = omega (arith, small) in
    rw (kind, has_data, own) (ground arith)

module _ (f : Float64) (pid result_code service_type pack_id : ℕ) where
  -- If the float formulas are accurate, both identifiers and the record numbers have 16 bits, and 6
  -- bytes for each record number and 23 more are below 2^16, then the receiver makes an answer, and
  -- the search in its bytes and whatever follows them, at any depth from 2 on, ends at this answer:
  -- accepted if the identifiers are the same, otherwise refused with more to wait for, and in both
  -- cases with all bytes left in the buffer.
  pub process_existing_data-create_pt_response :
      (depth : ℕ) (spare ns : List ℕ)
      → IsAccurate f f.degrees_90 90
      → IsAccurate f f.degrees_180 180
      → pid < 2 ^ 16
      → pack_id < 2 ^ 16
      → All (λ n. n < 2 ^ 16) ns
      → 6 * length ns + 23 < 2 ^ 16
      → (bytes : List ℕ) × (create_pt_response f pid result_code service_type (confirmations ns)
          ≡ ok bytes)
        × ((later : List ℕ)
            → process_existing_data f (suc (suc depth)) spare pack_id (bytes ++ later)
              ≡ settled (pid == pack_id) (pid == pack_id) (bytes ++ later))
  process_existing_data-create_pt_response depth spare ns acc_90 acc_180 hp hk h small =
      let (body, flags, tail, laid, exact, some_bytes, most) =
        create_pt_response-layout f pid result_code service_type ns (omega (arith, small)) in
      let packet = 1 ∷ 0 ∷ flags ∷ 11 ∷ 0 ∷ (put_le 2 (length body) ++ tail) in
      let (bytes, encoded, decoded) =
        decode-create_pt_response f pid result_code service_type acc_90 acc_180 depth ns hp h
          (omega (arith, small)) in
      let same : bytes ≡ packet = cc (encoded, laid) in
      (
        packet,
        laid,
        λ later.
            let (p, back, kind, number, has_data) = decoded (later ++ spare) in
            process-packet f (suc (suc depth)) spare pack_id flags (length body) tail later
              some_bytes (omega (arith, most, small)) exact
            ∙ ap (after_decode pack_id (packet ++ later) later _) (
                subst (λ b. Package.decode f none (suc (suc depth)) b (later ++ spare) ≡ done p)
                  same back)
            ∙ after_decode-answer f pid result_code service_type pack_id (confirmations ns)
                (packet ++ later) later _ p hk kind has_data,
      )
