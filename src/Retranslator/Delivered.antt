-- ===== src/Retranslator/Delivered.antt =====
-- client.go, received: what is sent is what the receiver decodes, and its answer is accepted.
use nav_control.Base.{
  ℕ, suc, ◌+◌, ◌*◌, ◌%◌, ◌^◌, ◌<◌, ◌≡◌, refl, sym, ap, subst, ◌∙◌, List, [], ◌∷◌, ◌++◌, length,
  none, some, true, ◌==◌, arith, All, eq→==, append-nil,
}
use nav_control.Go.Result.{ok}
use nav_control.Go.Words.{put_le}
use nav_control.Go.Float.{Float64, IsAccurate}
use nav_control.Egts.Fields.{opt}
use nav_control.Go.Text.{parse_flags}
use nav_control.Egts.Package
use nav_control.Egts.Package.{
  Package, services, done, egts_pt_appdata, encode_body, encode_frame, with_key, is_plain,
  header_size, header_of,
}
use nav_control.Egts.Crc.{crc8, crc16}
use nav_control.Egts.Package.Whole.{IsKept, encode-body}
use nav_control.Egts.Package.Kept.{decode-encode_package}
use nav_control.Egts.Lengths.{with_size}
use nav_control.Retranslator.Sender.{
  send_packet, SendPkg, service_record, packet_of, sent, next_id, received, await, heard,
}
use nav_control.Egts.Reply.{confirmations, create_pt_response}
use nav_control.Retranslator.Ack.{settled, process_existing_data, rounds}
use nav_control.Retranslator.Accepts.{process_existing_data-create_pt_response}
use nav_control.Retranslator.Packed.{IsValidSend, with_sizes, body_of, with_sizes-IsValid}

module _ (f : Float64) where
  -- If the float formulas are accurate and the record is valid, its packet is encoded without an
  -- error, and decoding the bytes, at any depth from 2 on and whatever the spare bytes, gives a
  -- packet of data with the counter as its 16-bit identifier and the one service record of the
  -- packet, its lengths filled in.
  pub decode-encode-packet_of :
      IsAccurate f f.degrees_90 90
      → IsAccurate f f.degrees_180 180
      → (depth id_rec : ℕ) (p : SendPkg) → IsValidSend p
      → (q : Package) × (bytes : List ℕ) × (Package.encode f none (packet_of id_rec p)
          ≡ ok (q, bytes))
        × ((spare : List ℕ)
            → (read_back : Package) × (Package.decode f none (suc (suc depth)) bytes spare
                ≡ done read_back)
              × (read_back.packet_type ≡ egts_pt_appdata)
              × (read_back.packet_identifier ≡ id_rec % 2 ^ 16)
              × (read_back.services_frame_data
                  ≡ some (services (with_size f (service_record id_rec p) ∷ []))))
  unfolding IsKept with_sizes parse_flags Package.flag_bits packet_of header_of header_size opt
  decode-encode-packet_of acc_90 acc_180 depth id_rec p v =
      let (body, plain, sealed, some_bytes, most) = body_of f id_rec p v in
      let (body', sealed', kept) =
        decode-encode_package f acc_90 acc_180 none depth (with_sizes f id_rec p) _
          (with_sizes-IsValid f id_rec p v) in
      let (bytes, sum, of_header, encoded, decoded) = kept in
      let small : length body < 2 ^ 16 = omega (arith, most) in
      let sent = encode-body f none 2 (packet_of id_rec p) 2 body refl plain some_bytes small in
      let filled =
        encode-body f none 2 (with_sizes f id_rec p) 2 body refl sealed some_bytes small in
      let header = header_of (packet_of id_rec p) 2 (length body) in
      let written_bytes = header ++ (crc8 header ∷ (body ++ put_le 2 (crc16 body))) in
      let same : bytes ≡ written_bytes = cc (encoded, filled) in
      (
        _,
        written_bytes,
        sent,
        λ spare. (
          _,
          ap (λ b. Package.decode f none (suc (suc depth)) b spare) (sym same) ∙ decoded spare,
          refl,
          refl,
          refl,
        ),
      )

-- A connection that gives an accepted answer at once.
await-answer :
    (f : Float64) (depth : ℕ) (spare : List ℕ) (pack_id : ℕ) (reply rest : List ℕ)
    → process_existing_data f depth spare pack_id reply ≡ settled true true rest
    → await f depth spare pack_id [] (reply ∷ []) ≡ sent true
unfolding await heard process_existing_data rounds
await-answer f depth spare pack_id [] rest e = absurd (ground (arith, e))
await-answer f depth spare pack_id (b ∷ bs) rest e =
    ap (heard (λ more. await f depth spare pack_id more [])) e

-- If the float formulas are accurate, the record is valid, the record numbers have 16 bits, and 6
-- bytes for each and 23 more are below 2^16, then the receiver makes an answer to the packet of the
-- record, and on a connection that gives this answer at once `received` succeeds with the answer
-- accepted, at any depth from 2 on and whatever the spare bytes, and the counter goes on.
pub received-answered :
    (f : Float64)
    → IsAccurate f f.degrees_90 90
    → IsAccurate f f.degrees_180 180
    → (depth id_rec result_code service_type : ℕ) (spare ns : List ℕ) (p : SendPkg) → IsValidSend p
    → All (λ n. n < 2 ^ 16) ns
    → 6 * length ns + 23 < 2 ^ 16
    → (reply : List ℕ) × (create_pt_response f
          (id_rec % 2 ^ 16)
          result_code
          service_type
          (confirmations ns)
        ≡ ok reply)
      × (received f (suc (suc depth)) spare (record { writes = true; chunks = reply ∷ [] }) p id_rec
          ≡ (sent true, next_id id_rec))
unfolding received send_packet next_id
received-answered f acc_90 acc_180 depth id_rec result_code service_type spare ns p v h small =
    let pid : id_rec % 2 ^ 16 < 2 ^ 16 = omega arith in
    let (reply, made, accepted) =
      process_existing_data-create_pt_response f (id_rec % 2 ^ 16) result_code service_type
        (id_rec % 2 ^ 16) depth spare ns acc_90 acc_180 pid pid h small in
    let (q, bytes, encoded, back) = decode-encode-packet_of f acc_90 acc_180 depth id_rec p v in
    let same : (id_rec % 2 ^ 16 == id_rec % 2 ^ 16) ≡ true = eq→== _ _ refl in
    let own : process_existing_data f (suc (suc depth)) spare (id_rec % 2 ^ 16) reply
        ≡ settled true true (reply ++ []) =
      subst
        (λ r.
          process_existing_data f (suc (suc depth)) spare (id_rec % 2 ^ 16) r
          ≡ settled true true (reply ++ []))
        (append-nil reply) (accepted [] ∙ rw same refl) in
    (
      reply,
      made,
      rw (encoded, await-answer f (suc (suc depth)) spare (id_rec % 2 ^ 16) reply _ own) refl,
    )
