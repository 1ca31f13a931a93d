-- ===== src/Arnavi/Tests.antt =====
-- Runs of the Arnavi protocol, with a float32 that reads its bytes as a number.
use nav_control.Base.{ℕ, ◌%◌, ◌^◌, ◌≡◌, ◌≢◌, refl, List, [], ◌∷◌, ◌++◌, none, some, true, arith}
use nav_control.Go.Result.{ok}
use nav_control.Go.Words.{le_uint, put_le}
use nav_control.Arnavi.Crc.{
  crc_sum, signed_start, signed_end, sig_pack_start, sig_pack_end, confirmation_header_type,
  pack_tags_type,
}
use nav_control.Arnavi.Answer.{decode_res, answer_header, answer_packed, decode-answers}
use nav_control.Arnavi.Tags.{Float32, TagsData, decode_tags, decode_tags-succeeds}
use nav_control.Arnavi.Session.{
  ClientArnavi, wrote, published, Outside, ready, endless, nav_record, process_existing_data,
}
use nav_control.Arnavi.Framing.{go_on, process_existing_data-append, process_existing_data-ends}
use nav_control.Arnavi.Parcel.{packet_bytes, process_existing_data-parcel}

abbrev raw : Float32
raw = record {
  Carrier = ℕ;
  zero_speed = 0;
  coordinate = λ bytes. le_uint bytes % 2 ^ 32;
  bytes_of = put_le 4;
  speed_of = λ b. b;
  byte_of_speed = λ s. s % 256;
}

decode-answers_example :
    (decode_res (answer_header 1700000000) []
      ≡ ok (record {
        start_sign = signed_start;
        size = 4;
        code_com = confirmation_header_type;
        check_sum = crc_sum (put_le 4 (1700000000 % 2 ^ 32));
        time = some (1700000000 % 2 ^ 32);
        end_sign = signed_end;
      }))
    × (decode_res (answer_packed 32) []
        ≡ ok (record {
          start_sign = signed_start;
          size = 0;
          code_com = 32 % 256;
          check_sum = 0;
          time = none;
          end_sign = signed_end;
        }))
decode-answers_example = decode-answers 1700000000 32 []

abbrev tags_sample : List ℕ
tags_sample = 5 ∷ 45 ∷ 12 ∷ 9 ∷ 30 ∷ 71 ∷ 1 ∷ 2 ∷ 0 ∷ 0 ∷ []

decode_tags-succeeds_example : (r : TagsData raw) × (decode_tags raw tags_sample ≡ ok r)
decode_tags-succeeds_example = decode_tags-succeeds raw tags_sample

abbrev machine : Outside
machine = record { now = 1700000000; writes = true; publishes = true }

abbrev terminal : ClientArnavi
terminal = record { authorization = true; id = 0; imei_id = 863071 }

process_existing_data-append_example :
    process_existing_data raw machine terminal ((0x5B ∷ []) ++ (7 ∷ 1 ∷ 10 ∷ []))
    ≡ go_on raw machine (process_existing_data raw machine terminal (0x5B ∷ [])) (7 ∷ 1 ∷ 10 ∷ [])
process_existing_data-append_example =
    process_existing_data-append raw machine terminal (0x5B ∷ []) (7 ∷ 1 ∷ 10 ∷ []) refl

process_existing_data-ends_example :
    process_existing_data raw machine terminal (0x5B ∷ 7 ∷ 1 ∷ []) ≢ endless
process_existing_data-ends_example =
    process_existing_data-ends raw machine terminal (0x5B ∷ 7 ∷ 1 ∷ [])

process_existing_data-parcel_example :
    (tags : TagsData raw) × (decode_tags raw tags_sample ≡ ok tags)
    × (process_existing_data raw machine terminal (
          sig_pack_start
          ∷ 32
          ∷ (packet_bytes 0 241 83 101 10 0 77 tags_sample ++ (sig_pack_end ∷ [])))
        ≡ ready terminal [] (
            published (
              nav_record raw 1700000000
                (record terminal { id = 32 })
                (record {
                  type_content = pack_tags_type;
                  length_packet = le_uint (10 ∷ 0 ∷ []);
                  time_packet = le_uint (0 ∷ 241 ∷ 83 ∷ 101 ∷ []);
                  tags = tags;
                  check_sum = 77;
                }))
            ∷ wrote (answer_packed 32)
            ∷ []))
process_existing_data-parcel_example =
    process_existing_data-parcel raw machine terminal 32 0 241 83 101 10 0 77 tags_sample refl refl
      refl refl (omega arith) (omega arith) refl
