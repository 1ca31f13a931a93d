-- ===== src/Arnavi/Answer.antt =====
-- arn_response.go, arn_confirmation_header.go and arn_answer_com.go: what the server sends back.
use nav_control.Base.{
  ℕ, ◌+◌, ◌%◌, ◌^◌, ◌≡◌, refl, List, [], ◌∷◌, ◌++◌, replicate, drop, Option, none, some,
  if◌then◌else◌, ltb, ◌==◌, eq→==, arith,
}
use nav_control.Go.Result.{Result, ok, err, and_then, unknown_type, body_sum}
use nav_control.Go.Reader.{read_byte, read}
use nav_control.Go.Words.{le_uint, put_le}
use nav_control.Egts.Fields.{le_uint-put_le}
use nav_control.Egts.Package.{reslice}
use nav_control.Egts.Package.RoundTrip.{reslice-parts}
use nav_control.Arnavi.Crc.{
  crc_sum, answer_start, signed_start, signed_end, sig_pack_start, sig_pack_end,
  confirmation_header_type,
}

-- `ConfirmationHeader.Decode` and `ConfirmationHeader.Encode`, of the one field `TimeAnswer`
unfoldable pub decode_time : List ℕ → Result ℕ
decode_time content = and_then (read (replicate 4 0) content) λ tmp. ok (le_uint tmp.0)

unfoldable pub encode_time : ℕ → List ℕ
encode_time time = put_le 4 time

-- `Data` is the time of a confirmation, or nil.
pub record ResCom : Type 0 where
  pub start_sign : ℕ
  pub size : ℕ
  pub code_com : ℕ
  pub check_sum : ℕ
  pub time : Option ℕ
  pub end_sign : ℕ

-- The end of `ResCom.Decode`, from the label EndCom on.
unfoldable pub decode_end : ResCom → List ℕ → Result ResCom
decode_end r s =
    and_then (read_byte s)
      λ end. if end.0 == signed_end then ok (record r { end_sign = end.0 }) else err unknown_type

-- `ResCom.Decode` on a slice with spare bytes behind it, which the slices of the content reach into. The
-- sum of AnswerStart and Size is one byte.
unfoldable pub decode_res : (rec spare : List ℕ) → Result ResCom
decode_res rec spare = and_then (read_byte rec) λ start.
    if start.0 == signed_start
    then (and_then (read_byte start.1) λ size. and_then (read_byte size.1) λ code.
        let r : ResCom = record {
          start_sign = start.0;
          size = size.0;
          code_com = code.0;
          check_sum = 0;
          time = none;
          end_sign = 0;
        } in
        if ltb 0 size.0
        then (and_then (read_byte code.1) λ sum.
            and_then (reslice rec spare answer_start ((answer_start + size.0) % 256)) λ body.
              if sum.0 == crc_sum body
              then (if code.0 == confirmation_header_type
                  then (and_then (decode_time body) λ time.
                      decode_end (record r { check_sum = sum.0; time = some time })
                        (drop size.0 sum.1))
                  else err unknown_type)
              else err body_sum)
        else decode_end r code.1)
    else err unknown_type

-- `ResCom.Encode`: the signature at the start is always the same.
unfoldable pub encode_res : ResCom → List ℕ
encode_res r = with_data r.time
  where
    with_data : Option ℕ → List ℕ
    with_data none = signed_start ∷ 0 ∷ r.code_com ∷ r.end_sign ∷ []
    with_data (some time) =
        signed_start
        ∷ 4
        ∷ confirmation_header_type
        ∷ crc_sum (encode_time time)
        ∷ (encode_time time ++ (r.end_sign ∷ []))

-- `AnswerHeader`, at a time, and `AnswerPacked`
unfoldable pub answer_header : (now : ℕ) → List ℕ
answer_header now = encode_res (record {
  start_sign = signed_start;
  size = 0;
  code_com = 0;
  check_sum = 0;
  time = some (now % 2 ^ 32);
  end_sign = signed_end;
})

unfoldable pub answer_packed : (id_packed : ℕ) → List ℕ
answer_packed id_packed = encode_res (record {
  start_sign = signed_start;
  size = 0;
  code_com = id_packed % 256;
  check_sum = 0;
  time = none;
  end_sign = signed_end;
})

pub record AnswerCom : Type 0 where
  pub start_sign : ℕ
  pub id_packed : ℕ
  pub code_error : ℕ
  pub end_sign : ℕ

-- `AnswerCom.Decode`
unfoldable pub decode_com : List ℕ → Result AnswerCom
decode_com s = and_then (read_byte s) λ start.
    if start.0 == sig_pack_start
    then (and_then (read_byte start.1) λ id. and_then (read_byte id.1) λ code.
        and_then (read_byte code.1) λ end.
          if end.0 == sig_pack_end
          then ok (record {
            start_sign = start.0;
            id_packed = id.0;
            code_error = code.0;
            end_sign = end.0;
          })
          else err unknown_type)
    else err unknown_type

-- `AnswerCom.Encode` and `EncodeAnswerCom`
unfoldable pub encode_com : AnswerCom → List ℕ
encode_com a = a.start_sign ∷ a.id_packed ∷ a.code_error ∷ a.end_sign ∷ []

unfoldable pub encode_answer_com : (id_packed code_error : ℕ) → List ℕ
encode_answer_com id_packed code_error = encode_com (record {
  start_sign = sig_pack_start;
  id_packed = id_packed % 256;
  code_error = code_error % 256;
  end_sign = sig_pack_end;
})

pub decode-encode_answer_com :
    (id_packed code_error : ℕ)
    → decode_com (encode_answer_com id_packed code_error)
      ≡ ok (record {
        start_sign = sig_pack_start;
        id_packed = id_packed % 256;
        code_error = code_error % 256;
        end_sign = sig_pack_end;
      })
unfolding decode_com encode_answer_com encode_com
decode-encode_answer_com id_packed code_error = refl

-- The answer to a header, at any time, is decoded as a confirmation with that time in 32 bits and
-- the checksum of its bytes, and the answer to a parcel as one without data and with its number as a
-- byte, whatever the spare bytes.
pub decode-answers :
    (now id_packed : ℕ) (spare : List ℕ)
    → (decode_res (answer_header now) spare
        ≡ ok (record {
          start_sign = signed_start;
          size = 4;
          code_com = confirmation_header_type;
          check_sum = crc_sum (put_le 4 (now % 2 ^ 32));
          time = some (now % 2 ^ 32);
          end_sign = signed_end;
        }))
      × (decode_res (answer_packed id_packed) spare
          ≡ ok (record {
            start_sign = signed_start;
            size = 0;
            code_com = id_packed % 256;
            check_sum = 0;
            time = none;
            end_sign = signed_end;
          }))
unfolding decode_res answer_header answer_packed encode_res encode_time decode_time decode_end
decode-answers now id_packed spare =
    let time = now % 2 ^ 32 in
    let sum = crc_sum (put_le 4 time) in
    let content =
      signed_start ∷ 4 ∷ confirmation_header_type ∷ sum ∷ (put_le 4 time ++ (signed_end ∷ [])) in
    let body : reslice content spare answer_start 8 ≡ ok (put_le 4 time) =
      reslice-parts (signed_start ∷ 4 ∷ confirmation_header_type ∷ sum ∷ []) (put_le 4 time)
        (signed_end ∷ spare) content spare answer_start 8 refl refl refl in
    (rw (body, eq→== sum sum refl, le_uint-put_le 4 time (omega arith)) refl, refl)
