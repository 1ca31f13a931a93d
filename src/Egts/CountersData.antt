-- ===== src/Egts/CountersData.antt =====
-- egts_sr_counters_data.go
use nav_control.Base.{
  ℕ, ◌+◌, ◌<◌, ◌≡◌, refl, sym, List, [], ◌∷◌, ◌++◌, if◌then◌else◌, replicate, subst,
}
use nav_control.Go.Result.{Result, ok, and_then}
use nav_control.Go.Reader.{Reader, ◌>>=◌, pure, read_byte, run}
use nav_control.Go.Words.{put_le}
use nav_control.Go.Text.{
  Text, is_one, slice, format8, parse_flags, flag_digit, byte_of, parse_flags-digits_of,
  format8-byte_of,
}
use nav_control.Egts.Fields.{
  written, opt, read_opt, IsOpt, IsField, IsOpt-subst, length-kept, read_opt-opt,
}

pub record SrCountersData : Type 0 where
  pub counter_field_exists1 : Text
  pub counter_field_exists2 : Text
  pub counter_field_exists3 : Text
  pub counter_field_exists4 : Text
  pub counter_field_exists5 : Text
  pub counter_field_exists6 : Text
  pub counter_field_exists7 : Text
  pub counter_field_exists8 : Text
  pub counter1 : ℕ
  pub counter2 : ℕ
  pub counter3 : ℕ
  pub counter4 : ℕ
  pub counter5 : ℕ
  pub counter6 : ℕ
  pub counter7 : ℕ
  pub counter8 : ℕ

-- Three bytes are read into the shared slice, and get a zero byte on top. The source stores the second
-- counter in `Counter1`, so `Counter2` keeps its zero value.
unfoldable pub decode : Reader SrCountersData
decode = do
  flags ← read_byte
  let bits = format8 flags
  let cfe1 = slice 7 8 bits
  let cfe2 = slice 6 7 bits
  let cfe3 = slice 5 6 bits
  let cfe4 = slice 4 5 bits
  let cfe5 = slice 3 4 bits
  let cfe6 = slice 2 3 bits
  let cfe7 = slice 1 2 bits
  let cfe8 = slice 0 1 bits
  (tmp₁, cn1) ← read_opt (is_one cfe1) (replicate 3 0)
  (tmp₂, cn2) ← read_opt (is_one cfe2) tmp₁
  (tmp₃, cn3) ← read_opt (is_one cfe3) tmp₂
  (tmp₄, cn4) ← read_opt (is_one cfe4) tmp₃
  (tmp₅, cn5) ← read_opt (is_one cfe5) tmp₄
  (tmp₆, cn6) ← read_opt (is_one cfe6) tmp₅
  (tmp₇, cn7) ← read_opt (is_one cfe7) tmp₆
  (tmp₈, cn8) ← read_opt (is_one cfe8) tmp₇
  pure (record {
    counter_field_exists1 = cfe1;
    counter_field_exists2 = cfe2;
    counter_field_exists3 = cfe3;
    counter_field_exists4 = cfe4;
    counter_field_exists5 = cfe5;
    counter_field_exists6 = cfe6;
    counter_field_exists7 = cfe7;
    counter_field_exists8 = cfe8;
    counter1 = if is_one cfe2 then cn2 else cn1;
    counter2 = 0;
    counter3 = cn3;
    counter4 = cn4;
    counter5 = cn5;
    counter6 = cn6;
    counter7 = cn7;
    counter8 = cn8;
  })

flag_bits : SrCountersData → Text
flag_bits e =
    e.counter_field_exists8
    ++ (e.counter_field_exists7
        ++ (e.counter_field_exists6
            ++ (e.counter_field_exists5
                ++ (e.counter_field_exists4
                    ++ (e.counter_field_exists3
                        ++ (e.counter_field_exists2 ++ (e.counter_field_exists1)))))))

-- `PutUint32` into four bytes, of which the three low ones are written.
unfoldable pub encode : SrCountersData → Result (List ℕ)
unfolding flag_bits
encode e = and_then (parse_flags (flag_bits e)) λ flags. ok (
    written (
      (flags ∷ [])
      ∷ opt (is_one e.counter_field_exists1) (put_le 3 e.counter1)
      ∷ opt (is_one e.counter_field_exists2) (put_le 3 e.counter2)
      ∷ opt (is_one e.counter_field_exists3) (put_le 3 e.counter3)
      ∷ opt (is_one e.counter_field_exists4) (put_le 3 e.counter4)
      ∷ opt (is_one e.counter_field_exists5) (put_le 3 e.counter5)
      ∷ opt (is_one e.counter_field_exists6) (put_le 3 e.counter6)
      ∷ opt (is_one e.counter_field_exists7) (put_le 3 e.counter7)
      ∷ opt (is_one e.counter_field_exists8) (put_le 3 e.counter8)
      ∷ []))

pub record IsValid (e : SrCountersData) : Type 0 where
  pub c1 : IsField 3 e.counter_field_exists1 e.counter1
  pub c2 : IsField 3 e.counter_field_exists2 e.counter2
  pub c3 : IsField 3 e.counter_field_exists3 e.counter3
  pub c4 : IsField 3 e.counter_field_exists4 e.counter4
  pub c5 : IsField 3 e.counter_field_exists5 e.counter5
  pub c6 : IsField 3 e.counter_field_exists6 e.counter6
  pub c7 : IsField 3 e.counter_field_exists7 e.counter7
  pub c8 : IsField 3 e.counter_field_exists8 e.counter8

-- What the decoder makes of a struct: counter 2 takes the place of counter 1.
pub second_as_first : SrCountersData → SrCountersData
second_as_first e = record e {
  counter1 = if is_one e.counter_field_exists2 then e.counter2 else e.counter1;
  counter2 = 0;
}

decode_fields :
    (d1 d2 d3 d4 d5 d6 d7 d8 v1 v2 v3 v4 v5 v6 v7 v8 : ℕ)
    → (d8 < 2) × (d7 < 2) × (d6 < 2) × (d5 < 2) × (d4 < 2) × (d3 < 2) × (d2 < 2) × (d1 < 2)
    → IsOpt 3 (is_one ((b'0' + d1) ∷ [])) v1
    → IsOpt 3 (is_one ((b'0' + d2) ∷ [])) v2
    → IsOpt 3 (is_one ((b'0' + d3) ∷ [])) v3
    → IsOpt 3 (is_one ((b'0' + d4) ∷ [])) v4
    → IsOpt 3 (is_one ((b'0' + d5) ∷ [])) v5
    → IsOpt 3 (is_one ((b'0' + d6) ∷ [])) v6
    → IsOpt 3 (is_one ((b'0' + d7) ∷ [])) v7
    → IsOpt 3 (is_one ((b'0' + d8) ∷ [])) v8
    → run decode (
        written (
          (byte_of d8 d7 d6 d5 d4 d3 d2 d1 ∷ [])
          ∷ opt (is_one ((b'0' + d1) ∷ [])) (put_le 3 v1)
          ∷ opt (is_one ((b'0' + d2) ∷ [])) (put_le 3 v2)
          ∷ opt (is_one ((b'0' + d3) ∷ [])) (put_le 3 v3)
          ∷ opt (is_one ((b'0' + d4) ∷ [])) (put_le 3 v4)
          ∷ opt (is_one ((b'0' + d5) ∷ [])) (put_le 3 v5)
          ∷ opt (is_one ((b'0' + d6) ∷ [])) (put_le 3 v6)
          ∷ opt (is_one ((b'0' + d7) ∷ [])) (put_le 3 v7)
          ∷ opt (is_one ((b'0' + d8) ∷ [])) (put_le 3 v8)
          ∷ []))
      ≡ ok (record {
        counter_field_exists1 = (b'0' + d1) ∷ [];
        counter_field_exists2 = (b'0' + d2) ∷ [];
        counter_field_exists3 = (b'0' + d3) ∷ [];
        counter_field_exists4 = (b'0' + d4) ∷ [];
        counter_field_exists5 = (b'0' + d5) ∷ [];
        counter_field_exists6 = (b'0' + d6) ∷ [];
        counter_field_exists7 = (b'0' + d7) ∷ [];
        counter_field_exists8 = (b'0' + d8) ∷ [];
        counter1 = if is_one ((b'0' + d2) ∷ []) then v2 else v1;
        counter2 = 0;
        counter3 = v3;
        counter4 = v4;
        counter5 = v5;
        counter6 = v6;
        counter7 = v7;
        counter8 = v8;
      })
unfolding decode
decode_fields d1 d2 d3 d4 d5 d6 d7 d8 v1 v2 v3 v4 v5 v6 v7 v8 l h1 h2 h3 h4 h5 h6 h7 h8 = rw (
  format8-byte_of d8 d7 d6 d5 d4 d3 d2 d1 l,
  read_opt-opt _ _ 2 v1 _ refl h1,
  read_opt-opt _ _ 2 v2 _ (length-kept _ _ 3 v1 refl) h2,
  read_opt-opt _ _ 2 v3 _ (length-kept _ _ 3 v2 (length-kept _ _ 3 v1 refl)) h3,
  read_opt-opt _ _ 2 v4 _ (length-kept _ _ 3 v3 (length-kept _ _ 3 v2 (length-kept _ _ 3 v1 refl)))
      h4,
  read_opt-opt _ _ 2 v5 _
      (length-kept _ _ 3 v4
        (length-kept _ _ 3 v3 (length-kept _ _ 3 v2 (length-kept _ _ 3 v1 refl))))
      h5,
  read_opt-opt _ _ 2 v6 _
      (length-kept _ _ 3 v5 (
        length-kept _ _ 3 v4
          (length-kept _ _ 3 v3 (length-kept _ _ 3 v2 (length-kept _ _ 3 v1 refl)))))
      h6,
  read_opt-opt _ _ 2 v7 _
      (length-kept _ _ 3 v6 (
        length-kept _ _ 3 v5 (
          length-kept _ _ 3 v4
            (length-kept _ _ 3 v3 (length-kept _ _ 3 v2 (length-kept _ _ 3 v1 refl))))))
      h7,
  read_opt-opt _ _ 2 v8 _
      (length-kept _ _ 3 v7 (
        length-kept _ _ 3 v6 (
          length-kept _ _ 3 v5 (
            length-kept _ _ 3 v4
              (length-kept _ _ 3 v3 (length-kept _ _ 3 v2 (length-kept _ _ 3 v1 refl)))))))
      h8,
)

-- Counters that are zero where their flag is not set, and fit three bytes where it is, come back
-- from encoding and decoding with counter 2, if it is there, in the place of counter 1, and zero as
-- counter 2.
pub decode-encode_counters :
    (e : SrCountersData) → IsValid e → and_then (encode e) (run decode) ≡ ok (second_as_first e)
unfolding encode second_as_first
decode-encode_counters e valid =
    let (d1, l1, e1) = flag_digit _ valid.c1.is_flag in
    let (d2, l2, e2) = flag_digit _ valid.c2.is_flag in
    let (d3, l3, e3) = flag_digit _ valid.c3.is_flag in
    let (d4, l4, e4) = flag_digit _ valid.c4.is_flag in
    let (d5, l5, e5) = flag_digit _ valid.c5.is_flag in
    let (d6, l6, e6) = flag_digit _ valid.c6.is_flag in
    let (d7, l7, e7) = flag_digit _ valid.c7.is_flag in
    let (d8, l8, e8) = flag_digit _ valid.c8.is_flag in
    subst (λ x. and_then (encode x) (run decode) ≡ ok (second_as_first x))
      (λ j. record e {
        counter_field_exists1 = sym e1 j;
        counter_field_exists2 = sym e2 j;
        counter_field_exists3 = sym e3 j;
        counter_field_exists4 = sym e4 j;
        counter_field_exists5 = sym e5 j;
        counter_field_exists6 = sym e6 j;
        counter_field_exists7 = sym e7 j;
        counter_field_exists8 = sym e8 j;
      })
      (rw (parse_flags-digits_of d8 d7 d6 d5 d4 d3 d2 d1 (l8, l7, l6, l5, l4, l3, l2, l1)) (
        decode_fields d1 d2 d3 d4 d5 d6 d7 d8 e.counter1 e.counter2 e.counter3 e.counter4 e.counter5
          e.counter6 e.counter7 e.counter8 (l8, l7, l6, l5, l4, l3, l2, l1)
          (IsOpt-subst 3 e.counter1 e1 valid.c1.is_opt)
          (IsOpt-subst 3 e.counter2 e2 valid.c2.is_opt)
          (IsOpt-subst 3 e.counter3 e3 valid.c3.is_opt)
          (IsOpt-subst 3 e.counter4 e4 valid.c4.is_opt)
          (IsOpt-subst 3 e.counter5 e5 valid.c5.is_opt)
          (IsOpt-subst 3 e.counter6 e6 valid.c6.is_opt)
          (IsOpt-subst 3 e.counter7 e7 valid.c7.is_opt)
          (IsOpt-subst 3 e.counter8 e8 valid.c8.is_opt)))
