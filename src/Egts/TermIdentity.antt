-- ===== src/Egts/TermIdentity.antt =====
-- egts_sr_term_identity.go
use nav_control.Base.{
  ℕ, ◌+◌, ◌%◌, ◌^◌, ◌<◌, ◌≡◌, refl, sym, List, [], ◌∷◌, ◌++◌, arith, replicate, subst,
}
use nav_control.Go.Result.{ok}
use nav_control.Go.Reader.{Reader, ◌>>=◌, pure, read_byte, read, run}
use nav_control.Go.Words.{le_uint, put_le}
use nav_control.Go.Text.{
  Text, is_one, slice, format8, parse_uint, flag_digit, byte_of, parse_uint-digits_of,
  format8-byte_of, IsFlag,
}
use nav_control.Egts.Fields.{
  written, opt, read_opt, IsField, IsOpt-subst, read_opt-opt, read_opt_bytes, IsBytesField,
  IsOptBytes-subst, read_opt_bytes-opt, le_uint-put_le,
}

pub record SrTermIdentity : Type 0 where
  pub terminal_identifier : ℕ
  pub mne : Text
  pub bse : Text
  pub nide : Text
  pub ssra : Text
  pub lngce : Text
  pub imsie : Text
  pub imeie : Text
  pub hdide : Text
  pub home_dispatcher_identifier : ℕ
  pub imei : Text
  pub imsi : Text
  pub language_code : Text
  pub network_identifier : List ℕ
  pub buffer_size : ℕ
  pub mobile_number : Text

unfoldable pub decode : Reader SrTermIdentity
decode = do
  identifier ← read (replicate 4 0)
  flags ← read_byte
  let bits = format8 flags
  let mne = slice 0 1 bits
  let bse = slice 1 2 bits
  let nide = slice 2 3 bits
  let ssra = slice 3 4 bits
  let lngce = slice 4 5 bits
  let imsie = slice 5 6 bits
  let imeie = slice 6 7 bits
  let hdide = slice 7 8 bits
  (tmp₁, dispatcher) ← read_opt (is_one hdide) (replicate 2 0)
  imei ← read_opt_bytes (is_one imeie) 15
  imsi ← read_opt_bytes (is_one imsie) 16
  language ← read_opt_bytes (is_one lngce) 3
  network ← read_opt_bytes (is_one nide) 3
  (tmp₂, size) ← read_opt (is_one bse) (replicate 2 0)
  number ← read_opt_bytes (is_one mne) 15
  pure (record {
    terminal_identifier = le_uint identifier;
    mne = mne;
    bse = bse;
    nide = nide;
    ssra = ssra;
    lngce = lngce;
    imsie = imsie;
    imeie = imeie;
    hdide = hdide;
    home_dispatcher_identifier = dispatcher;
    imei = imei;
    imsi = imsi;
    language_code = language;
    network_identifier = network;
    buffer_size = size;
    mobile_number = number;
  })

pub flag_bits : SrTermIdentity → Text
flag_bits t =
    t.mne ++ (t.bse ++ (t.nide ++ (t.ssra ++ (t.lngce ++ (t.imsie ++ (t.imeie ++ t.hdide))))))

-- The error of ParseUint is overwritten by that of the next write, so the value goes out in any case.
unfoldable pub encode : SrTermIdentity → List ℕ
unfolding flag_bits
encode t = written (
    put_le 4 t.terminal_identifier
    ∷ ((parse_uint (flag_bits t)).0 % 256 ∷ [])
    ∷ opt (is_one t.hdide) (put_le 2 t.home_dispatcher_identifier)
    ∷ opt (is_one t.imeie) t.imei
    ∷ opt (is_one t.imsie) t.imsi
    ∷ opt (is_one t.lngce) t.language_code
    ∷ opt (is_one t.nide) t.network_identifier
    ∷ opt (is_one t.bse) (put_le 2 t.buffer_size)
    ∷ opt (is_one t.mne) t.mobile_number
    ∷ [])

pub record IsValid (t : SrTermIdentity) : Type 0 where
  pub identifier : t.terminal_identifier < 2 ^ 32
  pub dispatcher : IsField 2 t.hdide t.home_dispatcher_identifier
  pub imei : IsBytesField 15 t.imeie t.imei
  pub imsi : IsBytesField 16 t.imsie t.imsi
  pub language : IsBytesField 3 t.lngce t.language_code
  pub network : IsBytesField 3 t.nide t.network_identifier
  pub size : IsField 2 t.bse t.buffer_size
  pub number : IsBytesField 15 t.mne t.mobile_number
  pub ssra : IsFlag t.ssra

decode_fields :
    (t : SrTermIdentity) (m b n s l i e h : ℕ)
    → (m < 2) × (b < 2) × (n < 2) × (s < 2) × (l < 2) × (i < 2) × (e < 2) × (h < 2)
    → IsValid t
    → t.mne ≡ (b'0' + m) ∷ []
    → t.bse ≡ (b'0' + b) ∷ []
    → t.nide ≡ (b'0' + n) ∷ []
    → t.ssra ≡ (b'0' + s) ∷ []
    → t.lngce ≡ (b'0' + l) ∷ []
    → t.imsie ≡ (b'0' + i) ∷ []
    → t.imeie ≡ (b'0' + e) ∷ []
    → t.hdide ≡ (b'0' + h) ∷ []
    → run decode (encode t) ≡ ok t
unfolding decode encode
decode_fields t m b n s l i e h digits valid em eb en es el ei ee eh =
    subst (λ x. run decode (encode x) ≡ ok x)
      (λ j. record t {
        mne = sym em j;
        bse = sym eb j;
        nide = sym en j;
        ssra = sym es j;
        lngce = sym el j;
        imsie = sym ei j;
        imeie = sym ee j;
        hdide = sym eh j;
      })
      (rw (
        parse_uint-digits_of m b n s l i e h digits,
        byte_lt m b n s l i e h digits,
        format8-byte_of m b n s l i e h digits,
        read_opt-opt _ _ 1 t.home_dispatcher_identifier _ refl
            (IsOpt-subst 2 t.home_dispatcher_identifier eh valid.dispatcher.is_opt),
        read_opt_bytes-opt _ 14 t.imei _ (IsOptBytes-subst 15 t.imei ee valid.imei.is_opt),
        read_opt_bytes-opt _ 15 t.imsi _ (IsOptBytes-subst 16 t.imsi ei valid.imsi.is_opt),
        read_opt_bytes-opt _ 2 t.language_code _
            (IsOptBytes-subst 3 t.language_code el valid.language.is_opt),
        read_opt_bytes-opt _ 2 t.network_identifier _
            (IsOptBytes-subst 3 t.network_identifier en valid.network.is_opt),
        read_opt-opt _ _ 1 t.buffer_size _ refl (IsOpt-subst 2 t.buffer_size eb valid.size.is_opt),
        read_opt_bytes-opt _ 14 t.mobile_number _
            (IsOptBytes-subst 15 t.mobile_number em valid.number.is_opt),
        le_uint-put_le 4 t.terminal_identifier valid.identifier,
      ))
  where
    byte_lt :
        (m b n s l i e h : ℕ)
        → (m < 2) × (b < 2) × (n < 2) × (s < 2) × (l < 2) × (i < 2) × (e < 2) × (h < 2)
        → byte_of m b n s l i e h % 256 ≡ byte_of m b n s l i e h
    byte_lt m b n s l i e h digits = omega arith

pub decode-encode_term_identity : (t : SrTermIdentity) → IsValid t → run decode (encode t) ≡ ok t
decode-encode_term_identity t valid =
    let (m, lm, em) = flag_digit _ valid.number.is_flag in
    let (b, lb, eb) = flag_digit _ valid.size.is_flag in
    let (n, ln, en) = flag_digit _ valid.network.is_flag in
    let (s, ls, es) = flag_digit _ valid.ssra in
    let (l, ll, el) = flag_digit _ valid.language.is_flag in
    let (i, li, ei) = flag_digit _ valid.imsi.is_flag in
    let (e, le, ee) = flag_digit _ valid.imei.is_flag in
    let (h, lh, eh) = flag_digit _ valid.dispatcher.is_flag in
    decode_fields t m b n s l i e h (lm, lb, ln, ls, ll, li, le, lh) valid em eb en es el ei ee eh
