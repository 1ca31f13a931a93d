-- ===== src/Egts/PassengersCounters.antt =====
-- egts_sr_passengers_counters.go
use nav_control.Base.{
  ap₂, ℕ, zero, suc, ◌+◌, ◌-◌, ◌^◌, ◌<◌, ◌≡◌, ◌≢◌, refl, sym, ap, ◌⊎◌, inl, inr, List, [], ◌∷◌,
  ◌++◌, length, if◌then◌else◌, Bool, true, false, arith, append-nil, replicate, subst, ◌==◌,
}
use nav_control.Go.Result.{Result, ok, err, and_then, no_door}
use nav_control.Go.Reader.{Reader, ◌>>=◌, continue, pure, read_byte, read, run}
use nav_control.Go.Words.{le_uint, put_le}
use nav_control.Go.Text.{
  last-format8-zero, last-format8-one, parse_flags-zero_text, parse_flags-one_text, text_eq, Text,
  slice, format8, parse_flags, parse_flags-format8, zero_text, one_text,
}
use nav_control.Egts.Fields.{drop-replicate, copy-replicate, written, le_uint-put_le}

pub record PassengersCounter : Type 0 where
  pub door_no : ℕ
  pub inside : ℕ
  pub outside : ℕ

pub record SrPassengersCountersData : Type 0 where
  pub raw_data_flag : Text
  pub doors_presented : Text
  pub doors_released : Text
  pub module_address : ℕ
  pub passengers_counters_data : List PassengersCounter
  pub passengers_counters_raw_data : List ℕ

-- `e.DoorsPresented[8-i:9-i] == "0"`
unfoldable pub is_absent : Text → ℕ → Bool
is_absent presented i = text_eq (slice (8 - i) (9 - i) presented) zero_text

pub read_counter : ℕ → Reader PassengersCounter
read_counter door = do
  inside ← read_byte
  outside ← read_byte
  pure (record { door_no = door; inside = inside; outside = outside })

-- `for i := 1; i < 9; i++`, with the rounds that are left; the doors that are absent are passed over.
read_doors : ℕ → ℕ → Text → Reader (List PassengersCounter)
unfolding read_counter
read_doors zero i presented = pure []
read_doors (suc n) i presented =
    let others = read_doors n (i + 1) presented in
    if is_absent presented i
    then others
    else (do counter ← read_counter i; counters ← others; pure (counter ∷ counters))

-- `pcdRawBuf := make([]byte, buf.Len()); buf.Read(pcdRawBuf)`, which fails if nothing is left.
read_raw : Reader (List ℕ)
read_raw s = read (replicate (length s) 0) s

unfoldable pub read_counters : Text → Text → Reader (List PassengersCounter × List ℕ)
unfolding read_doors read_raw
read_counters raw presented =
    if text_eq raw zero_text
    then (do counters ← read_doors 8 1 presented; pure (counters, []))
    else (do bytes ← read_raw; pure ([], bytes))

unfoldable pub decode : Reader SrPassengersCountersData
decode = do
  flags ← read_byte
  let raw = slice 7 8 (format8 flags)
  presented_byte ← read_byte
  let presented = format8 presented_byte
  released_byte ← read_byte
  let released = format8 released_byte
  address ← read (replicate 2 0)
  (counters, bytes) ← read_counters raw presented
  pure (record {
    raw_data_flag = raw;
    doors_presented = presented;
    doors_released = released;
    module_address = le_uint address;
    passengers_counters_data = counters;
    passengers_counters_raw_data = bytes;
  })

encode_counter : PassengersCounter → Result (List ℕ)
encode_counter c = if c.door_no == 0 then err no_door else ok (c.inside ∷ c.outside ∷ [])

encode_counters : List PassengersCounter → Result (List ℕ)
unfolding encode_counter
encode_counters [] = ok []
encode_counters (c ∷ cs) =
    and_then (encode_counter c) λ bytes. and_then (encode_counters cs) λ more. ok (bytes ++ more)

encode_data : SrPassengersCountersData → Result (List ℕ)
unfolding encode_counters
encode_data e =
    if text_eq e.raw_data_flag zero_text
    then encode_counters e.passengers_counters_data
    else ok e.passengers_counters_raw_data

unfoldable pub encode : SrPassengersCountersData → Result (List ℕ)
unfolding encode_data
encode e = and_then (parse_flags e.raw_data_flag) λ flags.
    and_then (parse_flags e.doors_presented) λ presented.
      and_then (parse_flags e.doors_released) λ released.
        and_then (encode_data e)
          λ bytes. ok (flags ∷ presented ∷ released ∷ (put_le 2 e.module_address ++ bytes))

-- The counters stand for the doors that are present, in order, from door i on.
abbrev AreListed : ℕ → ℕ → Text → List PassengersCounter → Type 0
AreListed zero i presented cs = cs ≡ []
AreListed (suc n) i presented [] = (is_absent presented i ≡ true) × AreListed n (i + 1) presented []
AreListed (suc n) i presented (c ∷ cs) =
    ((is_absent presented i ≡ true) × AreListed n (i + 1) presented (c ∷ cs))
    ⊎ ((is_absent presented i ≡ false) × (c.door_no ≡ i) × AreListed n (i + 1) presented cs)

read_doors-encode_counters :
    (n i : ℕ) (presented : Text) (cs : List PassengersCounter) (rest : List ℕ)
    → 0 < i
    → AreListed n i presented cs
    → (bytes : List ℕ) × (encode_counters cs ≡ ok bytes)
      × (read_doors n i presented (bytes ++ rest) ≡ ok (cs, rest))
unfolding read_doors encode_counters
read_doors-encode_counters zero i presented cs rest h e =
    subst
      (λ x.
        (bytes : List ℕ) × (encode_counters x ≡ ok bytes)
        × (read_doors zero i presented (bytes ++ rest) ≡ ok (x, rest)))
      (sym e) ([], refl, refl)
read_doors-encode_counters (suc n) i presented [] rest h (absent, more) =
    let (bytes, e, r) = read_doors-encode_counters n (i + 1) presented [] rest (omega arith) more in
    (bytes, e, rw absent r)
read_doors-encode_counters (suc n) i presented (c ∷ cs) rest h (inl (absent, more)) =
    let (bytes, e, r) =
      read_doors-encode_counters n (i + 1) presented (c ∷ cs) rest (omega arith) more in
    (bytes, e, rw absent r)
read_doors-encode_counters (suc n) i presented (c ∷ cs) rest h (inr (present, door, more)) =
    let (bytes, e, r) = read_doors-encode_counters n (i + 1) presented cs rest (omega arith) more in
    (
      c.inside ∷ c.outside ∷ bytes,
      ground (arith, e),
      rw (present, r) (ap (λ d. ok (record c { door_no = d } ∷ cs, rest)) (sym door)),
    )

-- Eight digits, as they are made from a byte.
abbrev IsByteText : Text → Type 0
IsByteText t = (b : ℕ) × (b < 256) × (t ≡ format8 b)

-- Either the counters are listed by door, or the data are raw and not empty.
pub record IsValid (e : SrPassengersCountersData) : Type 0 where
  pub presented : IsByteText e.doors_presented
  pub released : IsByteText e.doors_released
  pub address : e.module_address < 2 ^ 16
  pub body :
      ((e.raw_data_flag ≡ zero_text)
        × AreListed 8 1 e.doors_presented e.passengers_counters_data
        × (e.passengers_counters_raw_data ≡ []))
      ⊎ ((e.raw_data_flag ≡ one_text)
          × (e.passengers_counters_data ≡ [])
          × (e.passengers_counters_raw_data ≢ []))

read_counters-listed :
    (presented : Text) (s : List ℕ) {cs : List PassengersCounter}
    → read_doors 8 1 presented s ≡ ok (cs, [])
    → read_counters zero_text presented s ≡ ok ((cs, []), [])
unfolding read_counters
read_counters-listed presented s h = ap (λ r. continue r (λ counters. pure (counters, []))) h

read_counters-raw :
    (presented : Text) (bytes : List ℕ)
    → bytes ≢ []
    → read_counters one_text presented bytes ≡ ok (([], bytes), [])
unfolding read_counters
read_counters-raw presented [] h = absurd (h refl)
read_counters-raw presented (b ∷ bs) h =
    ap₂ (λ c d. ok (([], b ∷ c), d)) (copy-replicate bs) (drop-replicate bs)

listed-encode :
    (e : SrPassengersCountersData) (p q : ℕ)
    → p < 256
    → q < 256
    → e.module_address < 2 ^ 16
    → AreListed 8 1 (format8 p) e.passengers_counters_data
    → let listed = record e {
      raw_data_flag = zero_text;
      doors_presented = format8 p;
      doors_released = format8 q;
      passengers_counters_raw_data = [];
    } in
      and_then (encode listed) (run decode) ≡ ok listed
unfolding encode decode
listed-encode e p q hp hq ha listed =
    let (bytes, written, read_back) =
      read_doors-encode_counters 8 1 (format8 p) e.passengers_counters_data [] (omega arith)
        listed in
    let counters : read_counters zero_text (format8 p) bytes
        ≡ ok ((e.passengers_counters_data, []), []) =
      rw (sym (append-nil bytes)) (read_counters-listed _ _ read_back) in
    rw (
      parse_flags-format8 p hp,
      parse_flags-format8 q hq,
      written,
      parse_flags-zero_text,
      last-format8-zero,
      counters,
      le_uint-put_le 2 e.module_address ha,
    )

raw-encode :
    (e : SrPassengersCountersData) (p q : ℕ)
    → p < 256
    → q < 256
    → e.module_address < 2 ^ 16
    → e.passengers_counters_raw_data ≢ []
    → let raw = record e {
      raw_data_flag = one_text;
      doors_presented = format8 p;
      doors_released = format8 q;
      passengers_counters_data = [];
    } in
      and_then (encode raw) (run decode) ≡ ok raw
unfolding encode decode
raw-encode e p q hp hq ha some_data = rw (
  parse_flags-format8 p hp,
  parse_flags-format8 q hq,
  parse_flags-one_text,
  last-format8-one,
  le_uint-put_le 2 e.module_address ha,
  read_counters-raw (format8 p) e.passengers_counters_raw_data some_data,
)

-- Valid passenger counters, listed by the doors that the door bits name or raw and not empty, are
-- the same after encoding and decoding.
pub decode-encode_passengers :
    (e : SrPassengersCountersData) → IsValid e → and_then (encode e) (run decode) ≡ ok e
decode-encode_passengers e valid =
    let (p, hp, ep) = valid.presented in
    let (q, hq, eq) = valid.released in
    elim valid.body [
      | inl (flag, listed, nothing) ↦
          subst (λ x. and_then (encode x) (run decode) ≡ ok x)
            (λ i. record e {
              raw_data_flag = sym flag i;
              doors_presented = sym ep i;
              doors_released = sym eq i;
              passengers_counters_raw_data = sym nothing i;
            })
            (listed-encode e p q hp hq valid.address
              (subst (λ t. AreListed 8 1 t e.passengers_counters_data) ep listed))
      | inr (flag, nothing, some_data) ↦
          subst (λ x. and_then (encode x) (run decode) ≡ ok x)
            (λ i. record e {
              raw_data_flag = sym flag i;
              doors_presented = sym ep i;
              doors_released = sym eq i;
              passengers_counters_data = sym nothing i;
            })
            (raw-encode e p q hp hq valid.address some_data)
    ]
