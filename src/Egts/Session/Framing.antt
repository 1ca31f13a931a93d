-- ===== src/Egts/Session/Framing.antt =====
-- process_connection: packets are taken from the bytes one after the other, and the loop ends.
use nav_control.Base.{
  ℕ, zero, suc, ◌+◌, ◌-◌, ◌^◌, ◌≤◌, ◌<◌, ◌≡◌, ◌≢◌, refl, sym, subst, ◌∙◌, List, [], ◌∷◌, ◌++◌,
  length, take, drop, false, if◌then◌else◌, ltb, ◌==◌, get_or, arith, Bool-cases, inl, inr,
  if-false, take-length-append, drop-length-append, length-append, ge→ltb, ◌⊎◌,
}
use nav_control.Go.Float.{Float64}
use nav_control.Go.Words.{le_uint, put_le}
use nav_control.Egts.Fields.{opt}
use nav_control.Go.Text.{is_one}
use nav_control.Egts.Crc.{crc16}
use nav_control.Egts.Package.{Package, header_size, header_of}
use nav_control.Egts.Package.Whole.{header_size-length}
use nav_control.Egts.Session.{
  Event, Outside, Session, Arrival, whole, none_left, tail_length, read_tail, read_packet, Turn,
  goes_on, closes, panics, too_deep, Connection, closed, broken, deeper, endless, add_events,
  and_receive, with_arrival, receive, process_connection,
}

length-drop : (k : ℕ) (xs : List ℕ) → length (drop k xs) ≡ length xs - k
length-drop zero xs = omega arith
length-drop (suc k) [] = omega arith
length-drop (suc k) (x ∷ xs) = omega (arith, length-drop k xs)

-- A packet takes ten bytes at least.
unfoldable pub IsShorter : ℕ → Arrival → Type 0
IsShorter size (whole packet rest) = 10 + length rest ≤ size
IsShorter size none_left = Unit {0}

read_tail-IsShorter : (header rest : List ℕ) → IsShorter (10 + length rest) (read_tail header rest)
unfolding read_tail IsShorter
read_tail-IsShorter header rest = elim (Bool-cases (ltb (length rest) (tail_length header))) [
  | inl short ↦ rw (read_tail, short) tt
  | inr enough ↦ rw (read_tail, enough) (omega (arith, length-drop (tail_length header) rest))
]

pub read_packet-IsShorter : (stream : List ℕ) → IsShorter (length stream) (read_packet stream)
unfolding read_packet
read_packet-IsShorter stream = elim (Bool-cases (ltb (length stream) 10)) [
  | inl short ↦ rw (read_packet, short) (unfold IsShorter in tt)
  | inr enough ↦ elim (Bool-cases (get_or stream 0 0 == 1)) [
    | inl egts ↦
        rw (read_packet, enough, egts)
          (subst (λ k. IsShorter k (read_tail (take 10 stream) (drop 10 stream)))
            (ground (arith, enough, length-drop 10 stream))
            (read_tail-IsShorter (take 10 stream) (drop 10 stream)))
    | inr other ↦ rw (read_packet, enough, other) (unfold IsShorter in tt)
  ]
]

add_events-ends : (es : List Event) (c : Connection) → c ≢ endless → add_events es c ≢ endless
unfolding add_events
add_events-ends es (closed s after) h e = cc
add_events-ends es broken h e = cc
add_events-ends es deeper h e = cc
add_events-ends es endless h e = h refl

and_receive-ends :
    (more : Session → Connection) (t : Turn)
    → ((s : Session) → more s ≢ endless)
    → and_receive more t ≢ endless
unfolding and_receive
and_receive-ends more (goes_on s events) h = add_events-ends events (more s) (h s)
and_receive-ends more (closes s events) h = λ e. cc
and_receive-ends more panics h = λ e. cc
and_receive-ends more too_deep h = λ e. cc

module _ (f : Float64) (depth : ℕ) (spare : ℕ → List ℕ) (outside : ℕ → Outside) where
  with_arrival-ends :
      (n : ℕ) (more : Session → List ℕ → Connection) (s : Session) (size : ℕ) (a : Arrival)
      → IsShorter size a
      → ((t : Session) (rest : List ℕ) → 10 + length rest ≤ size → more t rest ≢ endless)
      → with_arrival f depth spare outside n more s a ≢ endless
  unfolding with_arrival IsShorter
  with_arrival-ends n more s size none_left short h = λ e. cc
  with_arrival-ends n more s size (whole packet rest) short h =
      and_receive-ends (λ t. more t rest) _ (λ t. h t rest short)

  receive-ends :
      (fuel n : ℕ) (s : Session) (stream : List ℕ)
      → length stream < fuel
      → receive f depth spare outside fuel n s stream ≢ endless
  unfolding receive
  receive-ends zero n s stream h = absurd (omega arith)
  receive-ends (suc fuel) n s stream h =
      with_arrival-ends n (λ t rest. receive f depth spare outside fuel (n + 1) t rest) s
        (length stream) (read_packet stream) (read_packet-IsShorter stream)
        λ t rest short. receive-ends fuel (n + 1) t rest (omega (arith, h, short))

  -- The loop over the bytes of a connection never runs out of fuel, whatever the bytes, the depth
  -- and what happens outside.
  pub process_connection-ends :
      (s : Session) (stream : List ℕ) → process_connection f depth spare outside s stream ≢ endless
  unfolding process_connection
  process_connection-ends s stream = receive-ends (suc (length stream)) 0 s stream (omega arith)

read_tail-whole :
    (header tail rest : List ℕ)
    → tail_length header ≡ length tail
    → read_tail header (tail ++ rest) ≡ whole (header ++ tail) rest
unfolding read_tail
read_tail-whole header tail rest all =
    let enough : ltb (length (tail ++ rest)) (length tail) ≡ false =
      ge→ltb _ _ (omega (arith, length-append tail rest)) in
    rw (read_tail, all, enough, take-length-append tail rest, drop-length-append tail rest) refl

-- The first ten bytes of a header.
abbrev ten : (key flags hl encoding size id kind : ℕ) → List ℕ
ten key flags hl encoding size id kind =
    1 ∷ key ∷ flags ∷ hl ∷ encoding ∷ (put_le 2 size ++ (put_le 2 id ++ (kind ∷ [])))

module _ (key flags hl encoding size id kind : ℕ) (some_bytes : 0 < size) (least : 10 ≤ hl)
    (most : hl + size + 2 < 2 ^ 16) where
  tail_length-ten : tail_length (ten key flags hl encoding size id kind) ≡ hl + size + 2 - 10
  unfolding tail_length
  tail_length-ten =
      let own : le_uint (put_le 2 size) ≡ size = omega (arith, most) in
      let some : (size == 0) ≡ false = ground (arith, some_bytes) in
      rw (tail_length, own, if-false _ _ some) (omega (arith, most, least))

  read_packet-whole :
      (tail rest : List ℕ)
      → length tail ≡ hl + size + 2 - 10
      → read_packet (ten key flags hl encoding size id kind ++ (tail ++ rest))
        ≡ whole (ten key flags hl encoding size id kind ++ tail) rest
  unfolding read_packet read_tail
  read_packet-whole tail rest same =
      let there : ltb (10 + length (tail ++ rest)) 10 ≡ false = ge→ltb _ _ (omega arith) in
      let ten_there : ltb (length (ten key flags hl encoding size id kind ++ (tail ++ rest))) 10
          ≡ false =
        ge→ltb _ _ (omega arith) in
      if-false _ _ ten_there
      ∙ read_tail-whole (ten key flags hl encoding size id kind) tail rest
          (tail_length-ten ∙ sym same)

-- The bytes that `encode` writes are taken as one packet: 13 bytes and the body, and 5 more on a route, are
-- not more than 16 bits can say.
pub read_packet-header_of :
    (p : Package) (flags sum : ℕ) (body rest : List ℕ)
    → p.protocol_version ≡ 1
    → (p.header_length ≡ 0) ⊎ (p.header_length ≡ (if is_one p.route then 16 else 11))
    → 0 < length body
    → header_size p + length body + 2 < 2 ^ 16
    → let bytes = header_of p flags (length body) ++ (sum ∷ (body ++ put_le 2 (crc16 body))) in
      read_packet (bytes ++ rest) ≡ whole bytes rest
unfolding header_of
read_packet-header_of p flags sum body rest first size some_bytes most =
    let (after, before) = header_size-length p flags (length body) size in
    let route =
      opt (is_one p.route)
        (put_le 2 p.peer_address ++ (put_le 2 p.recipient_address ++ (p.time_to_live ∷ []))) in
    let tail = route ++ (sum ∷ (body ++ put_le 2 (crc16 body))) in
    let measured : length tail ≡ header_size p + length body + 2 - 10 = omega (
      arith,
      after,
      length-append route (sum ∷ (body ++ put_le 2 (crc16 body))),
      length-append body (put_le 2 (crc16 body)),
    ) in
    let least : 10 ≤ header_size p = omega (arith, after) in
    let id = put_le 2 (length body) ++ (put_le 2 p.packet_identifier ++ (p.packet_type ∷ tail)) in
    subst
      (λ (v : ℕ).
        read_packet
          (v ∷ p.security_key_id ∷ flags ∷ header_size p ∷ p.header_encoding ∷ (id ++ rest))
        ≡ whole (v ∷ p.security_key_id ∷ flags ∷ header_size p ∷ p.header_encoding ∷ id) rest)
      (sym first)
      (read_packet-whole p.security_key_id flags (header_size p) p.header_encoding (length body)
        p.packet_identifier p.packet_type some_bytes least most tail rest measured)
