-- ===== src/Egts/Package/RoundTrip.antt =====
-- A packet survives encoding and decoding.
use nav_control.Base.{
  ℕ, ◌+◌, ◌%◌, ◌/◌, ◌^◌, ◌<◌, ◌≤◌, ◌≡◌, refl, sym, ◌∙◌, List, [], ◌∷◌, ◌++◌, length, drop,
  replicate, Option, none, some, Bool, true, false, not, leb, ◌==◌, ◌&&◌, ◌⊎◌, inl, inr, arith,
  length-append, length-replicate, append_assoc, eq→==, take-length-append, drop-length-append,
}
use nav_control.Go.Result.{ok}
use nav_control.Go.Reader.{copy}
use nav_control.Go.Words.{put_le}
use nav_control.Go.Text.{is_one, byte_of, format8-byte_of}
use nav_control.Go.Float.{Float64}
use nav_control.Egts.Fields.{opt, le_uint-put_le, copy-append, drop-append}
use nav_control.Egts.Crc.{crc8, crc16, crc16-bound}
use nav_control.Egts.Package.{
  Package, FrameData, services, answer, SecretKey, done, reslice, read_route, with_key,
  decode_frame, decode_body, decode_header, egts_pt_appdata, egts_pt_response,
}

-- The fields of the route: there, and fitting their bytes, or zero.
unfoldable pub IsRoute : Bool → (peer recipient ttl : ℕ) → Type 0
IsRoute there peer recipient ttl =
    ((there ≡ true) × (peer < 2 ^ 16) × (recipient < 2 ^ 16))
    ⊎ ((there ≡ false) × (peer ≡ 0) × (recipient ≡ 0) × (ttl ≡ 0))

unfoldable pub route_bytes : Bool → (peer recipient ttl : ℕ) → List ℕ
route_bytes there peer recipient ttl =
    opt there (put_le 2 peer ++ (put_le 2 recipient ++ (ttl ∷ [])))

read_route-route_bytes :
    (there : Bool) (b₁ b₂ peer recipient ttl : ℕ) (rest : List ℕ)
    → IsRoute there peer recipient ttl
    → read_route there (b₁ ∷ b₂ ∷ []) (route_bytes there peer recipient ttl ++ rest)
      ≡ ok ((peer, recipient, ttl), rest)
unfolding read_route route_bytes IsRoute opt
read_route-route_bytes there b₁ b₂ peer recipient ttl rest (inl (e, hp, hr)) =
    rw (e, le_uint-put_le 2 peer hp, le_uint-put_le 2 recipient hr)
read_route-route_bytes there b₁ b₂ peer recipient ttl rest (inr (e, ep, er, et)) =
    rw (e, ep, er, et)

le→leb : (a b : ℕ) → a ≤ b → leb a b ≡ true
le→leb a b h = ground arith

pub reslice-parts :
    (h m rest content spare : List ℕ) (low high : ℕ)
    → content ++ spare ≡ h ++ (m ++ rest)
    → low ≡ length h
    → high ≡ length h + length m
    → reslice content spare low high ≡ ok m
unfolding reslice
reslice-parts h m rest content spare low high split el eh =
    let all : content ++ spare ≡ (h ++ m) ++ rest = split ∙ sym (append_assoc h m rest) in
    let top : high ≡ length (h ++ m) = eh ∙ sym (length-append h m) in
    let within : length (h ++ m) ≤ length ((h ++ m) ++ rest) =
      omega (arith, length-append (h ++ m) rest) in
    rw (
      all,
      el,
      top,
      le→leb (length h) (length (h ++ m)) (omega (arith, length-append h m)),
      le→leb (length (h ++ m)) (length ((h ++ m) ++ rest)) within,
      take-length-append (h ++ m) rest,
      drop-length-append h m,
    )

-- A packet type that goes with its data.
unfoldable pub kind_of_frame : FrameData → ℕ
kind_of_frame (services rs) = egts_pt_appdata
kind_of_frame (answer r) = egts_pt_response

kind_of_frame-known :
    (d : FrameData) (kind : ℕ)
    → kind ≡ kind_of_frame d
    → (not (kind == egts_pt_appdata) && not (kind == egts_pt_response)) ≡ false
unfolding kind_of_frame
kind_of_frame-known (services rs) kind e = rw e refl
kind_of_frame-known (answer r) kind e = rw e refl

module _ (f : Float64) (key : Option SecretKey) (depth : ℕ) where
  pub decode_header-header :
      (content spare header rest : List ℕ)
      (v k hl he size pid kind peer recipient ttl p q r a b c d e : ℕ)
      → (p < 2) × (q < 2) × (r < 2) × (a < 2) × (b < 2) × (c < 2) × (d < 2) × (e < 2)
      → IsRoute (is_one ((b'0' + r) ∷ [])) peer recipient ttl
      → size < 2 ^ 16
      → pid < 2 ^ 16
      → reslice content spare 0 ((hl + 255) % 2 ^ 8) ≡ ok header
      → decode_header f key depth content spare (
          v
          ∷ k
          ∷ byte_of p q r a b c d e
          ∷ hl
          ∷ he
          ∷ (put_le 2 size
              ++ (put_le 2 pid
                  ++ (kind
                      ∷ (route_bytes (is_one ((b'0' + r) ∷ [])) peer recipient ttl
                          ++ (crc8 header ∷ rest))))))
        ≡ decode_body f key depth content spare
            (record {
              protocol_version = v;
              security_key_id = k;
              prefix = (b'0' + p) ∷ (b'0' + q) ∷ [];
              route = (b'0' + r) ∷ [];
              encryption_alg = (b'0' + a) ∷ (b'0' + b) ∷ [];
              compression = (b'0' + c) ∷ [];
              priority = (b'0' + d) ∷ (b'0' + e) ∷ [];
              header_length = hl;
              header_encoding = he;
              frame_data_length = size;
              packet_identifier = pid;
              packet_type = kind;
              peer_address = peer;
              recipient_address = recipient;
              time_to_live = ttl;
              header_check_sum = crc8 header;
              services_frame_data = none;
              services_frame_data_check_sum = 0;
            })
            rest
  unfolding decode_header
  decode_header-header content spare header rest v k hl he size pid kind peer recipient ttl p q r a
        b c d e digits route hs hp sliced =
      rw (
        format8-byte_of p q r a b c d e digits,
        le_uint-put_le 2 size hs,
        le_uint-put_le 2 pid hp,
        read_route-route_bytes (is_one ((b'0' + r) ∷ [])) (pid % 256) (pid / 256 % 256) peer
            recipient ttl (crc8 header ∷ rest) route,
        sliced,
        eq→== (crc8 header) (crc8 header) refl,
      )

  pub decode_body-body :
      (content spare body rest plain : List ℕ) (p : Package) (d : FrameData)
      → 0 < length body
      → p.frame_data_length ≡ length body
      → p.packet_type ≡ kind_of_frame d
      → with_key f key SecretKey.decode_bytes p.encryption_alg body ≡ ok plain
      → decode_frame f key depth p.packet_type plain ≡ ok d
      → reslice content spare p.header_length ((p.header_length + p.frame_data_length) % 2 ^ 16)
        ≡ ok body
      → decode_body f key depth content spare p (body ++ (put_le 2 (crc16 body) ++ rest))
        ≡ done
            (record p { services_frame_data = some d; services_frame_data_check_sum = crc16 body })
  unfolding decode_body
  decode_body-body content spare [] rest plain p d some_bytes size kind opened decoded sliced =
      absurd (omega arith)
  decode_body-body content spare (b ∷ bs) rest plain p d some_bytes size kind opened decoded
        sliced =
      let all : length (replicate p.frame_data_length 0) ≡ length (b ∷ bs) =
        length-replicate p.frame_data_length 0 ∙ size in
      let tail = put_le 2 (crc16 (b ∷ bs)) ++ rest in
      let copied : copy (replicate p.frame_data_length 0) (b ∷ (bs ++ tail)) ≡ b ∷ bs =
        copy-append (replicate p.frame_data_length 0) (b ∷ bs) tail all in
      let dropped : drop (length (replicate p.frame_data_length 0)) (b ∷ (bs ++ tail)) ≡ tail =
        drop-append (replicate p.frame_data_length 0) (b ∷ bs) tail all in
      rw (
        copied,
        dropped,
        kind_of_frame-known d p.packet_type kind,
        opened,
        decoded,
        sliced,
        le_uint-put_le 2 (crc16 (b ∷ bs)) (crc16-bound (b ∷ bs)),
        eq→== (crc16 (b ∷ bs)) (crc16 (b ∷ bs)) refl,
      )
