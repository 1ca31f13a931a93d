-- ===== src/Egts/Package.antt =====
-- egts_package.go: the packet.
pub mod RoundTrip
pub mod Whole
pub mod Frame
pub mod Kept
use nav_control.Base.{
  ℕ, zero, suc, ◌+◌, ◌-◌, ◌*◌, ◌%◌, ◌^◌, ◌<◌, ◌≤◌, ◌≡◌, List, [], ◌∷◌, ◌++◌, length, take, drop,
  replicate, Option, none, some, Bool, true, false, not, if◌then◌else◌, leb, ◌==◌, ◌&&◌,
}
use nav_control.Go.Result.{
  Error, Result, ok, err, panic, stuck, and_then, no_key, header_sum, body_sum, unknown_type,
}
use nav_control.Go.Reader.{Reader, read_byte, read, run}
use nav_control.Go.Words.{le_uint, put_le}
use nav_control.Go.Text.{Text, text_eq, is_one, slice, format8, parse_flags}
use nav_control.Go.Float.{Float64}
use nav_control.Egts.Fields.{written, opt}
use nav_control.Egts.Crc.{crc8, crc16}
use nav_control.Egts.Service
use nav_control.Egts.Service.{ServiceDataRecord}
use nav_control.Egts.PtResponse
use nav_control.Egts.PtResponse.{PtResponse}

-- What a packet carries: the two structs that the source puts behind the interface BinaryData here.
pub data FrameData : Type 0 where
  services : List ServiceDataRecord → FrameData
  answer : PtResponse → FrameData

pub record Package : Type 0 where
  pub protocol_version : ℕ
  pub security_key_id : ℕ
  pub prefix : Text
  pub route : Text
  pub encryption_alg : Text
  pub compression : Text
  pub priority : Text
  pub header_length : ℕ
  pub header_encoding : ℕ
  pub frame_data_length : ℕ
  pub packet_identifier : ℕ
  pub packet_type : ℕ
  pub peer_address : ℕ
  pub recipient_address : ℕ
  pub time_to_live : ℕ
  pub header_check_sum : ℕ
  pub services_frame_data : Option FrameData
  pub services_frame_data_check_sum : ℕ

-- The interface that a caller may give with the options.
pub record SecretKey : Type 0 where
  pub decode_bytes : List ℕ → Result (List ℕ)
  pub encode_bytes : List ℕ → Result (List ℕ)

abbrev pub egts_pt_response : ℕ
egts_pt_response = 0

abbrev pub egts_pt_appdata : ℕ
egts_pt_appdata = 1

abbrev pub egts_pc_decrypt_error : ℕ
egts_pc_decrypt_error = 0x81

abbrev pub egts_pc_inc_headerform : ℕ
egts_pc_inc_headerform = 0x83

abbrev pub egts_pc_uns_type : ℕ
egts_pc_uns_type = 0x85

abbrev pub egts_pc_headercrc_error : ℕ
egts_pc_headercrc_error = 0x89

abbrev pub default_header_len : ℕ
default_header_len = 11

-- How `Decode` ends: with EGTS_PC_OK and the packet, or with a code and an error. Of the half-filled
-- packet that goes with an error only the identifier is kept, the one field that the callers read.
pub data Outcome {ℓ} (A : Type ℓ) : Type ℓ where
  done : A → Outcome A
  refused : (identifier code : ℕ) → Error → Outcome A
  crashed : Outcome A
  unfinished : Outcome A

-- `if …, err = …; err != nil { return code, err }`, in a packet with that identifier.
abbrev pub attempt {ℓ κ} :
    {A : Type ℓ} {B : Type κ} → (identifier code : ℕ) → Result A → (A → Outcome B) → Outcome B
attempt identifier code (ok a) k = k a
attempt identifier code (err e) k = refused identifier code e
attempt identifier code panic k = crashed
attempt identifier code stuck k = unfinished

-- `content[low:high]` of a slice that has spare bytes behind its end.
unfoldable pub reslice : (content spare : List ℕ) (low high : ℕ) → Result (List ℕ)
reslice content spare low high =
    if leb low high && leb high (length (content ++ spare))
    then ok (drop low (take high (content ++ spare)))
    else panic

-- Header bytes are all there or the header is malformed.
abbrev pub header_byte : ℕ → List ℕ → (ℕ × List ℕ → Outcome Package) → Outcome Package
header_byte identifier s k = attempt identifier egts_pc_inc_headerform (read_byte s) k

abbrev pub header_bytes :
    ℕ → List ℕ → List ℕ → (List ℕ × List ℕ → Outcome Package) → Outcome Package
header_bytes identifier buffer s k = attempt identifier egts_pc_inc_headerform (read buffer s) k

-- The addresses and the time to live, on a route.
unfoldable pub read_route : (there : Bool) → List ℕ → Reader (ℕ × ℕ × ℕ)
read_route there buffer s =
    if there
    then (and_then (read buffer s) λ peer. and_then (read peer.0 peer.1) λ recipient.
        and_then (read_byte recipient.1)
          λ ttl. ok ((le_uint peer.0, le_uint recipient.0, ttl.0), ttl.1))
    else ok ((0, 0, 0), s)

unfoldable pub is_plain : Text → Bool
is_plain algorithm = text_eq algorithm (b'0' ∷ b'0' ∷ [])

-- `if p.HeaderLength == 0 { … }`
unfoldable pub header_size : Package → ℕ
header_size p =
    if p.header_length == 0
    then (if is_one p.route then default_header_len + 5 else default_header_len)
    else p.header_length

unfoldable pub flag_bits : Package → Text
flag_bits p = p.prefix ++ (p.route ++ (p.encryption_alg ++ (p.compression ++ p.priority)))

-- The header up to its checksum.
unfoldable pub header_of : Package → (flags size : ℕ) → List ℕ
header_of p flags size =
    p.protocol_version
    ∷ p.security_key_id
    ∷ flags
    ∷ header_size p
    ∷ p.header_encoding
    ∷ (put_le 2 size
        ++ (put_le 2 p.packet_identifier
            ++ (p.packet_type
                ∷ opt (is_one p.route) (
                    put_le 2 p.peer_address
                    ++ (put_le 2 p.recipient_address ++ (p.time_to_live ∷ []))))))

module _ (f : Float64) (key : Option SecretKey) where
  -- `secretKey.Decode(…)`, if the packet is encrypted, and `secretKey.Encode(…)`.
  unfoldable pub with_key : (SecretKey → List ℕ → Result (List ℕ)) → Text → List ℕ → Result (List ℕ)
  with_key use_key algorithm bytes = if is_plain algorithm then ok bytes else keyed key
    where
      keyed : Option SecretKey → Result (List ℕ)
      keyed none = err no_key
      keyed (some k) = use_key k bytes

  -- The switch on the packet type, and the call of `Decode` on the body.
  unfoldable pub decode_frame : (depth kind : ℕ) → List ℕ → Result FrameData
  decode_frame depth kind bytes =
      if kind == egts_pt_appdata
      then and_then (Service.decode f depth bytes) (λ rs. ok (services rs))
      else and_then (run (PtResponse.decode f depth) bytes) (λ r. ok (answer r))

  -- `Package.Decode` from the end of the header on.
  unfoldable pub decode_body :
      (depth : ℕ) (content spare : List ℕ) → Package → List ℕ → Outcome Package
  decode_body depth content spare p s =
      let id = p.packet_identifier in
      attempt id egts_pc_inc_headerform (read (replicate p.frame_data_length 0) s) λ frame.
        if not (p.packet_type == egts_pt_appdata) && not (p.packet_type == egts_pt_response)
        then refused id egts_pc_uns_type unknown_type
        else (attempt id egts_pc_decrypt_error
            (with_key SecretKey.decode_bytes p.encryption_alg frame.0)
            λ plain.
              attempt id egts_pc_decrypt_error (decode_frame depth p.packet_type plain) λ data_set.
                attempt id egts_pc_decrypt_error (read (replicate 2 0) frame.1) λ sum.
                  attempt id egts_pc_decrypt_error
                    (reslice content spare p.header_length
                      ((p.header_length + p.frame_data_length) % 2 ^ 16))
                    λ body.
                      if le_uint sum.0 == crc16 body
                      then done (record p {
                        services_frame_data = some data_set;
                        services_frame_data_check_sum = le_uint sum.0;
                      })
                      else refused id egts_pc_decrypt_error body_sum)

  -- `Package.Decode` up to the header's checksum, with the rest of the content unread.
  unfoldable pub decode_header : (depth : ℕ) (content spare unread : List ℕ) → Outcome Package
  decode_header depth content spare unread = header_byte 0 unread λ version.
      header_byte 0 version.1 λ key_id. header_byte 0 key_id.1 λ flags.
        header_byte 0 flags.1 λ header_len. header_byte 0 header_len.1 λ encoding.
          header_bytes 0 (replicate 2 0) encoding.1 λ size. header_bytes 0 size.0 size.1 λ packet.
            let id = le_uint packet.0 in
            let bits = format8 flags.0 in
            header_byte id packet.1 λ kind.
              attempt id egts_pc_inc_headerform
                (read_route (is_one (slice 2 3 bits)) packet.0 kind.1)
                λ way. header_byte id way.1 λ sum.
                  attempt id egts_pc_headercrc_error
                    (reslice content spare 0 ((header_len.0 + 255) % 2 ^ 8))
                    λ header.
                      if sum.0 == crc8 header
                      then decode_body depth content spare
                          (record {
                            protocol_version = version.0;
                            security_key_id = key_id.0;
                            prefix = slice 0 2 bits;
                            route = slice 2 3 bits;
                            encryption_alg = slice 3 5 bits;
                            compression = slice 5 6 bits;
                            priority = slice 6 8 bits;
                            header_length = header_len.0;
                            header_encoding = encoding.0;
                            frame_data_length = le_uint size.0;
                            packet_identifier = id;
                            packet_type = kind.0;
                            peer_address = way.0.0;
                            recipient_address = way.0.1;
                            time_to_live = way.0.2;
                            header_check_sum = sum.0;
                            services_frame_data = none;
                            services_frame_data_check_sum = 0;
                          })
                          sum.1
                      else refused id egts_pc_headercrc_error header_sum

  -- `Package.Decode`
  unfoldable pub decode : (depth : ℕ) (content spare : List ℕ) → Outcome Package
  decode depth content spare = decode_header depth content spare content

  unfoldable pub encode_frame : FrameData → Result (List ℕ)
  encode_frame (services rs) = Service.encode f rs
  encode_frame (answer r) = PtResponse.encode f r

  -- The body, encrypted if the packet is.
  unfoldable pub encode_body : Text → Option FrameData → Result (List ℕ)
  encode_body algorithm none = ok []
  encode_body algorithm (some d) =
      and_then (encode_frame d) λ plain. with_key SecretKey.encode_bytes algorithm plain

  -- `Package.Encode`: the packet with the lengths that it fills in, and the bytes.
  unfoldable pub encode : Package → Result (Package × List ℕ)
  encode p = and_then (parse_flags (flag_bits p)) λ flags.
      and_then (encode_body p.encryption_alg p.services_frame_data) λ body.
        let size = length body % 2 ^ 16 in
        let header = header_of p flags size in
        let tail = if size == 0 then [] else body ++ put_le 2 (crc16 body) in
        ok (
          record p { header_length = header_size p; frame_data_length = size },
          header ++ (crc8 header ∷ tail),
        )
