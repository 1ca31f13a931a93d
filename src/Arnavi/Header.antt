-- ===== src/Arnavi/Header.antt =====
-- arn_header.go: the start of a session. arn_scan_packed.go: the start of a parcel and of a packet.
use nav_control.Base.{
  ℕ, ◌^◌, ◌<◌, ◌≡◌, refl, sym, subst, List, [], ◌∷◌, ◌++◌, replicate, Option, none, some,
  if◌then◌else◌, ltb, ◌==◌, ◌⊎◌, inl, inr, ◌||◌,
}
use nav_control.Go.Result.{Result, ok, err, and_then, unknown_type, bad_size}
use nav_control.Go.Reader.{Reader, read_byte, read, run}
use nav_control.Go.Words.{le_uint, put_le}
use nav_control.Egts.Fields.{le_uint-put_le}
use nav_control.Arnavi.Crc.{segned_header, sig_pack_start}

pub record HeadOne : Type 0 where
  pub signature : ℕ
  pub version : ℕ
  pub id_imei : ℕ
  pub ext_id : ℕ

-- The switch on the version, with a struct that was zero.
unfoldable pub read_ids : (version : ℕ) → Reader (ℕ × ℕ)
read_ids version s =
    if version == 0x23
    then (and_then (read (replicate 8 0) s) λ tmp. ok ((le_uint tmp.0, 0), tmp.1))
    else (if version == 0x24
        then (and_then (read (replicate 8 0) s)
            λ tmp. and_then (read tmp.0 tmp.1) λ ext. ok ((le_uint tmp.0, le_uint ext.0), ext.1))
        else err unknown_type)

-- `HeadOne.Decode`
unfoldable pub decode : Reader HeadOne
decode s = and_then (read_byte s) λ signature.
    if signature.0 == segned_header
    then (and_then (read_byte signature.1) λ version. and_then (read_ids version.0 version.1) λ ids.
        ok (
          record {
            signature = signature.0;
            version = version.0;
            id_imei = ids.0.0;
            ext_id = ids.0.1;
          },
          ids.1,
        ))
    else err unknown_type

-- `HeadOne.Encode`
unfoldable pub encode : HeadOne → Result (List ℕ)
encode e =
    if e.version == 0x23
    then ok (e.signature ∷ e.version ∷ put_le 8 e.id_imei)
    else (if e.version == 0x24
        then ok (e.signature ∷ e.version ∷ (put_le 8 e.id_imei ++ put_le 8 e.ext_id))
        else err unknown_type)

-- The signature, and one of the two versions; the shorter one has no further identifier.
pub record IsValidHead (e : HeadOne) : Type 0 where
  pub sign : e.signature ≡ segned_header
  pub imei : e.id_imei < 2 ^ 64
  pub versions : ((e.version ≡ 0x23) × (e.ext_id ≡ 0)) ⊎ ((e.version ≡ 0x24) × (e.ext_id < 2 ^ 64))

short_head : ℕ → HeadOne
short_head imei = record { signature = segned_header; version = 0x23; id_imei = imei; ext_id = 0 }

long_head : ℕ → ℕ → HeadOne
long_head imei ext = record {
  signature = segned_header;
  version = 0x24;
  id_imei = imei;
  ext_id = ext;
}

decode-short :
    (imei : ℕ)
    → imei < 2 ^ 64
    → run decode (segned_header ∷ 0x23 ∷ put_le 8 imei) ≡ ok (short_head imei)
unfolding decode read_ids short_head
decode-short imei h = rw (le_uint-put_le 8 imei h) refl

decode-long :
    (imei ext : ℕ)
    → imei < 2 ^ 64
    → ext < 2 ^ 64
    → run decode (segned_header ∷ 0x24 ∷ (put_le 8 imei ++ put_le 8 ext)) ≡ ok (long_head imei ext)
unfolding decode read_ids long_head
decode-long imei ext h hx = rw (le_uint-put_le 8 imei h, le_uint-put_le 8 ext hx) refl

-- A header with the signature, a 64-bit identifier, and one of the two versions, the shorter one
-- with a zero extended identifier and the longer one with one of 64 bits, is encoded without an
-- error and decoded as the same.
pub decode-encode_head :
    (e : HeadOne)
    → IsValidHead e
    → (bytes : List ℕ) × (encode e ≡ ok bytes) × (run decode bytes ≡ ok e)
unfolding encode short_head long_head
decode-encode_head e v = elim v.versions [
  | inl (short, no_ext) ↦
      let same : short_head e.id_imei ≡ e =
        λ i. record e { signature = sym v.sign i; version = sym short i; ext_id = sym no_ext i } in
      subst (λ x. (bytes : List ℕ) × (encode x ≡ ok bytes) × (run decode bytes ≡ ok x)) same
        (_, refl, decode-short e.id_imei v.imei)
  | inr (long, small) ↦
      let same : long_head e.id_imei e.ext_id ≡ e =
        λ i. record e { signature = sym v.sign i; version = sym long i } in
      subst (λ x. (bytes : List ℕ) × (encode x ≡ ok bytes) × (run decode bytes ≡ ok x)) same
        (_, refl, decode-long e.id_imei e.ext_id v.imei small)
]

-- `ScanPaked.Decode`: the number of a parcel. Fewer than two bytes leave the struct zero.
unfoldable pub scan_packed : List ℕ → Result ℕ
scan_packed [] = err unknown_type
scan_packed (b ∷ []) = err unknown_type
scan_packed (b ∷ id ∷ rest) =
    if b == sig_pack_start
    then (if (id == 0) || ltb 0xFB id then err bad_size else ok id)
    else err unknown_type

pub record ScanPacket : Type 0 where
  pub type_content : ℕ
  pub length_packet : ℕ

-- `ScanPacket.Decode`, of three bytes
unfoldable pub scan_packet : List ℕ → Option ScanPacket
scan_packet (kind ∷ low ∷ high ∷ rest) =
    some (record { type_content = kind; length_packet = le_uint (low ∷ high ∷ []) })
scan_packet _ = none
