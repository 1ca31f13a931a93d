-- ===== src/Arnavi/Packet.antt =====
-- arn_packet.go: a packet with its tags.
use nav_control.Base.{
  ℕ, ◌+◌, ◌%◌, ◌^◌, List, [], ◌∷◌, ◌++◌, replicate, length, take, drop, if◌then◌else◌, ◌==◌,
}
use nav_control.Go.Result.{Result, ok, panic, and_then}
use nav_control.Go.Reader.{read_byte, read}
use nav_control.Go.Words.{le_uint, put_le}
use nav_control.Egts.Package.{reslice}
use nav_control.Arnavi.Crc.{crc_sum, pack_tags_type}
use nav_control.Arnavi.Tags.{Float32, TagsData, decode_tags, encode_tags}

module _ (f : Float32) where
  pub record PacketS : Type 0 where
    pub type_content : ℕ
    pub length_packet : ℕ
    pub time_packet : ℕ
    pub tags : TagsData f
    pub check_sum : ℕ

  -- `PacketS.Decode`: of another type than that of tags the data are nil, and their `Decode` panics. The
  -- checksum is not compared.
  unfoldable pub decode_packet : List ℕ → Result PacketS
  decode_packet rec = and_then (read_byte rec) λ kind.
      and_then (read (replicate 2 0) kind.1) λ size. and_then (read (replicate 4 0) size.1) λ time.
        if kind.0 == pack_tags_type
        then (and_then (decode_tags f (take (le_uint size.0) time.1)) λ tags.
            and_then (read_byte (drop (le_uint size.0) time.1)) λ sum. ok (record {
              type_content = kind.0;
              length_packet = le_uint size.0;
              time_packet = le_uint time.0;
              tags = tags;
              check_sum = sum.0;
            }))
        else panic

  -- `PacketS.Encode`: the sum is over the bytes 3 up to the last but one, in 16-bit arithmetic.
  unfoldable pub encode_packet : PacketS → Result (List ℕ)
  encode_packet p =
      let content = encode_tags f p.tags in
      let size = length content % 2 ^ 16 in
      let bytes = pack_tags_type ∷ (put_le 2 size ++ (put_le 4 p.time_packet ++ content)) in
      and_then (reslice bytes [] 3 ((6 + size) % 2 ^ 16))
        λ summed. ok (bytes ++ (crc_sum summed ∷ []))
