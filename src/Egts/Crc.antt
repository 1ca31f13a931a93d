-- ===== src/Egts/Crc.antt =====
-- crc.go: the checksums of a packet's header and body.
use nav_control.Base.{
  ℕ, zero, suc, ◌-◌, ◌*◌, ◌%◌, ◌^◌, ◌<◌, List, [], ◌∷◌, bit_xor, if◌then◌else◌, leb, arith,
}

-- One step of the inner loop of a checksum of so many bits: `crc & 0x80 != 0` tells that the top bit
-- is set, and `crc << 1` drops it.
pub shift_bit : (bits poly crc : ℕ) → ℕ
shift_bit bits poly crc =
    let shifted = crc * 2 % 2 ^ bits in
    if leb (2 ^ (bits - 1)) crc then bit_xor shifted poly % 2 ^ bits else shifted

-- `for i := 0; i < n; i++`
pub shift_bits : ℕ → (bits poly crc : ℕ) → ℕ
shift_bits zero bits poly crc = crc
shift_bits (suc n) bits poly crc = shift_bits n bits poly (shift_bit bits poly crc)

-- The loops from a checksum on.
pub crc8_from : ℕ → List ℕ → ℕ
crc8_from crc [] = crc
crc8_from crc (b ∷ bytes) = crc8_from (shift_bits 8 8 0x31 (bit_xor crc b)) bytes

pub crc16_from : ℕ → List ℕ → ℕ
crc16_from crc [] = crc
crc16_from crc (b ∷ bytes) =
    crc16_from (shift_bits 8 16 0x1021 (bit_xor crc (b * 2 ^ 8 % 2 ^ 16))) bytes

unfoldable pub crc8 : List ℕ → ℕ
unfolding crc8_from
crc8 bytes = crc8_from 0xFF bytes

unfoldable pub crc16 : List ℕ → ℕ
unfolding crc16_from
crc16 bytes = crc16_from 0xFFFF bytes

shift_bit-bound : (bits poly crc : ℕ) → 0 < 2 ^ bits → shift_bit bits poly crc < 2 ^ bits
unfolding shift_bit
shift_bit-bound bits poly crc h = ground arith

shift_bits-bound :
    (n bits poly crc : ℕ) → 0 < 2 ^ bits → shift_bits (suc n) bits poly crc < 2 ^ bits
unfolding shift_bits
shift_bits-bound zero bits poly crc h = shift_bit-bound bits poly crc h
shift_bits-bound (suc n) bits poly crc h = shift_bits-bound n bits poly (shift_bit bits poly crc) h

crc16_from-bound : (bytes : List ℕ) (crc : ℕ) → crc < 2 ^ 16 → crc16_from crc bytes < 2 ^ 16
unfolding crc16_from
crc16_from-bound [] crc h = h
crc16_from-bound (b ∷ bytes) crc h =
    crc16_from-bound bytes _
      (shift_bits-bound 7 16 0x1021 (bit_xor crc (b * 2 ^ 8 % 2 ^ 16)) (omega arith))

-- The checksum of a body fits its two bytes.
pub crc16-bound : (bytes : List ℕ) → crc16 bytes < 2 ^ 16
unfolding crc16
crc16-bound bytes = crc16_from-bound bytes 0xFFFF (omega arith)
