-- ===== src/Go/Words.antt =====
-- encoding/binary's little-endian numbers.
use nav_control.Base.{Bool, ltb, ◌^◌, ℕ, zero, suc, ◌+◌, ◌*◌, ◌/◌, ◌%◌, ◌<◌, List, [], ◌∷◌}

-- `binary.LittleEndian.Uint16`, `Uint32` and `Uint64` on a slice of that many bytes.
abbrev pub le_uint : List ℕ → ℕ
le_uint [] = 0
le_uint (b ∷ bs) = b + 256 * le_uint bs

-- `binary.LittleEndian.PutUint…` and `binary.Write`: the n low bytes of v, lowest first.
abbrev pub put_le : ℕ → ℕ → List ℕ
put_le zero v = []
put_le (suc n) v = (v % 256) ∷ put_le n (v / 256)

abbrev pub IsByte : ℕ → Type 0
IsByte b = b < 256

-- `a < b`, of int32
unfoldable pub lt32 : ℕ → ℕ → Bool
lt32 a b = ltb ((a + 2 ^ 31) % 2 ^ 32) ((b + 2 ^ 31) % 2 ^ 32)
