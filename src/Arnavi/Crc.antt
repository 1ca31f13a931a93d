-- ===== src/Arnavi/Crc.antt =====
-- crc.go, and the constants of arn_head.go.
use nav_control.Base.{ℕ, ◌+◌, ◌%◌, List, [], ◌∷◌}

-- The loop of `Crc_sum`.
unfoldable pub crc_sum_from : ℕ → List ℕ → ℕ
crc_sum_from res [] = res
crc_sum_from res (b ∷ content) = crc_sum_from ((res + b) % 256) content

-- `Crc_sum`
unfoldable pub crc_sum : List ℕ → ℕ
crc_sum content = crc_sum_from 0 content

abbrev pub answer_start : ℕ
answer_start = 4

abbrev pub signed_start : ℕ
signed_start = 0x7B

abbrev pub signed_end : ℕ
signed_end = 0x7D

abbrev pub segned_header : ℕ
segned_header = 0xFF

abbrev pub sig_pack_start : ℕ
sig_pack_start = 0x5B

abbrev pub sig_pack_end : ℕ
sig_pack_end = 0x5D

abbrev pub size_auth : ℕ
size_auth = 10

abbrev pub size_scan : ℕ
size_scan = 2

abbrev pub confirmation_header_type : ℕ
confirmation_header_type = 0

abbrev pub pack_tags_type : ℕ
pack_tags_type = 1
