-- ===== src/Egts/AbsCntrData.antt =====
-- egts_sr_abs_cntr_data.go
use nav_control.Base.{ℕ, ◌^◌, ◌<◌, ◌≡◌, ap, List, [], ◌∷◌, ◌++◌, arith, take, replicate}
use nav_control.Go.Result.{ok}
use nav_control.Go.Reader.{Reader, ◌>>=◌, pure, read_byte, read, run}
use nav_control.Go.Words.{le_uint, put_le}
use nav_control.Egts.Fields.{written}

pub record SrAbsCntrData : Type 0 where
  pub counter_number : ℕ
  pub counter_value : ℕ

-- The three bytes that are read get a zero byte on top.
unfoldable pub decode : Reader SrAbsCntrData
decode = do
  number ← read_byte
  counter ← read (replicate 3 0)
  pure (record { counter_number = number; counter_value = le_uint (counter ++ (0 ∷ [])) })

unfoldable pub encode : SrAbsCntrData → List ℕ
encode e = written ((e.counter_number ∷ []) ∷ take 3 (put_le 4 e.counter_value) ∷ [])

-- A counter value below 2^24 is the same after encoding and decoding.
pub decode-encode_abs_cntr :
    (e : SrAbsCntrData) → e.counter_value < 2 ^ 24 → run decode (encode e) ≡ ok e
unfolding encode decode
decode-encode_abs_cntr e valid = ap ok (λ i. record e { counter_value = same i })
  where
    same : le_uint (take 3 (put_le 4 e.counter_value) ++ (0 ∷ [])) ≡ e.counter_value
    same = omega (arith, valid)
