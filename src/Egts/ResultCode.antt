-- ===== src/Egts/ResultCode.antt =====
-- egts_sr_result_code.go
use nav_control.Base.{ℕ, ◌≡◌, refl, List, [], ◌∷◌}
use nav_control.Go.Result.{ok}
use nav_control.Go.Reader.{Reader, ◌>>=◌, pure, read_byte, run}

pub record SrResultCode : Type 0 where
  pub result_code : ℕ

unfoldable pub decode : Reader SrResultCode
decode = do code ← read_byte; pure (record { result_code = code })

unfoldable pub encode : SrResultCode → List ℕ
encode s = s.result_code ∷ []

pub decode-encode_result_code : (s : SrResultCode) → run decode (encode s) ≡ ok s
unfolding encode decode
decode-encode_result_code s = refl
