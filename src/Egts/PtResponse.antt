-- ===== src/Egts/PtResponse.antt =====
-- egts_pt_response.go: the body of an answer to a packet.
use nav_control.Base.{ℕ, List, [], ◌∷◌, ◌++◌, Option, none, some, replicate}
use nav_control.Go.Result.{Result, ok, and_then}
use nav_control.Go.Reader.{Reader, ◌>>=◌, pure, read_byte, read}
use nav_control.Go.Words.{le_uint, put_le}
use nav_control.Go.Float.{Float64}
use nav_control.Egts.Service
use nav_control.Egts.Service.{ServiceDataRecord}

pub record PtResponse : Type 0 where
  pub response_packet_id : ℕ
  pub processing_result : ℕ
  pub sdr : Option (List ServiceDataRecord)

module _ (f : Float64) where
  -- `if buf.Len() > 0 { … }`
  unfoldable pub read_sdr : ℕ → Reader (Option (List ServiceDataRecord))
  read_sdr depth [] = ok (none, [])
  read_sdr depth (b ∷ s) = and_then (Service.decode f depth (b ∷ s)) λ rs. ok (some rs, [])

  unfoldable pub decode : ℕ → Reader PtResponse
  decode depth = do
    packet ← read (replicate 2 0)
    result ← read_byte
    records ← read_sdr depth
    pure (record { response_packet_id = le_uint packet; processing_result = result; sdr = records })

  unfoldable pub encode_sdr : Option (List ServiceDataRecord) → Result (List ℕ)
  encode_sdr none = ok []
  encode_sdr (some rs) = Service.encode f rs

  unfoldable pub encode : PtResponse → Result (List ℕ)
  encode s =
      and_then (encode_sdr s.sdr)
        λ bytes. ok (put_le 2 s.response_packet_id ++ (s.processing_result ∷ bytes))
