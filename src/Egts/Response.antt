-- ===== src/Egts/Response.antt =====
-- egts_sr_response.go
use nav_control.Base.{ℕ, ◌^◌, ◌<◌, ◌≡◌, List, [], ◌∷◌, ◌++◌, replicate}
use nav_control.Go.Result.{Result, ok, and_then}
use nav_control.Go.Reader.{Reader, ◌>>=◌, pure, read_byte, read, run}
use nav_control.Go.Words.{le_uint, put_le}
use nav_control.Egts.Fields.{le_uint-put_le}

pub record SrResponse : Type 0 where
  pub confirmed_record_number : ℕ
  pub record_status : ℕ

-- What is left after the two fields is decoded as a service data set, for its error only.
unfoldable pub decode : (List ℕ → Result (Unit {0})) → Reader SrResponse
decode service = do
  number ← read (replicate 2 0)
  status ← read_byte
  _ ← (λ s. and_then (service s) (λ done. ok (done, s)))
  pure (record { confirmed_record_number = le_uint number; record_status = status })

unfoldable pub encode : SrResponse → List ℕ
encode s = put_le 2 s.confirmed_record_number ++ (s.record_status ∷ [])

-- A response to a 16-bit record number is the same after encoding and decoding, if the decoder of
-- service data sets accepts no bytes.
pub decode-encode_response :
    (service : List ℕ → Result (Unit {0})) (s : SrResponse)
    → service [] ≡ ok tt
    → s.confirmed_record_number < 2 ^ 16
    → run (decode service) (encode s) ≡ ok s
unfolding decode encode
decode-encode_response service s e h = rw (e, le_uint-put_le 2 s.confirmed_record_number h)
