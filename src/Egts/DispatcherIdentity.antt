-- ===== src/Egts/DispatcherIdentity.antt =====
-- egts_sr_dispatcher_identity.go
use nav_control.Base.{ℕ, ◌^◌, ◌<◌, ◌≡◌, ap, List, [], ◌∷◌, ◌++◌, replicate}
use nav_control.Go.Result.{ok}
use nav_control.Go.Reader.{Reader, ◌>>=◌, pure, read_byte, read, run}
use nav_control.Go.Words.{le_uint, put_le}
use nav_control.Go.Text.{Text}
use nav_control.Egts.Fields.{le_uint-put_le}

pub record SrDispatcherIdentity : Type 0 where
  pub dispatcher_type : ℕ
  pub dispatcher_id : ℕ
  pub description : Text

-- `buf.String()` is all that is left.
abbrev read_all : Reader Text
read_all s = ok (s, s)

unfoldable pub decode : Reader SrDispatcherIdentity
decode = do
  kind ← read_byte
  id ← read (replicate 4 0)
  description ← read_all
  pure (record { dispatcher_type = kind; dispatcher_id = le_uint id; description = description })

unfoldable pub encode : SrDispatcherIdentity → List ℕ
encode d = (d.dispatcher_type ∷ []) ++ (put_le 4 d.dispatcher_id ++ d.description)

-- A dispatcher identity with a 32-bit number is the same after encoding and decoding, whatever its
-- description.
pub decode-encode_dispatcher :
    (d : SrDispatcherIdentity) → d.dispatcher_id < 2 ^ 32 → run decode (encode d) ≡ ok d
unfolding encode decode
decode-encode_dispatcher d valid =
    ap ok (λ i. record d { dispatcher_id = le_uint-put_le 4 d.dispatcher_id valid i })
