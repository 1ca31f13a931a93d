-- ===== src/Egts/AuthInfo.antt =====
-- egts_sr_auth_info.go
use nav_control.Base.{ℕ, ◌≡◌, ◌≢◌, refl, List, [], ◌∷◌, ◌++◌, All}
use nav_control.Go.Result.{ok}
use nav_control.Go.Reader.{
  Reader, ◌>>=◌, continue, pure, run, value_of, read_string, trim_suffix, read_string-append,
  trim_suffix-append, value_of-continue,
}
use nav_control.Go.Text.{Text}

pub record SrAuthInfo : Type 0 where
  pub user_name : Text
  pub user_password : Text
  pub server_sequence : Text

abbrev sep : ℕ
sep = 0

-- `if buf.Len() > 0 { … }`
read_sequence : Reader Text
read_sequence [] = ok ([], [])
read_sequence (b ∷ rest) = continue (read_string sep (b ∷ rest)) λ t. pure (trim_suffix sep t)

unfoldable pub decode : Reader SrAuthInfo
unfolding read_sequence
decode = do
  name ← read_string sep
  password ← read_string sep
  sequence ← read_sequence
  pure (record {
    user_name = trim_suffix sep name;
    user_password = trim_suffix sep password;
    server_sequence = sequence;
  })

-- `if e.ServerSequence != "" { … }`
sequence_bytes : Text → List ℕ
sequence_bytes [] = []
sequence_bytes (c ∷ t) = (c ∷ t) ++ (sep ∷ [])

unfoldable pub encode : SrAuthInfo → List ℕ
unfolding sequence_bytes
encode e = e.user_name ++ (sep ∷ e.user_password ++ (sep ∷ sequence_bytes e.server_sequence))

pub record IsValid (e : SrAuthInfo) : Type 0 where
  pub name : All (λ b. b ≢ 0) e.user_name
  pub password : All (λ b. b ≢ 0) e.user_password
  pub sequence : All (λ b. b ≢ 0) e.server_sequence

read_sequence-sequence_bytes :
    (t : Text) → All (λ b. b ≢ 0) t → value_of (read_sequence (sequence_bytes t)) ≡ ok t
unfolding read_sequence sequence_bytes
read_sequence-sequence_bytes [] h = refl
read_sequence-sequence_bytes (c ∷ t) h =
    rw (read_string-append sep (c ∷ t) [] h, trim_suffix-append sep (c ∷ t))

-- A name, a password and a server sequence without zero bytes are the same after encoding and
-- decoding.
pub decode-encode_auth_info : (e : SrAuthInfo) → IsValid e → run decode (encode e) ≡ ok e
unfolding encode decode
decode-encode_auth_info e valid =
    rw
      (
        read_string-append sep e.user_name _ valid.name,
        read_string-append sep e.user_password _ valid.password,
        trim_suffix-append sep e.user_name,
        trim_suffix-append sep e.user_password,
      )
      (value_of-continue (read_sequence (sequence_bytes e.server_sequence)) _
        (read_sequence-sequence_bytes e.server_sequence valid.sequence))
