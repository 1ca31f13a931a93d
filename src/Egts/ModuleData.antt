-- ===== src/Egts/ModuleData.antt =====
-- egts_sr_module_data.go
use nav_control.Base.{
  ℕ, ◌^◌, ◌<◌, ◌≡◌, ◌≢◌, refl, ap, List, [], ◌∷◌, ◌++◌, if◌then◌else◌, arith, replicate, ◌==◌, All,
}
use nav_control.Go.Result.{ok, err, eof}
use nav_control.Go.Reader.{Reader, ◌>>=◌, continue, pure, read_byte, read, run}
use nav_control.Go.Words.{le_uint, put_le}
use nav_control.Go.Text.{Text}
use nav_control.Egts.Fields.{written, le_uint-put_le}

-- `module_type` is the byte of the int8.
pub record SrModuleData : Type 0 where
  pub module_type : ℕ
  pub vendor_id : ℕ
  pub firmware_version : ℕ
  pub software_version : ℕ
  pub modification : ℕ
  pub state : ℕ
  pub serial_number : Text
  pub description : Text

abbrev delimiter : ℕ
delimiter = 0

-- The loops that collect bytes up to the delimiter, which is taken and dropped.
pub read_section : Reader Text
read_section [] = err eof
read_section (b ∷ rest) =
    let more = continue (read_section rest) (λ t. pure (b ∷ t)) in
    if b == delimiter then ok ([], rest) else more

unfoldable pub decode : Reader SrModuleData
decode = do
  kind ← read_byte
  vendor ← read (replicate 4 0)
  firmware ← read (replicate 2 0)
  software ← read (replicate 2 0)
  modification ← read_byte
  state ← read_byte
  serial ← read_section
  description ← read_section
  pure (record {
    module_type = kind;
    vendor_id = le_uint vendor;
    firmware_version = le_uint firmware;
    software_version = le_uint software;
    modification = modification;
    state = state;
    serial_number = serial;
    description = description;
  })

unfoldable pub encode : SrModuleData → List ℕ
encode e = written (
    (e.module_type ∷ [])
    ∷ put_le 4 e.vendor_id
    ∷ put_le 2 e.firmware_version
    ∷ put_le 2 e.software_version
    ∷ (e.modification ∷ [])
    ∷ (e.state ∷ [])
    ∷ e.serial_number
    ∷ (delimiter ∷ [])
    ∷ e.description
    ∷ (delimiter ∷ [])
    ∷ [])

pub record IsValid (e : SrModuleData) : Type 0 where
  pub vendor : e.vendor_id < 2 ^ 32
  pub firmware : e.firmware_version < 2 ^ 16
  pub software : e.software_version < 2 ^ 16
  pub serial : All (λ b. b ≢ 0) e.serial_number
  pub description : All (λ b. b ≢ 0) e.description

read_section-append :
    (t rest : List ℕ) → All (λ b. b ≢ 0) t → read_section (t ++ (delimiter ∷ rest)) ≡ ok (t, rest)
unfolding read_section
read_section-append [] rest h = refl
read_section-append (b ∷ t) rest h = ground (arith, h.0, read_section-append t rest h.1)

-- Module data whose numbers fit their bytes and whose texts have no zero byte are the same after
-- encoding and decoding.
pub decode-encode_module_data : (e : SrModuleData) → IsValid e → run decode (encode e) ≡ ok e
unfolding encode decode
decode-encode_module_data e valid =
    rw
      (
        read_section-append e.serial_number _ valid.serial,
        read_section-append e.description _ valid.description,
      )
      (ap ok (λ i. record e {
        vendor_id = le_uint-put_le 4 e.vendor_id valid.vendor i;
        firmware_version = le_uint-put_le 2 e.firmware_version valid.firmware i;
        software_version = le_uint-put_le 2 e.software_version valid.software i;
      }))
