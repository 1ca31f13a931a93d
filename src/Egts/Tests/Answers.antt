-- ===== src/Egts/Tests/Answers.antt =====
-- A run of the answer to a packet with two records.
use nav_control.Egts.Tests.Fractions.{fractions, fractions-IsAccurate-90, fractions-IsAccurate-180}
use nav_control.Base.{ℕ, List, [], ◌∷◌, ◌≡◌, none, some, arith}
use nav_control.Go.Result.{ok}
use nav_control.Egts.Package
use nav_control.Egts.Package.{Package, answer, done, egts_pt_response}
use nav_control.Egts.Reply.{confirmations, response_section, create_pt_response}
use nav_control.Egts.Reply.Confirmed.{decode-create_pt_response}

abbrev numbers_sample : List ℕ
numbers_sample = 95 ∷ 96 ∷ []

decode-create_pt_response_example :
    (bytes : List ℕ) × (create_pt_response fractions 65535 0 2 (confirmations numbers_sample)
      ≡ ok bytes)
    × ((spare : List ℕ)
        → (read_back : Package) × (Package.decode fractions none 2 bytes spare ≡ done read_back)
          × (read_back.packet_type ≡ egts_pt_response)
          × (read_back.packet_identifier ≡ 0)
          × (read_back.services_frame_data
              ≡ some
                  (answer (response_section fractions 65535 0 2 (confirmations numbers_sample)))))
decode-create_pt_response_example =
    decode-create_pt_response fractions 65535 0 2 fractions-IsAccurate-90 fractions-IsAccurate-180 0
      numbers_sample (omega arith) (omega arith, (omega arith, tt)) (omega arith)
