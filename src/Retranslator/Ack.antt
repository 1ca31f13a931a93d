-- ===== src/Retranslator/Ack.antt =====
-- client.go, processExistingData: the search for the answer to a packet in the bytes received.
use nav_control.Base.{
  ℕ, zero, suc, ◌+◌, ◌%◌, ◌^◌, ◌≤◌, ◌<◌, ◌≡◌, ◌≢◌, List, [], ◌∷◌, ◌++◌, length, take, drop, get_or,
  Option, none, some, Bool, true, false, not, if◌then◌else◌, ltb, ◌==◌, arith,
}
use nav_control.Go.Words.{le_uint}
use nav_control.Go.Float.{Float64}
use nav_control.Egts.Package
use nav_control.Egts.Package.{
  Package, FrameData, services, answer, Outcome, done, refused, crashed, unfinished,
  egts_pt_response,
}

-- `egts.HEADERLEN`
abbrev pub headerlen : ℕ
headerlen = 10

-- What is returned, `term` and `ifequal`, with the bytes that stay in the buffer. `broken` is a panic of
-- the decoder, or a decoder out of depth; `endless` stands for fuel that ran out.
pub data Search : Type 0 where
  settled : (term ifequal : Bool) → (rest : List ℕ) → Search
  broken : Search
  endless : Search

-- `bodyLen`, and from it `pkgLen`, of type uint16
unfoldable pub body_len : List ℕ → ℕ
body_len content = le_uint (take 2 (drop 5 content))

unfoldable pub pkg_len : List ℕ → ℕ
pkg_len content =
    if body_len content == 0
    then get_or content 3 0
    else (get_or content 3 0 + (body_len content + 2) % 2 ^ 16) % 2 ^ 16

-- The type assertion on the data, and the comparison of the identifiers.
unfoldable pub compare_id : (pack_id : ℕ) → (content : List ℕ) → Option FrameData → Search
compare_id pack_id content none = settled false false content
compare_id pack_id content (some (services rs)) = settled false false content
compare_id pack_id content (some (answer ack)) =
    if ack.response_packet_id == pack_id % 2 ^ 16
    then settled true true content
    else settled false false content

-- The rest of a round, once the packet is decoded; `rest` is what `data.Next` leaves, and `more` the
-- rounds on it.
unfoldable pub after_decode :
    (pack_id : ℕ) → (content rest : List ℕ) → (more : Search) → Outcome Package → Search
after_decode pack_id content rest more (done p) =
    if p.packet_type == egts_pt_response
    then compare_id pack_id content p.services_frame_data
    else if length rest == 0
    then settled false false rest
    else more
after_decode pack_id content rest more (refused identifier code e) = settled false false rest
after_decode pack_id content rest more crashed = broken
after_decode pack_id content rest more unfinished = broken

drop-shrinks : (n : ℕ) (content : List ℕ) → length (drop n content) ≤ length content
drop-shrinks zero content = omega arith
drop-shrinks (suc n) [] = omega arith
drop-shrinks (suc n) (b ∷ bs) = omega (arith, drop-shrinks n bs)

module _ (f : Float64) (depth : ℕ) (spare : List ℕ) (pack_id : ℕ) where
  -- The rounds of the loop. The slice that is decoded has the rest of the buffer behind it, and then
  -- the spare bytes of the buffer.
  unfoldable pub rounds : (fuel : ℕ) → List ℕ → Search
  rounds zero content = endless
  rounds (suc fuel) content =
      let rest = drop (pkg_len content) content in
      let more = rounds fuel rest in
      if ltb (length content) headerlen
      then settled false false content
      else if not (get_or content 0 0 == 1)
      then settled true false content
      else if ltb (length content) (pkg_len content)
      then settled false false content
      else after_decode pack_id content rest more
          (Package.decode f none depth (take (pkg_len content) content) (rest ++ spare))

  -- `processExistingData`
  unfoldable pub process_existing_data : List ℕ → Search
  process_existing_data content = rounds (suc (length content)) content

  after_decode-finishes :
      (content rest : List ℕ) (more : Search) (o : Outcome Package)
      → more ≢ endless
      → after_decode pack_id content rest more o ≢ endless
  unfolding after_decode compare_id
  after_decode-finishes content rest more (done p) ends e = by_data p.services_frame_data e
    where
      by_data :
          (d : Option FrameData)
          → (if p.packet_type == egts_pt_response
              then compare_id pack_id content d
              else if length rest == 0
              then settled false false rest
              else more)
            ≡ endless
          → ⊥
      by_data none e = ground (arith, ends, e)
      by_data (some (services rs)) e = ground (arith, ends, e)
      by_data (some (answer ack)) e = ground (arith, ends, e)
  after_decode-finishes content rest more (refused identifier code x) ends e = ground (arith, e)
  after_decode-finishes content rest more crashed ends e = ground (arith, e)
  after_decode-finishes content rest more unfinished ends e = ground (arith, e)

  length-drop :
      (n : ℕ) (content : List ℕ)
      → 0 < length content
      → length (drop (suc n) content) < length content
  length-drop n [] h = absurd (omega arith)
  length-drop n (b ∷ bs) h = omega (arith, drop-shrinks n bs)

  rounds-finish :
      (fuel : ℕ) (content : List ℕ) → length content < fuel → rounds fuel content ≢ endless
  unfolding rounds
  rounds-finish zero content h e = absurd (omega arith)
  rounds-finish (suc fuel) content h e =
      by_length (λ rest. rounds-finish fuel rest) (pkg_len content) e
    where
      -- No packet has length 0.
      by_length :
          ((rest : List ℕ) → length rest < fuel → rounds fuel rest ≢ endless)
          → (n : ℕ)
          → (if ltb (length content) headerlen
              then settled false false content
              else if not (get_or content 0 0 == 1)
              then settled true false content
              else if ltb (length content) n
              then settled false false content
              else after_decode pack_id content
                  (drop n content)
                  (rounds fuel (drop n content))
                  (Package.decode f none depth (take n content) (drop n content ++ spare)))
            ≡ endless
          → ⊥
      by_length later zero e =
          unfold after_decode Package.decode Package.decode_header in ground (arith, e)
      by_length later (suc n) e =
          let shorter : 0 < length content → rounds fuel (drop (suc n) content) ≢ endless =
            λ some_bytes.
              later (drop (suc n) content) (omega (arith, length-drop n content some_bytes)) in
          let ends : 0 < length content
              → after_decode pack_id content (drop (suc n) content)
                  (rounds fuel (drop (suc n) content))
                  (Package.decode f none depth (take (suc n) content)
                    (drop (suc n) content ++ spare))
                ≢ endless =
            λ some_bytes. after_decode-finishes content _ _ _ (shorter some_bytes) in
          ground (arith, e, ends)

  -- The rounds of the search never run out of fuel, whatever the bytes, the depth and the
  -- identifier.
  pub process_existing_data-finishes : (content : List ℕ) → process_existing_data content ≢ endless
  unfolding process_existing_data
  process_existing_data-finishes content =
      rounds-finish (suc (length content)) content (omega arith)
