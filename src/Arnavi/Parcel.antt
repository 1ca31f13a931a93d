-- ===== src/Arnavi/Parcel.antt =====
-- handler.go: a parcel with a packet of tags is published and answered.
use nav_control.Base.{
  ℕ, suc, ◌+◌, ◌≤◌, ◌<◌, ◌≡◌, refl, sym, ap, ◌∙◌, List, [], ◌∷◌, ◌++◌, length, length-append,
  append_assoc, take, drop, take-length-append, drop-length-append, true, false, ltb, ◌==◌, ◌||◌,
  ge→ltb, if-true, arith, subst,
}
use nav_control.Go.Result.{ok}
use nav_control.Go.Words.{le_uint}
use nav_control.Arnavi.Crc.{sig_pack_start, sig_pack_end, pack_tags_type, size_scan}
use nav_control.Arnavi.Header.{scan_packed, scan_packet}
use nav_control.Arnavi.Answer.{answer_packed}
use nav_control.Arnavi.Tags.{Float32, TagsData, decode_tags, decode_tags-succeeds}
use nav_control.Arnavi.Packet.{decode_packet}
use nav_control.Arnavi.Session.{
  ClientArnavi, Event, wrote, published, Outside, uses, ready, nav_record, save_packet,
  start_parcel, whole_packet, finish_parcel, step, add_events, after_round, rounds,
  process_existing_data,
}

-- The bytes of a packet of tags, its time in four bytes.
unfoldable pub packet_bytes : (t₀ t₁ t₂ t₃ low high sum : ℕ) → (content : List ℕ) → List ℕ
packet_bytes t₀ t₁ t₂ t₃ low high sum content =
    pack_tags_type ∷ low ∷ high ∷ t₀ ∷ t₁ ∷ t₂ ∷ t₃ ∷ (content ++ (sum ∷ []))

decode_packet-packet_bytes :
    (f : Float32) (t₀ t₁ t₂ t₃ low high sum : ℕ) (content more : List ℕ) (tags : TagsData f)
    → length content ≡ le_uint (low ∷ high ∷ [])
    → decode_tags f content ≡ ok tags
    → decode_packet f (packet_bytes t₀ t₁ t₂ t₃ low high sum content ++ more)
      ≡ ok (record {
        type_content = pack_tags_type;
        length_packet = le_uint (low ∷ high ∷ []);
        time_packet = le_uint (t₀ ∷ t₁ ∷ t₂ ∷ t₃ ∷ []);
        tags = tags;
        check_sum = sum;
      })
unfolding decode_packet packet_bytes
decode_packet-packet_bytes f t₀ t₁ t₂ t₃ low high sum content more tags size decoded =
    let joined : (content ++ (sum ∷ [])) ++ more ≡ content ++ (sum ∷ more) =
      append_assoc content (sum ∷ []) more in
    let first : take (le_uint (low ∷ high ∷ [])) (content ++ (sum ∷ more)) ≡ content =
      subst (λ n. take n (content ++ (sum ∷ more)) ≡ content) size
        (take-length-append content (sum ∷ more)) in
    let last : drop (le_uint (low ∷ high ∷ [])) (content ++ (sum ∷ more)) ≡ sum ∷ more =
      subst (λ n. drop n (content ++ (sum ∷ more)) ≡ sum ∷ more) size
        (drop-length-append content (sum ∷ more)) in
    rw (joined, first, last, decoded) refl

module _ (f : Float32) (out : Outside) where
  round-uses :
      (n : ℕ) (c d : ClientArnavi) (buf : List ℕ) (size : ℕ) (events : List Event)
      → step f out c buf ≡ uses d size events
      → rounds f out (suc n) c buf ≡ add_events f out events (rounds f out n d (drop size buf))
  unfolding rounds after_round
  round-uses n c d buf size events e =
      ap (after_round f out (λ x rest. rounds f out n x rest) c buf) e

  authorized-rounds :
      (c : ClientArnavi) (buf : List ℕ)
      → c.authorization ≡ true
      → process_existing_data f out c buf ≡ rounds f out (suc (length buf)) c buf
  unfolding process_existing_data
  authorized-rounds c buf known = if-true _ _ known

  step-start :
      (c : ClientArnavi) (id : ℕ) (rest : List ℕ)
      → c.id ≡ 0
      → 0 < id
      → id ≤ 0xFB
      → step f out c (sig_pack_start ∷ id ∷ rest) ≡ uses (record c { id = id }) size_scan []
  unfolding step scan_packed start_parcel
  step-start c id rest idle some_id small =
      let in_range : ((id == 0) || ltb 0xFB id) ≡ false = ground (arith, some_id, small) in
      let more : (length (sig_pack_start ∷ id ∷ rest) == 1) ≡ false = ground arith in
      rw (idle, more, in_range) refl

  step-packet :
      (c : ClientArnavi) (t₀ t₁ t₂ t₃ low high sum : ℕ) (content more : List ℕ) (tags : TagsData f)
      → 0 < c.id
      → out.publishes ≡ true
      → length content ≡ le_uint (low ∷ high ∷ [])
      → decode_tags f content ≡ ok tags
      → step f out c (packet_bytes t₀ t₁ t₂ t₃ low high sum content ++ more)
        ≡ uses c (le_uint (low ∷ high ∷ []) + 8) (
            published (
              nav_record f out.now c (record {
                type_content = pack_tags_type;
                length_packet = le_uint (low ∷ high ∷ []);
                time_packet = le_uint (t₀ ∷ t₁ ∷ t₂ ∷ t₃ ∷ []);
                tags = tags;
                check_sum = sum;
              }))
            ∷ [])
  unfolding step whole_packet scan_packet save_packet packet_bytes
  step-packet c t₀ t₁ t₂ t₃ low high sum content more tags some_id publishes size decoded =
      let packet = packet_bytes t₀ t₁ t₂ t₃ low high sum content ++ more in
      let busy : (c.id == 0) ≡ false = ground (arith, some_id) in
      let whole : ltb (length packet) (le_uint (low ∷ high ∷ []) + 8) ≡ false = ge→ltb _ _ (
        omega (
          arith,
          size,
          length-append content (sum ∷ []),
          length-append (content ++ (sum ∷ [])) more,
        )) in
      let back =
        decode_packet-packet_bytes f t₀ t₁ t₂ t₃ low high sum content more tags size decoded in
      rw (busy, whole, back, publishes) refl

  step-end :
      (c : ClientArnavi) (rest : List ℕ)
      → 0 < c.id
      → out.writes ≡ true
      → step f out c (sig_pack_end ∷ rest)
        ≡ uses (record c { id = 0 }) 1 (wrote (answer_packed c.id) ∷ [])
  unfolding step finish_parcel
  step-end c rest some_id writes =
      let busy : (c.id == 0) ≡ false = ground (arith, some_id) in rw (busy, writes) refl

  -- For an authorized terminal between parcels, on a connection and a NATS that take what is sent, a
  -- parcel with a number from 1 to 0xFB and one packet of tags of the length that it tells is used
  -- up: its tags are decoded, one record is published, with the number, the time and the tags, the
  -- parcel is answered with its number, and the client is as before.
  pub process_existing_data-parcel :
      (c : ClientArnavi) (id t₀ t₁ t₂ t₃ low high sum : ℕ) (content : List ℕ)
      → c.authorization ≡ true
      → c.id ≡ 0
      → out.publishes ≡ true
      → out.writes ≡ true
      → 0 < id
      → id ≤ 0xFB
      → length content ≡ le_uint (low ∷ high ∷ [])
      → (tags : TagsData f) × (decode_tags f content ≡ ok tags)
        × (process_existing_data f out c (
              sig_pack_start
              ∷ id
              ∷ (packet_bytes t₀ t₁ t₂ t₃ low high sum content ++ (sig_pack_end ∷ [])))
            ≡ ready c [] (
                published (
                  nav_record f out.now
                    (record c { id = id })
                    (record {
                      type_content = pack_tags_type;
                      length_packet = le_uint (low ∷ high ∷ []);
                      time_packet = le_uint (t₀ ∷ t₁ ∷ t₂ ∷ t₃ ∷ []);
                      tags = tags;
                      check_sum = sum;
                    }))
                ∷ wrote (answer_packed id)
                ∷ []))
  unfolding packet_bytes add_events rounds after_round step
  process_existing_data-parcel c id t₀ t₁ t₂ t₃ low high sum content known idle publishes writes
        some_id small size =
      let (tags, decoded) = decode_tags-succeeds f content in
      let opened = record c { id = id } in
      let packet = packet_bytes t₀ t₁ t₂ t₃ low high sum content in
      let exact : length packet ≡ le_uint (low ∷ high ∷ []) + 8 =
        omega (arith, size, length-append content (sum ∷ [])) in
      let left : drop (le_uint (low ∷ high ∷ []) + 8) (packet ++ (sig_pack_end ∷ []))
          ≡ sig_pack_end ∷ [] =
        subst (λ n. drop n (packet ++ (sig_pack_end ∷ [])) ≡ sig_pack_end ∷ []) exact
          (drop-length-append packet (sig_pack_end ∷ [])) in
      let event : Event = published (
        nav_record f out.now opened (record {
          type_content = pack_tags_type;
          length_packet = le_uint (low ∷ high ∷ []);
          time_packet = le_uint (t₀ ∷ t₁ ∷ t₂ ∷ t₃ ∷ []);
          tags = tags;
          check_sum = sum;
        })) in
      let tail = packet ++ (sig_pack_end ∷ []) in
      let same : record c { id = 0 } ≡ c = λ i. record c { id = sym idle i } in
      (
        tags,
        decoded,
        authorized-rounds c (sig_pack_start ∷ id ∷ tail) known
            ∙ round-uses (suc (suc (length tail))) c opened (sig_pack_start ∷ id ∷ tail) size_scan
                [] (step-start c id tail idle some_id small)
            ∙ ap (add_events f out []) (
                round-uses (suc (length tail)) opened opened tail _ _ (
                  step-packet opened t₀ t₁ t₂ t₃ low high sum content (sig_pack_end ∷ []) tags
                    some_id publishes size decoded)
                ∙ ap (add_events f out (event ∷ [])) (
                    ap (rounds f out (suc (length tail)) opened) left
                    ∙ round-uses (length tail) opened (record c { id = 0 }) (sig_pack_end ∷ []) 1 _
                        (step-end opened [] some_id writes)))
            ∙ ap (λ x. ready x [] (event ∷ wrote (answer_packed id) ∷ [])) same,
      )
