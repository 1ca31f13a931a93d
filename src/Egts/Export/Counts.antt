-- ===== src/Egts/Export/Counts.antt =====
-- hangle.go: how many records are exported for a service data record, and that no index is out of range.
use nav_control.Base.{
  ℕ, zero, suc, ◌+◌, ◌≤◌, ◌<◌, ◌≡◌, refl, ◌∙◌, List, [], ◌∷◌, ◌++◌, length, length-append, some,
  Bool, true, false, if◌then◌else◌, ◌==◌, arith, Bool-cases, inl, inr, if-true, if-false, set, ◌%◌,
}
use nav_control.Go.Result.{Result, ok, err, panic, stuck}
use nav_control.Egts.Data.{
  BinaryData, pos, term, module_data, response, result_code, ext_pos, ad_sensors, state_data,
  liquid, abs_cntr, auth, counters, abs_an, abs_dig, dispatcher, passengers,
}
use nav_control.Egts.PosData.{SrPosData}
use nav_control.Egts.AbsCntrData.{SrAbsCntrData}
use nav_control.Egts.Records.{RecordData}
use nav_control.Egts.Service.{ServiceDataRecord}
use nav_control.Egts.Export.{
  blank, Building, Round, put_be, position_of, built, leaves, crashed, change_at, with_records,
  last_index, make_room, change_last, counted, add_position, add_counter, add_result_code,
  add_subrecord, and_next, add_subrecords, start_record,
}
use nav_control.Egts.NavRecord.{NavRecord}

-- The subrecords that become a record of their own, and those that go into the last one.
unfoldable pub is_position : BinaryData → Bool
is_position (pos e) = true
is_position _ = false

unfoldable pub is_reading : BinaryData → Bool
is_reading (ext_pos e) = true
is_reading (ad_sensors e) = true
is_reading (abs_an e) = true
is_reading (abs_dig e) = true
is_reading (abs_cntr e) = true
is_reading (liquid e) = true
is_reading _ = false

unfoldable pub positions : List RecordData → ℕ
positions [] = 0
positions (r ∷ rs) = if is_position r.subrecord_data then 1 + positions rs else positions rs

-- The readings before the first position.
unfoldable pub early_readings : List RecordData → ℕ
early_readings [] = 0
early_readings (r ∷ rs) =
    let later = early_readings rs in
    if is_position r.subrecord_data
    then 0
    else if is_reading r.subrecord_data
    then 1 + later
    else later

-- A round that went well, with i and the number of records as they are then.
unfoldable pub Counts : (i records : ℕ) → Round → Type 0
Counts i records (built b) = (b.i ≡ i) × (length b.rec_nav ≡ records)
Counts i records (leaves b) = Unit {0}
Counts i records crashed = ⊥

-- Of a call that ends in bytes or an error.
unfoldable pub Returns : Result (List ℕ) → Type 0
Returns (ok bytes) = Unit {0}
Returns (err e) = Unit {0}
Returns panic = ⊥
Returns stuck = ⊥

change_at-length :
    (k : ℕ) (change : NavRecord → NavRecord) (rs : List NavRecord)
    → k < length rs
    → (rs' : List NavRecord) × (change_at k change rs ≡ some rs') × (length rs' ≡ length rs)
unfolding change_at
change_at-length k change [] h = absurd (omega arith)
change_at-length zero change (r ∷ rs) h = (change r ∷ rs, refl, refl)
change_at-length (suc k) change (r ∷ rs) h =
    let (rs', changed, same) = change_at-length k change rs (omega arith) in
    (r ∷ rs', rw changed refl, omega (arith, same))

-- Room is made only before the first position.
unfoldable pub with_room : Building → ℕ
with_room b = if b.i == 0 then length b.rec_nav + 1 else length b.rec_nav

module _ (b : Building) (inside : b.i ≤ length b.rec_nav) where
  make_room-length : length (make_room b).rec_nav ≡ with_room b
  unfolding make_room with_room
  make_room-length = ground (arith, length-append b.rec_nav (blank ∷ []))

  make_room-i : (make_room b).i ≡ b.i
  unfolding make_room
  make_room-i = ground arith

  last_index-inside : last_index b < with_room b
  unfolding last_index with_room
  last_index-inside = ground (arith, inside)

  change_last-Counts :
      (change : NavRecord → NavRecord) → Counts b.i (with_room b) (change_last b change)
  unfolding change_last Counts with_records
  change_last-Counts change =
      let (rs, changed, same) =
        change_at-length (last_index b) change (make_room b).rec_nav
          (omega (arith, last_index-inside, make_room-length)) in
      rw changed (make_room-i, same ∙ make_room-length)

  add_position-Counts :
      (now : ℕ) (e : SrPosData) → Counts (b.i + 1) (length b.rec_nav + 1) (add_position now b e)
  unfolding add_position Counts with_records counted
  add_position-Counts now e =
      let more = length-append b.rec_nav (blank ∷ []) in
      let (rs, changed, same) =
        change_at-length b.i (position_of now b e) (b.rec_nav ++ (blank ∷ []))
          (omega (arith, inside, more)) in
      rw changed (refl, omega (arith, same, more))

unfoldable pub records_after : Building → BinaryData → ℕ
records_after b d =
    if is_position d
    then length b.rec_nav + 1
    else if is_reading d
    then with_room b
    else length b.rec_nav

unfoldable pub i_after : Building → BinaryData → ℕ
i_after b d = if is_position d then b.i + 1 else b.i

module _ (now : ℕ) (reply : Result (List ℕ)) (returns : Returns reply) where
  add_result_code-Counts : (b : Building) → Counts b.i (length b.rec_nav) (add_result_code b reply)
  unfolding Counts add_result_code Returns
  add_result_code-Counts b = at reply returns
    where
      at : (r : Result (List ℕ)) → Returns r → Counts b.i (length b.rec_nav) (add_result_code b r)
      at (ok bytes) h = (refl, refl)
      at (err e) h = (refl, refl)
      at panic h = elim h [ ]
      at stuck h = elim h [ ]

  counter-Counts :
      (b : Building) (e : SrAbsCntrData)
      → b.i ≤ length b.rec_nav
      → Counts b.i (with_room b) (add_counter b e)
  unfolding add_counter with_room change_last
  counter-Counts b e h = elim (Bool-cases (e.counter_number == 110)) [
    | inl low ↦
        rw (add_counter, if-true _ _ low)
          (change_last-Counts (record b { packet_id_bytes = put_be e.counter_value }) h _)
    | inr other ↦ elim (Bool-cases (e.counter_number == 111)) [
      | inl high ↦
          rw (add_counter, if-false _ _ other, if-true _ _ high)
            (change_last-Counts
              (record b { packet_id_bytes = set b.packet_id_bytes 3 (e.counter_value % 256) }) h _)
      | inr neither ↦
          rw (add_counter, if-false _ _ other, if-false _ _ neither)
            (unfold Counts in (make_room-i b h, make_room-length b h))
    ]
  ]

  add_subrecord-Counts :
      (b : Building) (d : BinaryData)
      → b.i ≤ length b.rec_nav
      → Counts (i_after b d) (records_after b d) (add_subrecord now reply b d)
  unfolding add_subrecord i_after records_after is_position is_reading
  add_subrecord-Counts b (pos e) h = add_position-Counts b h now e
  add_subrecord-Counts b (term e) h =
      add_result_code-Counts
        (record b { client = e.terminal_identifier; imei = e.imei; imsi = e.imsi })
  add_subrecord-Counts b (module_data e) h = unfold Counts in (refl, refl)
  add_subrecord-Counts b (response e) h = unfold Counts in tt
  add_subrecord-Counts b (result_code e) h = unfold Counts in (refl, refl)
  add_subrecord-Counts b (ext_pos e) h = change_last-Counts b h _
  add_subrecord-Counts b (ad_sensors e) h = change_last-Counts b h _
  add_subrecord-Counts b (state_data e) h = unfold Counts in (refl, refl)
  add_subrecord-Counts b (liquid e) h = change_last-Counts b h _
  add_subrecord-Counts b (abs_cntr e) h = counter-Counts b e h
  add_subrecord-Counts b (auth e) h = add_result_code-Counts b
  add_subrecord-Counts b (counters e) h = unfold Counts in (refl, refl)
  add_subrecord-Counts b (abs_an e) h = change_last-Counts b h _
  add_subrecord-Counts b (abs_dig e) h = change_last-Counts b h _
  add_subrecord-Counts b (dispatcher e) h = unfold Counts in (refl, refl)
  add_subrecord-Counts b (passengers e) h = unfold Counts in (refl, refl)

  -- The records that the rest of a list adds.
  unfoldable pub added : Building → List RecordData → ℕ
  added b rs = if b.i == 0 then positions rs + early_readings rs else positions rs

  Counts-eq : (i j n m : ℕ) (r : Round) → i ≡ j → n ≡ m → Counts i n r → Counts j m r
  unfolding Counts
  Counts-eq i j n m (built b) e e' (h, h') = (h ∙ e, h' ∙ e')
  Counts-eq i j n m (leaves b) e e' h = tt
  Counts-eq i j n m crashed e e' h = h

  and_next-Counts :
      (i n j m : ℕ) (r : Round) (next : Building → Round)
      → Counts i n r
      → ((b : Building) → b.i ≡ i → length b.rec_nav ≡ n → Counts j m (next b))
      → Counts j m (and_next now reply next r)
  unfolding and_next Counts
  and_next-Counts i n j m (built b) next (h, h') more = more b h h'
  and_next-Counts i n j m (leaves b) next h more = tt
  and_next-Counts i n j m crashed next h more = h

  i-cons :
      (b c : Building) (r : RecordData) (rs : List RecordData)
      → c.i ≡ i_after b r.subrecord_data
      → c.i + positions rs ≡ b.i + positions (r ∷ rs)
  unfolding i_after positions
  i-cons b c r rs e = ground (arith, e)

  records-cons :
      (b c : Building) (r : RecordData) (rs : List RecordData)
      → c.i ≡ i_after b r.subrecord_data
      → length c.rec_nav ≡ records_after b r.subrecord_data
      → length c.rec_nav + added c rs ≡ length b.rec_nav + added b (r ∷ rs)
  unfolding i_after records_after with_room added positions early_readings
  records-cons b c r rs e e' = ground (arith, e, e')

  inside-after :
      (b c : Building) (d : BinaryData)
      → b.i ≤ length b.rec_nav
      → c.i ≡ i_after b d
      → length c.rec_nav ≡ records_after b d
      → c.i ≤ length c.rec_nav
  unfolding i_after records_after with_room
  inside-after b c d h e e' = ground (arith, h, e, e')

  pub add_subrecords-Counts :
      (rs : List RecordData) (b : Building)
      → b.i ≤ length b.rec_nav
      → Counts (b.i + positions rs) (length b.rec_nav + added b rs) (add_subrecords now reply rs b)
  unfolding add_subrecords
  add_subrecords-Counts [] b h =
      unfold Counts positions added early_readings in (omega arith, ground arith)
  add_subrecords-Counts (r ∷ rs) b h =
      and_next-Counts _ _ _ _ _ _ (add_subrecord-Counts b r.subrecord_data h) λ c e e'.
        Counts-eq _ _ _ _ _ (i-cons b c r rs e) (records-cons b c r rs e e')
          (add_subrecords-Counts rs c (inside-after b c r.subrecord_data h e e'))

-- If the result code is made or refused with an error, the loop over the subrecords of a record
-- never meets an index out of range, and where it is not left for a confirmation of the terminal, it
-- ends with `i` at the number of positions and with one navigation record for each position and one
-- more for each reading before the first position.
pub add_subrecords-start_record :
    (now client : ℕ) (earlier : List ℕ) (reply : Result (List ℕ)) (rec : ServiceDataRecord)
    → Returns reply
    → Counts
        (positions rec.record_data_set)
        (positions rec.record_data_set + early_readings rec.record_data_set)
        (add_subrecords now reply rec.record_data_set (start_record client earlier rec))
unfolding start_record added
add_subrecords-start_record now client earlier reply rec returns =
    let b = start_record client earlier rec in
    Counts-eq now reply returns _ _ _ _ _ (omega arith) (omega arith)
      (add_subrecords-Counts now reply returns rec.record_data_set b (omega arith))
