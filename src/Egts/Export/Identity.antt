-- ===== src/Egts/Export/Identity.antt =====
-- hangle.go: a record without confirmations of the terminal is built to its end, and what an identification leaves.
use nav_control.Base.{
  ℕ, ◌≡◌, refl, subst, List, [], ◌∷◌, Option, none, some, Bool, true, false, if◌then◌else◌, ◌||◌,
  ◌==◌, arith, All, if-true, if-false, Bool-cases, inl, inr,
}
use nav_control.Go.Result.{ok}
use nav_control.Egts.Data.{
  BinaryData, pos, term, module_data, response, result_code, ext_pos, ad_sensors, state_data,
  liquid, abs_cntr, auth, counters, abs_an, abs_dig, dispatcher, passengers,
}
use nav_control.Egts.AbsCntrData.{SrAbsCntrData}
use nav_control.Egts.Records.{RecordData}
use nav_control.Egts.Service.{ServiceDataRecord}
use nav_control.Egts.Export.{
  Building, Round, built, leaves, crashed, with_records, make_room, change_at, change_last,
  last_index, counted, add_position, add_counter, add_result_code, add_subrecord, and_next,
  add_subrecords,
}
use nav_control.Egts.NavRecord.{NavRecord}

unfoldable pub is_response : BinaryData → Bool
is_response (response e) = true
is_response _ = false

unfoldable pub identifies : BinaryData → Bool
identifies (term e) = true
identifies (auth e) = true
identifies _ = false

-- No subrecord is a confirmation of the terminal.
abbrev pub IsReport : ServiceDataRecord → Type 0
IsReport rec = All (λ r. is_response r.subrecord_data ≡ false) rec.record_data_set

unfoldable pub any_identity : List RecordData → Bool
any_identity [] = false
any_identity (r ∷ rs) = any_identity rs || identifies r.subrecord_data

-- The round went on, with that answer to an identification.
unfoldable pub GoesOn : (code : List ℕ) → Round → Type 0
GoesOn code (built b) = b.sr_result_code ≡ code
GoesOn code (leaves b) = ⊥
GoesOn code crashed = Unit {0}

with_records-GoesOn :
    (b : Building) (rs : Option (List NavRecord)) → GoesOn b.sr_result_code (with_records b rs)
unfolding GoesOn with_records
with_records-GoesOn b none = tt
with_records-GoesOn b (some rs) = refl

counted-GoesOn : (code : List ℕ) (r : Round) → GoesOn code r → GoesOn code (counted r)
unfolding GoesOn counted
counted-GoesOn code (built b) h = h
counted-GoesOn code (leaves b) h = h
counted-GoesOn code crashed h = h

change_last-GoesOn :
    (b : Building) (change : NavRecord → NavRecord) → GoesOn b.sr_result_code (change_last b change)
unfolding change_last
change_last-GoesOn b change =
    let same : (make_room b).sr_result_code ≡ b.sr_result_code = unfold make_room in ground arith in
    subst
      (λ c.
        GoesOn c
          (with_records (make_room b) (change_at (last_index b) change (make_room b).rec_nav)))
      same (with_records-GoesOn (make_room b) _)

add_counter-GoesOn : (b : Building) (e : SrAbsCntrData) → GoesOn b.sr_result_code (add_counter b e)
unfolding add_counter
add_counter-GoesOn b e = elim (Bool-cases (e.counter_number == 110)) [
  | inl low ↦ rw (add_counter, if-true _ _ low) (change_last-GoesOn _ _)
  | inr other ↦ elim (Bool-cases (e.counter_number == 111)) [
    | inl high ↦ rw (add_counter, if-false _ _ other, if-true _ _ high) (change_last-GoesOn _ _)
    | inr neither ↦
        rw (add_counter, if-false _ _ other, if-false _ _ neither)
          (unfold GoesOn make_room in ground arith)
  ]
]

module _ (now : ℕ) (bytes : List ℕ) where
  unfoldable pub code_after : Building → BinaryData → List ℕ
  code_after b d = if identifies d then bytes else b.sr_result_code

  add_subrecord-GoesOn :
      (b : Building) (d : BinaryData)
      → is_response d ≡ false
      → GoesOn (code_after b d) (add_subrecord now (ok bytes) b d)
  unfolding add_subrecord code_after identifies is_response add_result_code
  add_subrecord-GoesOn b (pos e) h =
      unfold add_position in counted-GoesOn _ _ (with_records-GoesOn _ _)
  add_subrecord-GoesOn b (term e) h = unfold GoesOn in refl
  add_subrecord-GoesOn b (module_data e) h = unfold GoesOn in refl
  add_subrecord-GoesOn b (response e) h = cc
  add_subrecord-GoesOn b (result_code e) h = unfold GoesOn in refl
  add_subrecord-GoesOn b (ext_pos e) h = change_last-GoesOn b _
  add_subrecord-GoesOn b (ad_sensors e) h = change_last-GoesOn b _
  add_subrecord-GoesOn b (state_data e) h = unfold GoesOn in refl
  add_subrecord-GoesOn b (liquid e) h = change_last-GoesOn b _
  add_subrecord-GoesOn b (abs_cntr e) h = add_counter-GoesOn b e
  add_subrecord-GoesOn b (auth e) h = unfold GoesOn in refl
  add_subrecord-GoesOn b (counters e) h = unfold GoesOn in refl
  add_subrecord-GoesOn b (abs_an e) h = change_last-GoesOn b _
  add_subrecord-GoesOn b (abs_dig e) h = change_last-GoesOn b _
  add_subrecord-GoesOn b (dispatcher e) h = unfold GoesOn in refl
  add_subrecord-GoesOn b (passengers e) h = unfold GoesOn in refl

  and_next-GoesOn :
      (code code' : List ℕ) (r : Round) (next : Building → Round)
      → GoesOn code r
      → ((b : Building) → b.sr_result_code ≡ code → GoesOn code' (next b))
      → GoesOn code' (and_next now (ok bytes) next r)
  unfolding and_next GoesOn
  and_next-GoesOn code code' (built b) next h more = more b h
  and_next-GoesOn code code' (leaves b) next h more = elim h [ ]
  and_next-GoesOn code code' crashed next h more = tt

  pub add_subrecords-GoesOn :
      (rs : List RecordData) (b : Building)
      → All (λ r. is_response r.subrecord_data ≡ false) rs
      → GoesOn
          (if any_identity rs then bytes else b.sr_result_code)
          (add_subrecords now (ok bytes) rs b)
  unfolding add_subrecords any_identity
  add_subrecords-GoesOn [] b h = unfold GoesOn in refl
  add_subrecords-GoesOn (r ∷ rs) b (h, hs) =
      and_next-GoesOn _ _ _ _ (add_subrecord-GoesOn b r.subrecord_data h) λ c e.
        let code : (if any_identity rs then bytes else c.sr_result_code)
            ≡ (if any_identity rs || identifies r.subrecord_data then bytes else b.sr_result_code) =
          unfold code_after in ground (arith, e) in
        subst (λ k. GoesOn k (add_subrecords now (ok bytes) rs c)) code
          (add_subrecords-GoesOn rs c hs)
