-- ===== src/Egts/Session/Records.antt =====
-- The loop over the records of a packet: each is published once, in order, and noted for its confirmation.
use nav_control.Base.{
  ℕ, suc, ◌+◌, ◌%◌, ◌^◌, ◌≡◌, refl, sym, ap, ◌∙◌, List, [], ◌∷◌, ◌++◌, length, append-nil,
  append_assoc, Option, none, some, Bool, true, false, if◌then◌else◌, arith, All,
}
use nav_control.Go.Result.{ok}
use nav_control.Egts.Service.{ServiceDataRecord}
use nav_control.Egts.Export.{Building, Round, built, leaves, crashed, start_record, exported}
use nav_control.Egts.NavRecord.{NavRecords}
use nav_control.Egts.Export.Counts.{
  positions, early_readings, Counts, Returns, add_subrecords-start_record,
}
use nav_control.Egts.Export.Identity.{IsReport, any_identity, GoesOn, add_subrecords-GoesOn}
use nav_control.Egts.Session.{
  Activity, Event, published, Outside, note, note_record, Handling, finished, publish,
  after_subrecords, handle_record, and_handle, handle_records,
}

unfoldable pub record_numbers : List ServiceDataRecord → List ℕ
record_numbers [] = []
record_numbers (rec ∷ recs) = rec.record_number ∷ record_numbers recs

unfoldable pub publications : List NavRecords → List Event
publications [] = []
publications (n ∷ ns) = published n ∷ publications ns

-- What a record with that number, so many positions and so many readings before them is exported as.
unfoldable pub Exports : List ServiceDataRecord → List NavRecords → Type 0
Exports [] [] = Unit {0}
Exports [] (n ∷ ns) = ⊥
Exports (rec ∷ recs) [] = ⊥
Exports (rec ∷ recs) (n ∷ ns) =
    (n.packet_id ≡ rec.record_number % 2 ^ 32)
    × (length n.rec_nav ≡ positions rec.record_data_set + early_readings rec.record_data_set)
    × Exports recs ns

unfoldable pub last_type : ℕ → List ServiceDataRecord → ℕ
last_type kind [] = kind
last_type kind (rec ∷ recs) = last_type rec.source_service_type recs

unfoldable pub last_code : (bytes code : List ℕ) → List ServiceDataRecord → List ℕ
last_code bytes code [] = code
last_code bytes code (rec ∷ recs) =
    last_code bytes (if any_identity rec.record_data_set then bytes else code) recs

unfoldable pub packets_of : Option Activity → ℕ
packets_of none = 0
packets_of (some a) = a.count_packets

unfoldable pub is_there : Option Activity → Bool
is_there none = false
is_there (some a) = true

-- What a round that goes well has built.
built_of :
    (i n : ℕ) (code : List ℕ) (r : Round)
    → Counts i n r
    → GoesOn code r
    → (b : Building) × (r ≡ built b) × (length b.rec_nav ≡ n) × (b.sr_result_code ≡ code)
unfolding Counts GoesOn
built_of i n code (built b) h g = (b, refl, h.1, g)
built_of i n code (leaves b) h g = elim g [ ]
built_of i n code crashed h g = elim h [ ]

note-is_there :
    (now : ℕ) (n : NavRecords) (e : Option Activity)
    → is_there (note (note_record now n) e) ≡ is_there e
unfolding is_there note
note-is_there now n none = refl
note-is_there now n (some a) = refl

-- A record counts as a packet of the client, if the client is still there.
unfoldable pub counted_in : Option Activity → ℕ → ℕ
counted_in e k = if is_there e then packets_of e + k else 0

pub note-packets_of :
    (now k : ℕ) (n : NavRecords) (e : Option Activity)
    → counted_in (note (note_record now n) e) k ≡ counted_in e (suc k)
unfolding is_there note counted_in packets_of note_record
note-packets_of now k n none = refl
note-packets_of now k n (some a) = omega arith

pub counted_in-zero : (e : Option Activity) → counted_in e 0 ≡ packets_of e
unfolding counted_in is_there packets_of
counted_in-zero none = refl
counted_in-zero (some a) = omega arith

module _ (out : Outside) (takes : (n : NavRecords) → out.publishes n ≡ true) (bytes : List ℕ) where
  -- How a record without confirmations of the terminal is handled.
  handle_record-finishes :
      (h : Handling) (rec : ServiceDataRecord)
      → IsReport rec
      → (n : NavRecords) × (h' : Handling) × (handle_record out (ok bytes) h rec ≡ finished h')
        × (n.packet_id ≡ rec.record_number % 2 ^ 32)
        × (length n.rec_nav ≡ positions rec.record_data_set + early_readings rec.record_data_set)
        × (h'.events ≡ h.events ++ (published n ∷ []))
        × (h'.sr_responses ≡ h.sr_responses ++ (rec.record_number ∷ []))
        × (h'.service_type ≡ rec.source_service_type)
        × (h'.sr_result_code
            ≡ (if any_identity rec.record_data_set then bytes else h.sr_result_code))
        × (h'.session.entry ≡ note (note_record out.now n) h.session.entry)
  unfolding handle_record after_subrecords publish exported Returns
  handle_record-finishes h rec report =
      let counts =
        add_subrecords-start_record (out.now % 2 ^ 32) h.session.client h.sr_result_code (ok bytes)
          rec tt in
      let goes =
        add_subrecords-GoesOn (out.now % 2 ^ 32) bytes rec.record_data_set
          (start_record h.session.client h.sr_result_code rec) report in
      let (b, all, size, code) = built_of _ _ _ _ counts goes in
      let last : b.sr_result_code
          ≡ (if any_identity rec.record_data_set then bytes else h.sr_result_code) =
        unfold start_record in code in
      (
        exported rec b,
        record {
          session = record {
            client = b.client;
            entry = note (note_record out.now (exported rec b)) h.session.entry;
          };
          service_type = rec.source_service_type;
          sr_responses = h.sr_responses ++ (rec.record_number ∷ []);
          sr_result_code = b.sr_result_code;
          events = h.events ++ (published (exported rec b) ∷ []);
        },
        rw (all, takes _) refl,
        refl,
        size,
        refl,
        refl,
        refl,
        last,
        refl,
      )

  pub handle_records-finishes :
      (recs : List ServiceDataRecord) (h : Handling)
      → All IsReport recs
      → (ns : List NavRecords) × (h' : Handling) × (handle_records out (ok bytes) recs h
          ≡ finished h')
        × Exports recs ns
        × (h'.events ≡ h.events ++ publications ns)
        × (h'.sr_responses ≡ h.sr_responses ++ record_numbers recs)
        × (h'.service_type ≡ last_type h.service_type recs)
        × (h'.sr_result_code ≡ last_code bytes h.sr_result_code recs)
        × (is_there h'.session.entry ≡ is_there h.session.entry)
        × (packets_of h'.session.entry ≡ counted_in h.session.entry (length recs))
  unfolding handle_records and_handle Exports publications record_numbers last_type last_code
  handle_records-finishes [] h reports = (
    [],
    h,
    refl,
    tt,
    sym (append-nil _),
    sym (append-nil _),
    refl,
    refl,
    refl,
    sym (counted_in-zero h.session.entry),
  )
  handle_records-finishes (rec ∷ recs) h (report, reports) =
      let (n, g, first, id, size, events, numbers, kind, code, entry) =
        handle_record-finishes h rec report in
      let (ns, h', others, rest, events', numbers', kind', code', there', packets') =
        handle_records-finishes recs g reports in
      (
        n ∷ ns,
        h',
        rw first others,
        (id, size, rest),
        events'
            ∙ ap (λ es. es ++ publications ns) events
            ∙ append_assoc h.events (published n ∷ []) (publications ns),
        numbers'
            ∙ ap (λ es. es ++ record_numbers recs) numbers
            ∙ append_assoc h.sr_responses (rec.record_number ∷ []) (record_numbers recs),
        kind' ∙ ap (λ k. last_type k recs) kind,
        code' ∙ ap (λ c. last_code bytes c recs) code,
        there' ∙ ap is_there entry ∙ note-is_there out.now n h.session.entry,
        packets'
            ∙ ap (λ e. counted_in e (length recs)) entry
            ∙ note-packets_of out.now (length recs) n h.session.entry,
      )
