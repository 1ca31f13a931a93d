-- ===== src/Egts/Session/Answered.antt =====
-- process_connection: a packet of data is published and answered.
use nav_control.Base.{
  ℕ, suc, ◌+◌, ◌*◌, ◌^◌, ◌<◌, ◌≡◌, refl, ap, ◌∙◌, List, [], ◌∷◌, ◌++◌, length, none, some, true,
  arith, All, Option,
}
use nav_control.Go.Result.{ok}
use nav_control.Go.Float.{Float64, IsAccurate}
use nav_control.Egts.Service.{ServiceDataRecord}
use nav_control.Egts.Package.{services}
use nav_control.Egts.NavRecord.{NavRecords}
use nav_control.Egts.Export.Identity.{IsReport}
use nav_control.Egts.Reply.{confirmations, create_pt_response}
use nav_control.Egts.Reply.Confirmed.{decode-create_pt_response}
use nav_control.Egts.ResultReply.{create_sr_result_code}
use nav_control.Egts.ResultReply.Decoded.{decode-create_sr_result_code}
use nav_control.Egts.Session.{
  Activity, Event, wrote, Outside, Session, Handling, answers, note_time, note, goes_on,
  handle_data, reply_to, after_records,
}
use nav_control.Egts.Session.Records.{
  record_numbers, publications, Exports, last_type, last_code, packets_of, counted_in,
  handle_records-finishes,
}

length-record_numbers : (recs : List ServiceDataRecord) → length (record_numbers recs) ≡ length recs
unfolding record_numbers
length-record_numbers [] = refl
length-record_numbers (r ∷ rs) = ap suc (length-record_numbers rs)

-- The answer to an identification, if one was made.
unfoldable pub written_code : List ℕ → List Event
written_code [] = []
written_code (b ∷ bytes) = wrote (b ∷ bytes) ∷ []

answers-written_code :
    (out : Outside) (h : Handling) (reply code : List ℕ) (es : List Event)
    → h.sr_result_code ≡ code
    → h.events ≡ es
    → answers out h reply ≡ es ++ (wrote reply ∷ written_code code)
unfolding answers written_code
answers-written_code out h reply [] es e e' = rw (answers, e, e') refl
answers-written_code out h reply (b ∷ bytes) es e e' = rw (answers, e, e') refl

noted-packets_of :
    (change : Activity → Activity) (e : Option Activity)
    → ((a : Activity) → (change a).count_packets ≡ a.count_packets)
    → packets_of (note change e) ≡ packets_of e
unfolding note packets_of
noted-packets_of change none h = refl
noted-packets_of change (some a) h = h a

note_time-packets_of :
    (out : Outside) (s : Session) → packets_of (note_time out s).entry ≡ packets_of s.entry
unfolding note_time
note_time-packets_of out s = noted-packets_of _ s.entry (λ a. refl)

module _ (f : Float64) (acc_90 : IsAccurate f f.degrees_90 90)
    (acc_180 : IsAccurate f f.degrees_180 180) where
  -- If the float formulas are accurate, NATS takes every record, the packet identifier and the
  -- record numbers have 16 bits, no record has a confirmation of the terminal in it, and 6 bytes for
  -- each record and 21 more are below 2^16, then the packet goes on: for each record in order
  -- navigation records are published under its number, one for each position and each reading before
  -- the first position, and then one answer is written, which confirms all record numbers under the
  -- type of service of the last record, followed by the result code if a record had an
  -- identification in it; and the count of packets of a client that is in the map has grown by the
  -- number of records.
  pub handle_data-answers :
      (out : Outside) (s : Session) (pid : ℕ) (recs : List ServiceDataRecord)
      → ((n : NavRecords) → out.publishes n ≡ true)
      → pid < 2 ^ 16
      → All IsReport recs
      → All (λ n. n < 2 ^ 16) (record_numbers recs)
      → 6 * length recs + 21 < 2 ^ 16
      → (reply code : List ℕ) × (ns : List NavRecords) × (s' : Session) × (create_pt_response f pid
            0
            (last_type 0 recs)
            (confirmations (record_numbers recs))
          ≡ ok reply)
        × (create_sr_result_code f pid 0 ≡ ok code)
        × (handle_data out f s pid (some (services recs))
            ≡ goes_on s' (publications ns ++ (wrote reply ∷ written_code (last_code code [] recs))))
        × Exports recs ns
        × (packets_of s'.entry ≡ counted_in s.entry (length recs))
  unfolding handle_data after_records reply_to
  handle_data-answers out s pid recs takes hp reports numbers small =
      let (reply, made, back) =
        decode-create_pt_response f pid 0 (last_type 0 recs) acc_90 acc_180 0 (record_numbers recs)
          hp numbers (omega (arith, small, length-record_numbers recs)) in
      let (code, coded, code_back) = decode-create_sr_result_code f pid 0 acc_90 acc_180 0 in
      let start : Handling = record {
        session = s;
        service_type = 0;
        sr_responses = [];
        sr_result_code = [];
        events = [];
      } in
      let (ns, h, ran, exports, events, responses, kind, last, there, packets) =
        handle_records-finishes out takes code recs start reports in
      (
        reply,
        code,
        ns,
        note_time out h.session,
        made,
        coded,
        rw (coded, ran, kind, responses, made)
            (ap (goes_on (note_time out h.session))
              (answers-written_code out h reply _ _ last events)),
        exports,
        note_time-packets_of out h.session ∙ packets,
      )
