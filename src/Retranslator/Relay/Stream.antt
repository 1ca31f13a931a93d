-- ===== src/Retranslator/Relay/Stream.antt =====
-- client.go and hangle.go together: a connection on which records are sent one after the other.
use nav_control.Base.{
  ℕ, zero, suc, ◌+◌, ◌%◌, ◌^◌, ◌<◌, ◌≡◌, refl, sym, ap, subst, ◌∙◌, List, [], ◌∷◌, ◌++◌, length,
  none, some, true, Option, arith, All, length-append,
}
use nav_control.Go.Result.{Result, ok, and_then}
use nav_control.Go.Float.{Float64, IsAccurate}
use nav_control.Egts.Package
use nav_control.Egts.Package.{Package, services, done, egts_pt_appdata}
use nav_control.Egts.NavRecord.{NavRecords}
use nav_control.Egts.Session.{
  read_packet, Outside, Session, Activity, Event, published, wrote, handle_package, note, note_time,
  Connection, closed, add_events, and_receive, with_arrival, receive, process_connection,
}
use nav_control.Egts.Session.Framing.{read_packet-IsShorter, IsShorter}
use nav_control.Egts.Session.Records.{
  counted_in, note-packets_of, counted_in-zero, is_there, packets_of,
}
use nav_control.Retranslator.Sender.{SendPkg, packet_of, received, sent, next_id}
use nav_control.Retranslator.Delivered.{decode-encode-packet_of, received-answered}
use nav_control.Retranslator.Packed.{IsValidSend}
use nav_control.Retranslator.Relay.{
  relayed, after_relay, read_packet-packet_of, handle_package-packet,
}

-- What a sender with that counter writes, one packet after the other.
unfoldable pub stream : Float64 → (id_rec : ℕ) → List SendPkg → Result (List ℕ)
stream f id_rec [] = ok []
stream f id_rec (p ∷ ps) =
    and_then (Package.encode f none (packet_of id_rec p))
      λ done. and_then (stream f (next_id id_rec) ps) λ more. ok (done.1 ++ more)

add_events-closed :
    (before : List Event) (s : Session) (after : List Event)
    → add_events before (closed s after) ≡ closed s (before ++ after)
unfolding add_events
add_events-closed before s after = refl

module _ (f : Float64) (depth : ℕ) (spare : ℕ → List ℕ) (outside : ℕ → Outside) where
  -- Each record is published as it was sent, and answered so that the sender takes it as delivered.
  unfoldable pub Relays : (n id_rec : ℕ) → List SendPkg → List Event → Type 0
  Relays n id_rec [] [] = Unit {0}
  Relays n id_rec [] (e ∷ es) = ⊥
  Relays n id_rec (p ∷ ps) [] = ⊥
  Relays n id_rec (p ∷ ps) (e ∷ []) = ⊥
  Relays n id_rec (p ∷ ps) (wrote b ∷ e ∷ es) = ⊥
  Relays n id_rec (p ∷ ps) (published r ∷ published r' ∷ es) = ⊥
  Relays n id_rec (p ∷ ps) (published r ∷ wrote reply ∷ es) =
      (r ≡ relayed (outside n).now id_rec p)
      × (received f (suc (suc depth)) (spare n) (record { writes = true; chunks = reply ∷ [] }) p
            id_rec
          ≡ (sent true, next_id id_rec))
      × Relays (n + 1) (next_id id_rec) ps es

  noted_time-counted_in :
      (out : Outside) (k : ℕ) (s : Session)
      → counted_in (note_time out s).entry k ≡ counted_in s.entry k
  unfolding note_time
  noted_time-counted_in out k s = at _ s.entry
    where
      at :
          (t : ℕ) (e : Option Activity)
          → counted_in (note (λ a. record a { last_time = t }) e) k ≡ counted_in e k
      at t none = unfold note in refl
      at t (some a) = unfold note counted_in is_there packets_of in refl

  after_relay-counted_in :
      (id_rec k : ℕ) (p : SendPkg) (out : Outside) (s : Session)
      → counted_in (after_relay f id_rec p out s).entry k ≡ counted_in s.entry (suc k)
  unfolding after_relay
  after_relay-counted_in id_rec k p out s =
      noted_time-counted_in out k _ ∙ note-packets_of out.now k (relayed out.now id_rec p) s.entry

  module _ (acc_90 : IsAccurate f f.degrees_90 90) (acc_180 : IsAccurate f f.degrees_180 180)
      (takes : (k : ℕ) (r : NavRecords) → (outside k).publishes r ≡ true) where
    -- A round of the loop on a packet that was sent.
    relay_one :
        (fuel n id_rec : ℕ) (s : Session) (p : SendPkg) (more : List ℕ)
        → IsValidSend p
        → (q : Package) × (bytes reply : List ℕ) × (Package.encode f none (packet_of id_rec p)
            ≡ ok (q, bytes))
          × (0 < length bytes)
          × (received f
                (suc (suc depth))
                (spare n)
                (record { writes = true; chunks = reply ∷ [] })
                p
                id_rec
              ≡ (sent true, next_id id_rec))
          × (receive f (suc (suc depth)) spare outside (suc fuel) n s (bytes ++ more)
              ≡ add_events (published (relayed (outside n).now id_rec p) ∷ wrote reply ∷ []) (
                  receive f
                    (suc (suc depth))
                    spare
                    outside
                    fuel
                    (n + 1)
                    (after_relay f id_rec p (outside n) s)
                    more))
    unfolding receive with_arrival and_receive
    relay_one fuel n id_rec s p more v =
        let (q, bytes, encoded, back) = decode-encode-packet_of f acc_90 acc_180 depth id_rec p v in
        let (read_back, decoded, kind, id, payload) = back (spare n) in
        let (reply, made, accepted) =
          received-answered f acc_90 acc_180 depth id_rec 0 2 (spare n) (id_rec % 2 ^ 16 ∷ []) p v
            (omega arith, tt) (omega arith) in
        let go : Session → List ℕ → Connection =
          λ t rest. receive f (suc (suc depth)) spare outside fuel (n + 1) t rest in
        let taken = read_packet-packet_of f id_rec p v bytes more q encoded in
        let shorter =
          subst (IsShorter (length (bytes ++ more))) taken
            (read_packet-IsShorter (bytes ++ more)) in
        (
          q,
          bytes,
          reply,
          encoded,
          unfold IsShorter in omega (arith, length-append bytes more, shorter),
          accepted,
          ap (with_arrival f (suc (suc depth)) spare outside n go s) taken
              ∙ ap (λ o. and_receive (λ t. go t more) (handle_package (outside n) f s o)) decoded
              ∙ ap (and_receive (λ t. go t more)) (
                  handle_package-packet f id_rec p (outside n) s reply read_back (takes n) made kind
                    id payload),
        )

    streams :
        (id_rec : ℕ) (ps : List SendPkg)
        → All IsValidSend ps
        → (bytes : List ℕ) × (stream f id_rec ps ≡ ok bytes)
    unfolding stream
    streams id_rec [] valid = ([], refl)
    streams id_rec (p ∷ ps) (v, valid) =
        let (more, streamed) = streams (next_id id_rec) ps valid in
        let (q, bytes, encoded, back) = decode-encode-packet_of f acc_90 acc_180 depth id_rec p v in
        (bytes ++ more, rw (encoded, streamed) refl)

    relay_list :
        (fuel n id_rec : ℕ) (s : Session) (ps : List SendPkg)
        → All IsValidSend ps
        → (bytes : List ℕ) → stream f id_rec ps ≡ ok bytes
        → length bytes < fuel
        → (s' : Session) × (es : List Event) × (receive f
              (suc (suc depth))
              spare
              outside
              fuel
              n
              s
              bytes
            ≡ closed s' es)
          × Relays n id_rec ps es
          × (packets_of s'.entry ≡ counted_in s.entry (length ps))
    unfolding stream Relays
    relay_list zero n id_rec s ps valid bytes streamed h = absurd (omega (arith, h))
    relay_list (suc fuel) n id_rec s [] valid bytes streamed h =
        let none_left : [] ≡ bytes = ground (arith, streamed) in
        (
          s,
          [],
          subst (λ b. receive f (suc (suc depth)) spare outside (suc fuel) n s b ≡ closed s [])
              none_left (unfold receive with_arrival read_packet in refl),
          tt,
          sym (counted_in-zero s.entry),
        )
    relay_list (suc fuel) n id_rec s (p ∷ ps) (v, valid) bytes streamed h =
        let (more, rest) = streams (next_id id_rec) ps valid in
        let (q, packet, reply, encoded, some_bytes, accepted, round) =
          relay_one fuel n id_rec s p more v in
        let whole_stream : stream f id_rec (p ∷ ps) ≡ ok (packet ++ more) =
          rw (encoded, rest) refl in
        let same : (packet ++ more) ≡ bytes = cc (whole_stream, streamed) in
        let shorter : length more < fuel =
          omega (arith, ap (length {A = ℕ}) same, h, length-append packet more, some_bytes) in
        let (s', es, ran, relays, packets) =
          relay_list fuel (n + 1) (next_id id_rec) (after_relay f id_rec p (outside n) s) ps valid
            more rest shorter in
        (
          s',
          published (relayed (outside n).now id_rec p) ∷ wrote reply ∷ es,
          subst
              (λ b.
                receive f (suc (suc depth)) spare outside (suc fuel) n s b
                ≡ closed s' (published (relayed (outside n).now id_rec p) ∷ wrote reply ∷ es))
              same
              (round
                ∙ (ap (add_events (published (relayed (outside n).now id_rec p) ∷ wrote reply ∷ []))
                      ran
                    ∙ add_events-closed _ s' es)),
          (refl, accepted, relays),
          packets ∙ after_relay-counted_in id_rec (length ps) p (outside n) s,
        )

    -- If the float formulas are accurate, NATS takes every record, and the records to be sent are
    -- valid, then the packets of all of them, with the numbers that the counter gives, are encoded,
    -- and a session that receives them one behind the other, at any depth from 2 on, from any number
    -- of the counter and whatever the spare bytes, runs to the close of the connection: for each
    -- record in order it publishes one navigation record with the number, the client, the time, the
    -- position and the sensors that were sent, and writes one answer, with which `received` succeeds
    -- as accepted and goes on to the next number; and the count of packets of a client that is in
    -- the map has grown by the number of records.
    pub process_connection-stream :
        (id_rec : ℕ) (s : Session) (ps : List SendPkg)
        → All IsValidSend ps
        → (bytes : List ℕ) × (s' : Session) × (es : List Event) × (stream f id_rec ps ≡ ok bytes)
          × (process_connection f (suc (suc depth)) spare outside s bytes ≡ closed s' es)
          × Relays 0 id_rec ps es
          × (packets_of s'.entry ≡ counted_in s.entry (length ps))
    unfolding process_connection
    process_connection-stream id_rec s ps valid =
        let (bytes, streamed) = streams id_rec ps valid in
        let (s', es, ran, relays, packets) =
          relay_list (suc (length bytes)) 0 id_rec s ps valid bytes streamed (omega arith) in
        (bytes, s', es, streamed, ran, relays, packets)
