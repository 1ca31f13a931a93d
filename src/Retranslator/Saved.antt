-- ===== src/Retranslator/Saved.antt =====
-- client.go, sendRec: what is marked as sent.
use nav_control.Base.{
  zero, suc, none, ap, length-append, ℕ, ◌%◌, ◌^◌, ◌≡◌, refl, sym, subst, ◌∙◌, List, [], ◌∷◌, ◌++◌,
  length, get_elem?, some, Bool, true, false, arith, All, append_assoc, inl, inr, Bool-cases,
  if-true, if-false,
}
use nav_control.Go.Result.{Result, ok, err, panic, stuck}
use nav_control.Egts.Package
use nav_control.Egts.Package.{Package}
use nav_control.Go.Float.{Float64}
use nav_control.Retranslator.Sender.{
  await, send_packet, packet_of, SendPkg, Link, Sent, sent, send_failed, send_crashed, Sender,
  received, after_send, send_all, send_rec, next_id,
}

get_elem?-length :
    {A : Type 0} (before : List A) (x : A) (later : List A)
    → get_elem? (before ++ (x ∷ later)) (length before) ≡ some x
get_elem?-length [] x later = refl
get_elem?-length (y ∷ before) x later = get_elem?-length before x later

-- The counter after so many packets that were written.
unfoldable pub counter_after : (start k : ℕ) → ℕ
counter_after start zero = start
counter_after start (suc k) = next_id (counter_after start k)

module _ (f : Float64) (depth : ℕ) (spare : List ℕ) where
  -- A packet that is encoded and written, and whose answer is accepted under that counter.
  pub record IsAnswered (id_rec : ℕ) (item : SendPkg) (link : Link) : Type 0 where
    pub packet : Package
    pub bytes : List ℕ
    pub encoded : Package.encode f none (packet_of id_rec item) ≡ ok (packet, bytes)
    pub written : link.writes ≡ true
    pub accepted : await f depth spare (id_rec % 2 ^ 16) [] link.chunks ≡ sent true

  send_packet-sent :
      (link : Link) (id_rec : ℕ) (r : Result (Package × List ℕ)) (b : Bool)
      → (send_packet f depth spare link id_rec r).0 ≡ sent b
      → (p : Package) × (bytes : List ℕ) × (r ≡ ok (p, bytes))
        × (link.writes ≡ true)
        × (await f depth spare (id_rec % 2 ^ 16) [] link.chunks ≡ sent b)
        × ((send_packet f depth spare link id_rec r).1 ≡ next_id id_rec)
  unfolding send_packet
  send_packet-sent link id_rec (ok (p, bytes)) b e = elim (Bool-cases link.writes) [
    | inl writes ↦
        let branch =
          if-true {A = Sent × ℕ}
            (await f depth spare (id_rec % 2 ^ 16) [] link.chunks, next_id id_rec)
            (send_failed, id_rec) writes in
        (p, bytes, refl, writes, sym (ap (λ x. x.0) branch) ∙ e, ap (λ x. x.1) branch)
    | inr fails ↦
        let branch =
          if-false {A = Sent × ℕ}
            (await f depth spare (id_rec % 2 ^ 16) [] link.chunks, next_id id_rec)
            (send_failed, id_rec) fails in
        absurd (failed_lem (sym (ap (λ x. x.0) branch) ∙ e))
  ]
    where
      failed_lem : send_failed ≡ sent b → ⊥
      failed_lem h = cc h
  send_packet-sent link id_rec (err x) b e = absurd (ground (arith, e))
  send_packet-sent link id_rec panic b e = absurd (ground (arith, e))
  send_packet-sent link id_rec stuck b e = absurd (ground (arith, e))

  received-IsAnswered :
      (link : Link) (p : SendPkg) (id_rec : ℕ)
      → (received f depth spare link p id_rec).0 ≡ sent true
      → IsAnswered id_rec p link
  unfolding received
  received-IsAnswered link p id_rec e =
      let (packet, bytes, encoded, written, accepted, counter) =
        send_packet-sent link id_rec (Package.encode f none (packet_of id_rec p)) true e in
      record {
        packet = packet;
        bytes = bytes;
        encoded = encoded;
        written = written;
        accepted = accepted;
      }

  received-counts :
      (link : Link) (p : SendPkg) (id_rec : ℕ) (b : Bool)
      → (received f depth spare link p id_rec).0 ≡ sent b
      → (received f depth spare link p id_rec).1 ≡ next_id id_rec
  unfolding received
  received-counts link p id_rec b e =
      let (packet, bytes, encoded, written, accepted, counter) =
        send_packet-sent link id_rec (Package.encode f none (packet_of id_rec p)) b e in
      counter

module _ (f : Float64) (depth : ℕ) (spare : List ℕ) (start : ℕ)
    (packages : List (SendPkg × Link)) where
  -- One of the packages has that identifier, and its answer was accepted under the counter of its turn.
  pub record IsConfirmed (id : ℕ) : Type 0 where
    pub position : ℕ
    pub item : SendPkg
    pub link : Link
    pub is_there : get_elem? packages position ≡ some (item, link)
    pub has_id : item.id_gl ≡ id
    pub answered : IsAnswered f depth spare (counter_after start position) item link

  abbrev pub AllConfirmed : List (List ℕ) → Type 0
  AllConfirmed = All (All IsConfirmed)

  All-snoc :
      {A : Type 0} (P : A → Type 0) (xs : List A) (x : A) → All P xs → P x → All P (xs ++ (x ∷ []))
  All-snoc P [] x h p = (p, tt)
  All-snoc P (y ∷ ys) x h p = (h.0, All-snoc P ys x h.1 p)

  after_send-confirmed :
      (n : ℕ) (more : List ℕ → Sender → Sender) (send : List ℕ) (p : SendPkg) (r : Sent × ℕ)
      (s : Sender)
      → ((ids : List ℕ) (t : Sender)
          → t.id_rec ≡ n
          → All IsConfirmed ids
          → AllConfirmed t.marked
          → AllConfirmed (more ids t).marked)
      → ((b : Bool) → r.0 ≡ sent b → r.1 ≡ n)
      → (r.0 ≡ sent true → IsConfirmed p.id_gl)
      → All IsConfirmed send
      → AllConfirmed s.marked
      → AllConfirmed (after_send f depth spare more send p r s).marked
  unfolding after_send
  after_send-confirmed n more send p (sent true, m) s later counts own hs h =
      let confirmed = All-snoc IsConfirmed send p.id_gl hs (own refl) in
      later _ _ (counts true refl) confirmed (All-snoc (All IsConfirmed) s.marked _ h confirmed)
  after_send-confirmed n more [] p (sent false, m) s later counts own hs h = h
  after_send-confirmed n more (i ∷ send) p (sent false, m) s later counts own hs h =
      later _ _ (counts false refl) hs (All-snoc (All IsConfirmed) s.marked _ h hs)
  after_send-confirmed n more send p (send_failed, m) s later counts own hs h = h
  after_send-confirmed n more send p (send_crashed, m) s later counts own hs h = h

  send_all-confirmed :
      (before later : List (SendPkg × Link)) (send : List ℕ) (s : Sender)
      → before ++ later ≡ packages
      → s.id_rec ≡ counter_after start (length before)
      → All IsConfirmed send
      → AllConfirmed s.marked
      → AllConfirmed (send_all f depth spare send later s).marked
  unfolding send_all
  send_all-confirmed before [] send s e number hs h = h
  send_all-confirmed before ((p, link) ∷ later) send s e number hs h =
      let one_more : length (before ++ ((p, link) ∷ [])) ≡ suc (length before) =
        omega (arith, length-append before ((p, link) ∷ [])) in
      after_send-confirmed (next_id s.id_rec) _ send p (received f depth spare link p s.id_rec) s
        (λ ids t counted hi ht.
          send_all-confirmed (before ++ ((p, link) ∷ [])) later ids t
            (append_assoc before ((p, link) ∷ []) later ∙ e)
            (counted
              ∙ ap next_id number
              ∙ unfold counter_after in sym (ap (counter_after start) one_more))
            hi ht)
        (received-counts f depth spare link p s.id_rec)
        (λ accepted. record {
          position = length before;
          item = p;
          link = link;
          is_there =
              subst (λ xs. get_elem? xs (length before) ≡ some (p, link)) e
                (get_elem?-length before (p, link) later);
          has_id = refl;
          answered =
              subst (λ n. IsAnswered f depth spare n p link) number
                (received-IsAnswered f depth spare link p s.id_rec accepted);
        })
        hs h

  -- If `sendRec` starts with nothing saved and with the counter at `start`, then each identifier in
  -- each list that it saves is that of one of the records it was given, whose packet, under the
  -- counter of its turn (`start` advanced once for each record before it), was encoded and written,
  -- and for which the bytes that arrived held an answer accepted under that counter.
  pub send_rec-confirmed :
      (dials : Bool) (s : Sender) (saved : List (List ℕ))
      → s.marked ≡ []
      → s.id_rec ≡ start
      → (send_rec f depth spare dials packages s).marked ≡ saved
      → AllConfirmed saved
  unfolding send_rec
  send_rec-confirmed dials s saved none_saved number e =
      subst AllConfirmed e (elim (Bool-cases s.is_open) [
        | inl up ↦
            rw (send_rec, if-true _ _ up)
              (send_all-confirmed [] packages [] s refl first_lem tt saved_lem)
        | inr down ↦ elim (Bool-cases dials) [
          | inl dialled ↦
              rw (send_rec, if-false _ _ down, if-true _ _ dialled)
                (send_all-confirmed [] packages [] (record s { is_open = true }) refl first_lem tt
                  saved_lem)
          | inr failed ↦ rw (send_rec, if-false _ _ down, if-false _ _ failed) saved_lem
        ]
      ])
    where
      first_lem : s.id_rec ≡ counter_after start 0
      first_lem = unfold counter_after in number

      saved_lem : AllConfirmed s.marked
      saved_lem = subst AllConfirmed (sym none_saved) tt
