-- ===== src/Arnavi/Framing.antt =====
-- handler.go: the bytes of a session mean the same however they are cut.
use nav_control.Base.{
  ℕ, zero, suc, ◌≤◌, ◌<◌, ◌≡◌, ◌≢◌, refl, sym, ap, ◌∙◌, List, [], ◌++◌, append_assoc, length,
  length-append, drop, true, if-true, inl, inr, arith,
}
use nav_control.Go.Result.{Result, ok, err, panic, stuck}
use nav_control.Go.Reader.{run}
use nav_control.Arnavi.Header.{HeadOne, decode}
use nav_control.Arnavi.Tags.{Float32}
use nav_control.Arnavi.Session.{
  ClientArnavi, Event, Outside, Round, waits, uses, ends, Turn, ready, closed, endless, step,
  add_events, after_round, rounds, authorize, process_existing_data,
}
use nav_control.Arnavi.Rounds.{length-drop, waits-cases, IsUse, step-IsUse, step-more, drop-more}

module _ (f : Float32) (out : Outside) where
  add_events-ends :
      (events : List Event) (t : Turn) → t ≢ endless → add_events f out events t ≢ endless
  unfolding add_events
  add_events-ends events (ready c rest later) h e = ground (arith, e)
  add_events-ends events (closed later) h e = ground (arith, e)
  add_events-ends events endless h e = h refl

  add_events-none : (t : Turn) → add_events f out [] t ≡ t
  unfolding add_events
  add_events-none (ready c rest later) = refl
  add_events-none (closed later) = refl
  add_events-none endless = refl

  add_events-twice :
      (e1 e2 : List Event) (t : Turn)
      → add_events f out (e1 ++ e2) t ≡ add_events f out e1 (add_events f out e2 t)
  unfolding add_events
  add_events-twice e1 e2 (ready c rest e3) = ap (ready c rest) (append_assoc e1 e2 e3)
  add_events-twice e1 e2 (closed e3) = ap closed (append_assoc e1 e2 e3)
  add_events-twice e1 e2 endless = refl

  shorter :
      (size : ℕ) (buf : List ℕ) → 0 < size → size ≤ length buf → length (drop size buf) < length buf
  shorter size buf h hn = omega (arith, h, length-drop size buf hn)

  module _ (k : ClientArnavi → List ℕ → Turn) (c : ClientArnavi) (buf : List ℕ) where
    after_round-ends :
        (r : Round)
        → IsUse f out (length buf) r
        → ((d : ClientArnavi) (rest : List ℕ) → length rest < length buf → k d rest ≢ endless)
        → after_round f out k c buf r ≢ endless
    unfolding after_round IsUse
    after_round-ends waits u h e = ground (arith, e)
    after_round-ends (uses d size events) (some_bytes, there) h e =
        add_events-ends events _ (h d (drop size buf) (shorter size buf some_bytes there)) e
    after_round-ends ends u h e = ground (arith, e)

    after_round-same :
        (l : ClientArnavi → List ℕ → Turn) (r : Round)
        → IsUse f out (length buf) r
        → ((d : ClientArnavi) (rest : List ℕ) → length rest < length buf → k d rest ≡ l d rest)
        → after_round f out k c buf r ≡ after_round f out l c buf r
    unfolding after_round IsUse
    after_round-same l waits u h = refl
    after_round-same l (uses d size events) (some_bytes, there) h =
        ap (add_events f out events) (h d (drop size buf) (shorter size buf some_bytes there))
    after_round-same l ends u h = refl

  -- The loop comes to an end.
  pub rounds-finish :
      (fuel : ℕ) (c : ClientArnavi) (buf : List ℕ)
      → length buf < fuel
      → rounds f out fuel c buf ≢ endless
  unfolding rounds
  rounds-finish zero c buf h = absurd (omega arith)
  rounds-finish (suc fuel) c buf h =
      after_round-ends _ c buf (step f out c buf) (step-IsUse f out c buf)
        (λ d rest less. rounds-finish fuel d rest (omega (arith, h, less)))

  -- The fuel does not matter, if there is enough.
  rounds-fuel :
      (m n : ℕ) (c : ClientArnavi) (buf : List ℕ)
      → length buf < m
      → length buf < n
      → rounds f out m c buf ≡ rounds f out n c buf
  unfolding rounds
  rounds-fuel zero n c buf hm hn = absurd (omega arith)
  rounds-fuel (suc m) zero c buf hm hn = absurd (omega arith)
  rounds-fuel (suc m) (suc n) c buf hm hn =
      after_round-same _ c buf _ (step f out c buf) (step-IsUse f out c buf)
        (λ d rest less. rounds-fuel m n d rest (omega (arith, hm, less)) (omega (arith, hn, less)))

  -- What the loop does with more bytes, after it has waited.
  unfoldable pub go_on : Turn → List ℕ → Turn
  go_on (ready c rest events) more =
      add_events f out events (rounds f out (suc (length (rest ++ more))) c (rest ++ more))
  go_on (closed events) more = closed events
  go_on endless more = endless

  go_on-add_events :
      (events : List Event) (t : Turn) (more : List ℕ)
      → go_on (add_events f out events t) more ≡ add_events f out events (go_on t more)
  unfolding go_on add_events
  go_on-add_events events (ready c rest later) more = add_events-twice events later _
  go_on-add_events events (closed later) more = refl
  go_on-add_events events endless more = refl

  -- A round that does not wait, with more bytes.
  after_round-append :
      (k l : ClientArnavi → List ℕ → Turn) (c : ClientArnavi) (buf more : List ℕ) (r : Round)
      → IsUse f out (length buf) r
      → r ≢ waits
      → ((d : ClientArnavi) (rest : List ℕ)
          → length rest < length buf
          → k d (rest ++ more) ≡ go_on (l d rest) more)
      → after_round f out k c (buf ++ more) r ≡ go_on (after_round f out l c buf r) more
  unfolding after_round IsUse
  after_round-append k l c buf more waits u busy h = absurd (busy refl)
  after_round-append k l c buf more (uses d size events) (some_bytes, there) busy h =
      rw (drop-more size buf more there, h d (drop size buf) (shorter size buf some_bytes there))
        (sym (go_on-add_events events (l d (drop size buf)) more))
  after_round-append k l c buf more ends u busy h = unfold go_on in refl

  rounds-append :
      (m n : ℕ) (c : ClientArnavi) (buf more : List ℕ)
      → length (buf ++ more) < m
      → length buf < n
      → rounds f out m c (buf ++ more) ≡ go_on (rounds f out n c buf) more
  unfolding rounds
  rounds-append zero n c buf more hm hn = absurd (omega arith)
  rounds-append (suc m) zero c buf more hm hn = absurd (omega arith)
  rounds-append (suc m) (suc n) c buf more hm hn = elim (waits-cases (step f out c buf)) [
    | inl idle ↦ rw idle (
        unfold go_on after_round in
        rounds-fuel (suc m) (suc (length (buf ++ more))) c (buf ++ more) hm (omega arith)
        ∙ sym (add_events-none (rounds f out (suc (length (buf ++ more))) c (buf ++ more))))
    | inr busy ↦ elim (step-more f out c buf more) [
      | inl idle ↦ absurd (busy idle)
      | inr same ↦ rw same (
          after_round-append _ _ c buf more (step f out c buf) (step-IsUse f out c buf) busy
            (λ d rest less.
              rounds-append m n d rest more
                (omega (arith, hm, less, length-append buf more, length-append rest more))
                (omega (arith, hn, less))))
    ]
  ]

  -- For a terminal that is authorized, handling bytes and more bytes at once is handling the first
  -- and then, unless the connection is closed, the loop on what they leave with the others behind
  -- it: the same client, the same bytes left, and the same answers and records in order.
  pub process_existing_data-append :
      (c : ClientArnavi) (buf more : List ℕ)
      → c.authorization ≡ true
      → process_existing_data f out c (buf ++ more) ≡ go_on (process_existing_data f out c buf) more
  unfolding process_existing_data
  process_existing_data-append c buf more known =
      if-true _ _ known
      ∙ rounds-append (suc (length (buf ++ more))) (suc (length buf)) c buf more (omega arith)
          (omega arith)
      ∙ ap (λ t. go_on t more) (sym (if-true _ _ known))

  authorize-finishes :
      (c : ClientArnavi) (buf : List ℕ) (r : Result HeadOne) → authorize f out c buf r ≢ endless
  unfolding authorize
  authorize-finishes c buf (ok head) e = ground (arith, e)
  authorize-finishes c buf (err x) e = ground (arith, e)
  authorize-finishes c buf panic e = ground (arith, e)
  authorize-finishes c buf stuck e = ground (arith, e)

  -- The handling of the bytes of a connection never runs out of fuel.
  pub process_existing_data-ends :
      (c : ClientArnavi) (buf : List ℕ) → process_existing_data f out c buf ≢ endless
  unfolding process_existing_data
  process_existing_data-ends c buf e =
      let of_loop = rounds-finish (suc (length buf)) c buf (omega arith) in
      let of_start = authorize-finishes c buf (run decode buf) in
      ground (arith, e, of_loop, of_start)
