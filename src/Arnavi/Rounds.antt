-- ===== src/Arnavi/Rounds.antt =====
-- handler.go: a round of the loop over the bytes, with more bytes behind them.
use nav_control.Base.{
  ℕ, zero, suc, ◌+◌, ◌*◌, ◌≤◌, ◌<◌, ◌≡◌, ◌≢◌, refl, ap, List, [], ◌∷◌, ◌++◌, length, length-append,
  take, drop, Option, none, some, true, false, ltb, ◌==◌, ge→ltb, Bool-cases, if-true, if-false,
  inl, inr, ◌⊎◌, arith,
}
use nav_control.Go.Result.{Result, ok, err, panic, stuck}
use nav_control.Go.Words.{le_uint}
use nav_control.Arnavi.Crc.{sig_pack_end}
use nav_control.Arnavi.Header.{scan_packed, ScanPacket, scan_packet}
use nav_control.Arnavi.Tags.{Float32}
use nav_control.Arnavi.Packet.{PacketS, decode_packet}
use nav_control.Arnavi.Session.{
  ClientArnavi, Outside, Round, waits, uses, ends, save_packet, start_parcel, whole_packet,
  finish_parcel, step,
}

take-more : (n : ℕ) (a b : List ℕ) → n ≤ length a → take n (a ++ b) ≡ take n a
take-more zero a b h = refl
take-more (suc n) [] b h = absurd (omega arith)
take-more (suc n) (x ∷ a) b h = ap (◌∷◌ x) (take-more n a b (omega (arith, h)))

pub drop-more : (n : ℕ) (a b : List ℕ) → n ≤ length a → drop n (a ++ b) ≡ drop n a ++ b
drop-more zero a b h = refl
drop-more (suc n) [] b h = absurd (omega arith)
drop-more (suc n) (x ∷ a) b h = drop-more n a b (omega (arith, h))

pub length-drop : (n : ℕ) (a : List ℕ) → n ≤ length a → length (drop n a) + n ≡ length a
length-drop zero a h = omega arith
length-drop (suc n) [] h = absurd (omega arith)
length-drop (suc n) (x ∷ a) h = omega (arith, length-drop n a (omega (arith, h)))

pub waits-cases : (r : Round) → (r ≡ waits) ⊎ (r ≢ waits)
waits-cases waits = inl refl
waits-cases (uses d size events) = inr (λ e. ground (arith, e))
waits-cases ends = inr (λ e. ground (arith, e))

nonempty : (xs : List ℕ) → 0 < length xs → (x : ℕ) × (ys : List ℕ) × (xs ≡ x ∷ ys)
nonempty [] h = absurd (omega arith)
nonempty (x ∷ ys) h = (x, ys, refl)

module _ (f : Float32) where
  -- A packet that is all there is decoded the same with more behind it.
  decode_packet-more :
      (kind low high : ℕ) (rest more : List ℕ)
      → (low + 256 * high) + 5 ≤ length rest
      → decode_packet f (kind ∷ low ∷ high ∷ (rest ++ more))
        ≡ decode_packet f (kind ∷ low ∷ high ∷ rest)
  unfolding decode_packet
  decode_packet-more kind low high [] more h = absurd (omega arith)
  decode_packet-more kind low high (a ∷ []) more h = absurd (omega arith)
  decode_packet-more kind low high (a ∷ b ∷ []) more h = absurd (omega arith)
  decode_packet-more kind low high (a ∷ b ∷ c ∷ []) more h = absurd (omega arith)
  decode_packet-more kind low high (a ∷ b ∷ c ∷ d ∷ rest) more h =
      let size = le_uint (low ∷ high ∷ []) in
      let within : size ≤ length rest = omega (arith, h) in
      let (x, ys, split) =
        nonempty (drop size rest) (omega (arith, h, length-drop size rest within)) in
      rw (take-more size rest more within, drop-more size rest more within, split) refl

module _ (f : Float32) (out : Outside) where
  -- A round uses some of the bytes, and no more than there are.
  unfoldable pub IsUse : ℕ → Round → Type 0
  IsUse n waits = Unit {0}
  IsUse n (uses d size events) = (0 < size) × (size ≤ n)
  IsUse n ends = Unit {0}

  save_packet-IsUse :
      (c : ClientArnavi) (size n : ℕ) (r : Result (PacketS f))
      → 0 < size
      → size ≤ n
      → IsUse n (save_packet f out c size r)
  unfolding IsUse save_packet
  save_packet-IsUse c size n (ok p) h hn = elim (Bool-cases out.publishes) [
    | inl e ↦ rw (save_packet, e) (h, hn)
    | inr e ↦ rw (save_packet, e) tt
  ]
  save_packet-IsUse c size n (err e) h hn = tt
  save_packet-IsUse c size n panic h hn = tt
  save_packet-IsUse c size n stuck h hn = tt

  start_parcel-IsUse :
      (c : ClientArnavi) (n : ℕ) (r : Result ℕ) → 2 ≤ n → IsUse n (start_parcel f out c r)
  unfolding IsUse start_parcel
  start_parcel-IsUse c n (ok id) h = (omega arith, h)
  start_parcel-IsUse c n (err e) h = tt
  start_parcel-IsUse c n panic h = tt
  start_parcel-IsUse c n stuck h = tt

  whole_packet-IsUse :
      (c : ClientArnavi) (buf : List ℕ) (s : Option ScanPacket)
      → IsUse (length buf) (whole_packet f out c buf s)
  unfolding IsUse whole_packet
  whole_packet-IsUse c buf none = tt
  whole_packet-IsUse c buf (some scp) =
      elim (Bool-cases (ltb (length buf) (scp.length_packet + 8))) [
        | inl short ↦ rw (whole_packet, short) tt
        | inr long ↦
            rw (whole_packet, long)
              (save_packet-IsUse c (scp.length_packet + 8) (length buf) _ (omega arith)
                (ground (arith, long)))
      ]

  pub step-IsUse : (c : ClientArnavi) (buf : List ℕ) → IsUse (length buf) (step f out c buf)
  unfolding IsUse step finish_parcel
  step-IsUse c [] = tt
  step-IsUse c (b ∷ buf) = elim (Bool-cases (c.id == 0)) [
    | inl none_yet ↦ elim (Bool-cases (length (b ∷ buf) == 1)) [
      | inl one ↦ rw (step, if-true _ _ none_yet, if-true _ _ one) tt
      | inr more ↦
          rw (step, if-true _ _ none_yet, if-false _ _ more)
            (start_parcel-IsUse c (length (b ∷ buf)) (scan_packed (b ∷ buf)) (ground (arith, more)))
    ]
    | inr parcel ↦ elim (Bool-cases (b == sig_pack_end)) [
      | inl over ↦ elim (Bool-cases out.writes) [
        | inl up ↦
            rw (step, if-false _ _ parcel, if-true _ _ over, finish_parcel, if-true _ _ up)
              (omega arith, omega arith)
        | inr down ↦
            rw (step, if-false _ _ parcel, if-true _ _ over, finish_parcel, if-false _ _ down) tt
      ]
      | inr on ↦
          rw (step, if-false _ _ parcel, if-false _ _ on)
            (whole_packet-IsUse c (b ∷ buf) (scan_packet (b ∷ buf)))
    ]
  ]

  -- A round that does not wait is the same with more bytes.
  whole_packet-more :
      (c : ClientArnavi) (buf more : List ℕ)
      → (whole_packet f out c buf (scan_packet buf) ≡ waits)
        ⊎ (whole_packet f out c (buf ++ more) (scan_packet (buf ++ more))
            ≡ whole_packet f out c buf (scan_packet buf))
  unfolding whole_packet scan_packet
  whole_packet-more c [] more = inl refl
  whole_packet-more c (k ∷ []) more = inl refl
  whole_packet-more c (k ∷ l ∷ []) more = inl refl
  whole_packet-more c (k ∷ l ∷ h ∷ rest) more =
      elim (Bool-cases (ltb (length (k ∷ l ∷ h ∷ rest)) (le_uint (l ∷ h ∷ []) + 8))) [
        | inl short ↦ inl (rw short refl)
        | inr long ↦
            let enough : l + 256 * h + 5 ≤ length rest = ground (arith, long) in
            let longer : ltb (length (k ∷ l ∷ h ∷ (rest ++ more))) (le_uint (l ∷ h ∷ []) + 8)
                ≡ false =
              ge→ltb _ _ (omega (arith, enough, length-append rest more)) in
            inr (rw (long, longer, decode_packet-more f k l h rest more enough) refl)
      ]

  pub step-more :
      (c : ClientArnavi) (buf more : List ℕ)
      → (step f out c buf ≡ waits) ⊎ (step f out c (buf ++ more) ≡ step f out c buf)
  unfolding step scan_packed
  step-more c [] more = inl refl
  step-more c (b ∷ buf) more = elim (Bool-cases (c.id == 0)) [
    | inl none_yet ↦ start_lem buf none_yet
    | inr parcel ↦ elim (Bool-cases (b == sig_pack_end)) [
      | inl over ↦ inr (rw (parcel, over) refl)
      | inr on ↦ elim (whole_packet-more c (b ∷ buf) more) [
        | inl w ↦ inl (rw (parcel, on) w)
        | inr same ↦ inr (rw (parcel, on) same)
      ]
    ]
  ]
    where
      start_lem :
          (xs : List ℕ)
          → (c.id == 0) ≡ true
          → (step f out c (b ∷ xs) ≡ waits)
            ⊎ (step f out c (b ∷ (xs ++ more)) ≡ step f out c (b ∷ xs))
      start_lem [] e = inl (rw e refl)
      start_lem (id ∷ xs) e = inr (rw e (ground arith))
