-- ===== src/Arnavi/Tags.antt =====
-- arn_tags.go: the tags of a packet.
use nav_control.Base.{
  ℕ, zero, suc, ◌+◌, ◌-◌, ◌*◌, ◌/◌, ◌%◌, ◌≤◌, ◌≡◌, refl, List, [], ◌∷◌, ◌++◌, replicate, length,
  take, drop, set, if◌then◌else◌, ltb, ◌==◌, arith, bit_or, bit_and, Bool-cases, inl, inr, ge→ltb,
}
use nav_control.Go.Result.{Result, ok, and_then}
use nav_control.Go.Reader.{Reader, read_byte, read}
use nav_control.Go.Words.{le_uint}

-- What the code uses of float32: the coordinate that four bytes stand for, with its rounding and its
-- conversion to uint32; the four bytes of a coordinate; the speed of a byte, and the byte of a speed.
pub record Float32 : Type 1 where
  pub Carrier : Type 0
  pub zero_speed : Carrier
  pub coordinate : List ℕ → ℕ
  pub bytes_of : ℕ → List ℕ
  pub speed_of : ℕ → Carrier
  pub byte_of_speed : Carrier → ℕ

pub record AllTags : Type 0 where
  pub tag_num : ℕ
  pub val : List ℕ

drop-length : (n : ℕ) (s : List ℕ) → length s ≤ length (drop n s) + n
drop-length zero s = omega arith
drop-length (suc n) [] = omega arith
drop-length (suc n) (b ∷ s) = omega (arith, drop-length n s)

module _ (f : Float32) where
  pub record TagsData : Type 0 where
    pub list_active : ℕ
    pub latitude : ℕ
    pub longitude : ℕ
    pub speed : f.Carrier
    pub satellites : ℕ
    pub altitude : ℕ
    pub course : ℕ
    pub ll : List ℕ
    pub content : List AllTags

  unfoldable pub empty_tags : TagsData
  empty_tags = record {
    list_active = 0;
    latitude = 0;
    longitude = 0;
    speed = f.zero_speed;
    satellites = 0;
    altitude = 0;
    course = 0;
    ll = replicate 8 0;
    content = [];
  }

  -- `binary.Read` into a variable of n bytes that is zero; too few bytes are consumed, and leave it so.
  unfoldable pub read_full : (n : ℕ) → List ℕ → List ℕ × List ℕ
  read_full n s = if ltb (length s) n then (replicate n 0, []) else (take n s, drop n s)

  -- The tags of the liquid levels, TagsLL1 to TagsLL8: a value of two bytes.
  unfoldable pub read_level : (i : ℕ) → TagsData → List ℕ → TagsData × List ℕ
  read_level i r s =
      let value = read_full 2 s in (record r { ll = set r.ll i (le_uint value.0) }, value.1)

  -- A round of the loop behind the number of the tag.
  unfoldable pub read_tag : (tag : ℕ) → TagsData → Reader TagsData
  read_tag tag r s =
      if tag == 3
      then (let value = read_full 4 s in
          ok (
            record r { latitude = f.coordinate value.0; list_active = bit_or r.list_active 1 },
            value.1,
          ))
      else if tag == 4
      then (let value = read_full 4 s in
          ok (
            record r { longitude = f.coordinate value.0; list_active = bit_or r.list_active 2 },
            value.1,
          ))
      else if tag == 5
      then (and_then (read_byte s) λ course. and_then (read_byte course.1) λ altitude.
          and_then (read_byte altitude.1) λ satellites. and_then (read_byte satellites.1) λ speed.
            ok (
              record r {
                course = course.0 * 2;
                altitude = altitude.0 * 10;
                satellites = satellites.0;
                speed = f.speed_of speed.0;
                list_active = bit_or r.list_active 4;
              },
              speed.1,
            ))
      else if ltb 70 tag
      then (if ltb tag 79 then ok (read_level (tag - 71) r s) else other_tag)
      else other_tag
    where
      other_tag : Result (TagsData × List ℕ)
      other_tag = and_then (read (replicate 4 0) s) λ value. ok (
        record r { content = r.content ++ (record { tag_num = tag; val = value.0 } ∷ []) },
        value.1,
      )

  -- The loop of `TagsData.Decode`
  unfoldable pub read_tags : (count : ℕ) → TagsData → List ℕ → Result TagsData
  read_tags zero r s = ok r
  read_tags (suc count) r s =
      let more = read_tags count in
      and_then (read_byte s)
        λ tag. and_then (read_tag tag.0 r tag.1) λ read_on. more read_on.0 read_on.1

  -- `TagsData.Decode`, of a struct that is zero
  unfoldable pub decode_tags : List ℕ → Result TagsData
  decode_tags rec = read_tags (length rec / 5) empty_tags rec

  unfoldable pub other_bytes : List AllTags → List ℕ
  other_bytes [] = []
  other_bytes (t ∷ ts) = t.tag_num ∷ (t.val ++ other_bytes ts)

  -- `TagsData.Encode`, which leaves the liquid levels out
  unfoldable pub encode_tags : TagsData → List ℕ
  encode_tags r =
      let lat = if bit_and r.list_active 1 == 1 then 3 ∷ f.bytes_of r.latitude else [] in
      let lon = if bit_and r.list_active 2 == 2 then 4 ∷ f.bytes_of r.longitude else [] in
      let course =
        if bit_and r.list_active 4 == 4
        then (5
            ∷ (r.course / 2 % 256)
            ∷ (r.altitude / 10 % 256)
            ∷ (r.satellites % 256)
            ∷ f.byte_of_speed r.speed
            ∷ [])
        else [] in
      lat ++ (lon ++ (course ++ other_bytes r.content))

  read_full-length : (n : ℕ) (s : List ℕ) → n ≤ length s → length s ≤ length (read_full n s).1 + n
  unfolding read_full
  read_full-length n s h = rw (read_full, ge→ltb (length s) n h) (omega (arith, drop-length n s))

  -- A tag takes at most four bytes behind its number, if there are so many.
  read_tag-succeeds :
      (tag : ℕ) (r : TagsData) (s : List ℕ)
      → 4 ≤ length s
      → (q : TagsData) × (rest : List ℕ) × (read_tag tag r s ≡ ok (q, rest))
        × (length s ≤ length rest + 4)
  unfolding read_tag read_level
  read_tag-succeeds tag r (a ∷ b ∷ c ∷ d ∷ s) h = elim (Bool-cases (tag == 3)) [
    | inl e ↦ rw e (_, _, refl, read_full-length 4 _ h)
    | inr e3 ↦ elim (Bool-cases (tag == 4)) [
      | inl e ↦ rw (e3, e) (_, _, refl, read_full-length 4 _ h)
      | inr e4 ↦ elim (Bool-cases (tag == 5)) [
        | inl e ↦ rw (e3, e4, e) (_, _, refl, omega arith)
        | inr e5 ↦ elim (Bool-cases (ltb 70 tag)) [
          | inl low ↦ elim (Bool-cases (ltb tag 79)) [
            | inl high ↦
                rw (e3, e4, e5, low, high)
                  (_, _, refl, omega (arith, read_full-length 2 (a ∷ b ∷ c ∷ d ∷ s) (omega arith)))
            | inr high ↦ rw (e3, e4, e5, low, high) (_, _, refl, omega arith)
          ]
          | inr low ↦ rw (e3, e4, e5, low) (_, _, refl, omega arith)
        ]
      ]
    ]
  ]
  read_tag-succeeds tag r [] h = absurd (omega arith)
  read_tag-succeeds tag r (a ∷ []) h = absurd (omega arith)
  read_tag-succeeds tag r (a ∷ b ∷ []) h = absurd (omega arith)
  read_tag-succeeds tag r (a ∷ b ∷ c ∷ []) h = absurd (omega arith)

  read_tags-succeeds :
      (count : ℕ) (r : TagsData) (s : List ℕ)
      → 5 * count ≤ length s
      → (q : TagsData) × (read_tags count r s ≡ ok q)
  unfolding read_tags
  read_tags-succeeds zero r s h = (r, refl)
  read_tags-succeeds (suc count) r [] h = absurd (omega arith)
  read_tags-succeeds (suc count) r (tag ∷ s) h =
      let (p, rest, taken, left) = read_tag-succeeds tag r s (omega (arith, h)) in
      let (q, read_on) = read_tags-succeeds count p rest (omega (arith, h, left)) in
      (q, rw taken read_on)

  -- Decoding tags from any bytes gives tags and no error.
  pub decode_tags-succeeds : (rec : List ℕ) → (r : TagsData) × (decode_tags rec ≡ ok r)
  unfolding decode_tags
  decode_tags-succeeds rec = read_tags-succeeds (length rec / 5) empty_tags rec (omega arith)
