-- ===== src/Egts/PosData/Bits.antt =====
-- The bit operations of pos_data as arithmetic, each from a table of its values.
use nav_control.Base.{
  ℕ, zero, suc, ◌+◌, ◌-◌, ◌*◌, ◌^◌, ◌<◌, ◌≤◌, ◌≡◌, refl, subst, true, ◌==◌, ==→eq, arith,
  every_below, below-every_below,
}
use nav_control.Egts.PosData.{speed_word, join_direction, split_direction}

speed_table :
    every_below
      (λ d.
        every_below
          (λ s. every_below (λ v. speed_word v d s == v * 10 + d * 2 ^ 15 + s * 2 ^ 14) 1639)
          2)
      2
    ≡ true
unfolding every_below speed_word
speed_table = refl

-- The three parts of the speed word do not overlap.
pub speed_word-sum :
    (v d s : ℕ) → v < 1639 → d < 2 → s < 2 → speed_word v d s ≡ v * 10 + d * 2 ^ 15 + s * 2 ^ 14
speed_word-sum v d s hv hd hs =
    let of_direction = below-every_below _ _ speed_table d hd in
    let of_sign = below-every_below _ _ of_direction s hs in
    ==→eq _ _ (below-every_below _ _ of_sign v hv)

low_table : every_below (λ x. join_direction (split_direction x 0) 0 == x) 256 ≡ true
unfolding every_below join_direction split_direction
low_table = refl

high_table : every_below (λ x. join_direction (split_direction (x + 128) 1) 1 == x + 128) 128 ≡ true
unfolding every_below join_direction split_direction
high_table = refl

-- The highest bit is taken off and put back.
pub join-split_direction :
    (x d : ℕ) → x < 256 → d < 2 → (d ≡ 1 → 128 ≤ x) → join_direction (split_direction x d) d ≡ x
join-split_direction x zero hx hd top = ==→eq _ _ (below-every_below _ _ low_table x hx)
join-split_direction x (suc zero) hx hd top =
    let e : x - 128 + 128 ≡ x = omega (arith, top refl) in
    let low : x - 128 < 128 = omega arith in
    subst (λ y. join_direction (split_direction y 1) 1 ≡ y) e
      (==→eq _ _ (below-every_below _ _ high_table (x - 128) low))
join-split_direction x (suc (suc d)) hx hd top = absurd (omega arith)
