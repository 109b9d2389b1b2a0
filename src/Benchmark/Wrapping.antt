-- ===== src/Benchmark/Wrapping.antt =====
-- The sums of the benchmark in a release build, where a difference below 0 wraps.
use native.Mathlib.Nat.{mul-add, mul_comm}
use hardlight.Prelude.{
  ℕ, ◌+◌, ◌-◌, ◌*◌, ◌%◌, ◌<◌, ◌≡◌, refl, ◌∙◌, ap, Bool, true, false, some, inl, inr, List, [], ◌∷◌,
  arith, leb, ltb, Bool-cases,
}
use hardlight.Codec.{◌>>=◌}
use hardlight.Benchmark.{Duration, as_micros, u128_size, wrap, sub_u128, sum_from, squares_from}
use hardlight.Benchmark.Sort.{total}

-- The distance of two numbers.
abbrev pub gap : ℕ → ℕ → ℕ
gap a b = (a - b) + (b - a)

wrap_fits : (checks : Bool) (n : ℕ) → n < u128_size → wrap checks n ≡ some n
wrap_fits checks n fits = ground (arith, fits)

pub wrap-mod : (n : ℕ) → wrap false n ≡ some (n % u128_size)
wrap-mod n = elim (Bool-cases (ltb n u128_size)) [
  | inl small ↦ let same : n % u128_size ≡ n = ground (arith, small) in rw (small, same) refl
  | inr large ↦ rw large refl
]

left_over :
    (x y g e : ℕ) → y < u128_size → x + g * u128_size ≡ y + e * u128_size → x % u128_size ≡ y
left_over x y g e small h = omega (arith, small, h)

complement_squared : (e g size : ℕ) → e + g ≡ size → e * e + g * size ≡ g * g + e * size
complement_squared e g size h = rw (← h) (omega (arith, mul-add g e g, mul-add e e g, mul_comm e g))

-- The square of a difference that has wrapped is the square of the distance.
wrapping_square :
    (a b d : ℕ)
    → a < u128_size
    → b < u128_size
    → gap a b * gap a b < u128_size
    → sub_u128 false a b ≡ some d
    → wrap false (d * d) ≡ some (gap a b * gap a b)
wrapping_square a b d ha hb fits h = elim (Bool-cases (leb b a)) [
  | inl above ↦
      let e : gap a b ≡ d = ground (arith, above, h) in
      rw (← e) (wrap_fits false (gap a b * gap a b) fits)
  | inr below ↦
      let e : a + u128_size - b ≡ d = ground (arith, below, h) in
      let whole : d + gap a b ≡ u128_size = ground (arith, below, e, ha, hb) in
      wrapped (complement_squared d (gap a b) u128_size whole)
]
  where
    wrapped :
        d * d + gap a b * u128_size ≡ gap a b * gap a b + d * u128_size
        → wrap false (d * d) ≡ some (gap a b * gap a b)
    wrapped h =
        wrap-mod (d * d) ∙ ap some (left_over (d * d) (gap a b * gap a b) (gap a b) d fits h)

abbrev pub squared_gap : ℕ → Duration → ℕ
squared_gap avg t = gap (as_micros t) avg * gap (as_micros t) avg

pub sum_from_lem :
    (checks : Bool) (acc : ℕ) (ts : List Duration)
    → acc + total as_micros ts < u128_size
    → sum_from checks acc ts ≡ some (acc + total as_micros ts)
unfolding sum_from
sum_from_lem checks acc [] fits = ap some (omega arith)
sum_from_lem checks acc (t ∷ ts) fits =
    rw (wrap_fits checks (acc + as_micros t) (omega (arith, fits)), ◌>>=◌)
      (sum_from_lem checks (acc + as_micros t) ts (omega (arith, fits)) ∙ ap some (omega arith))

-- In a release build the sum of the squares is that of the squared distances from the mean, if it and
-- the sum of the timings fit into 128 bits.
pub squares_from_lem :
    (avg acc : ℕ) (ts : List Duration)
    → avg < u128_size
    → total as_micros ts < u128_size
    → acc + total (squared_gap avg) ts < u128_size
    → squares_from false avg acc ts ≡ some (acc + total (squared_gap avg) ts)
unfolding squares_from
squares_from_lem avg acc [] mean sum fits = ap some (omega arith)
squares_from_lem avg acc (t ∷ ts) mean sum fits =
    let (d, e) = differs (leb avg (as_micros t)) refl in
    rw
      (
        e,
        wrapping_square (as_micros t) avg d (omega (arith, sum)) mean (omega (arith, fits)) e,
        wrap_fits false (acc + squared_gap avg t) (omega (arith, fits)),
        ◌>>=◌,
      )
      (squares_from_lem avg (acc + squared_gap avg t) ts mean (omega (arith, sum))
          (omega (arith, fits))
        ∙ ap some (omega arith))
  where
    differs :
        (b : Bool)
        → leb avg (as_micros t) ≡ b
        → (d : ℕ) × (sub_u128 false (as_micros t) avg ≡ some d)
    differs true h = (as_micros t - avg, rw h refl)
    differs false h = (as_micros t + u128_size - avg, rw h refl)
