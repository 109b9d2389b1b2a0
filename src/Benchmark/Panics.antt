-- ===== src/Benchmark/Panics.antt =====
-- The benchmark in a debug build, where a difference below 0 panics.
use hardlight.Prelude.{
  ℕ, ◌/◌, ◌≤◌, ◌<◌, ◌≡◌, refl, sym, ◌∙◌, ap, true, none, some, inl, inr, List, [], ◌∷◌, arith, ltb,
  if◌then◌else◌, Bool-cases, List-cases, length, get_elem?_total, All,
}
use hardlight.Codec.{◌>>=◌}
use hardlight.Benchmark.{
  Duration, as_micros, u128_size, sub_u128, sum_from, squares_from, sort, stats,
}
use hardlight.Benchmark.Sort.{sort-IsSorted, total, total-sort, length-sort, last-get_elem?}
use hardlight.Benchmark.Wrapping.{sum_from_lem}

-- 1 of a timing below the mean.
abbrev pub is_under : ℕ → Duration → ℕ
is_under avg t = if ltb (as_micros t) avg then 1 else 0

none_under :
    (avg : ℕ) (t : Duration) (ts : List Duration)
    → avg ≤ as_micros t
    → All (λ u. t ≤ u) ts
    → total (is_under avg) ts ≡ 0
unfolding as_micros
none_under avg t [] over all = refl
none_under avg t (u ∷ us) over all =
    let here : is_under avg u ≡ 0 = ground (arith, over, all.0) in
    omega (arith, here, none_under avg t us over all.1)

-- Then the smallest timing is below the mean.
first_under :
    (avg : ℕ) (t : Duration) (ts : List Duration)
    → All (λ u. t ≤ u) ts
    → 0 < total (is_under avg) (t ∷ ts)
    → as_micros t < avg
first_under avg t ts all some_under = elim (Bool-cases (ltb (as_micros t) avg)) [
  | inl under ↦ ground (arith, under)
  | inr over ↦
      let others = none_under avg t ts (ground (arith, over)) all in
      absurd (ground (arith, some_under, over, others))
]

module _ (rounded_sqrt : ℕ → ℕ) where
  -- In a debug build the benchmark panics before it prints its numbers, whenever a timing lies below the
  -- mean, if the sum of the timings fits into 128 bits.
  pub debug_build_panics :
      (timings : List Duration)
      → total as_micros timings < u128_size
      → 0 < total (is_under (total as_micros timings / length timings)) timings
      → stats true rounded_sqrt timings ≡ none
  unfolding stats squares_from
  debug_build_panics timings fits some_under = elim (List-cases (sort timings)) [
    | inl e ↦ absurd (
        omega (
          arith,
          some_under,
          total-sort (is_under (total as_micros timings / length timings)) timings,
          ap (total (is_under (total as_micros timings / length timings))) e,
        ))
    | inr (t, ts, e) ↦
        let sums : sum_from true 0 (sort timings) ≡ some (total as_micros timings) =
          sum_from_lem true 0 (sort timings) (omega (arith, fits, total-sort as_micros timings))
          ∙ ap some (omega (arith, total-sort as_micros timings)) in
        let avg = total as_micros timings / length timings in
        let ahead : 0 < total (is_under avg) (sort timings) =
          omega (arith, some_under, total-sort (is_under avg) timings) in
        let under : as_micros t < avg =
          first_under avg t ts ((rw e at (sort-IsSorted timings)).0) (rw e at ahead) in
        let size : length timings ≡ length (t ∷ ts) = sym (length-sort timings) ∙ ap length e in
        let negative : sub_u128 true (as_micros t) avg ≡ none = ground (arith, under) in
        let (max, at_max) = get_elem?_total (t ∷ ts) (length ts) (omega arith) in
        let (med, at_med) = get_elem?_total (t ∷ ts) (length (t ∷ ts) / 2) (omega arith) in
        rw (sums, e, last-get_elem? t ts ∙ at_max, at_med, rw size at negative, ◌>>=◌) refl
  ]
