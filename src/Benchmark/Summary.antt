-- ===== src/Benchmark/Summary.antt =====
-- What the benchmark prints in a release build.
use native.Mathlib.Nat.{suc-mul}
use hardlight.Prelude.{
  ℕ, suc, ◌+◌, ◌-◌, ◌/◌, ◌%◌, ◌≤◌, ◌<◌, ◌≡◌, refl, ◌∙◌, ap, subst, true, false, Bool, Option, some,
  inl, inr, List, [], ◌∷◌, arith, leb, ltb, if◌then◌else◌, length, get_elem?_total, List-cases,
}
use hardlight.Codec.{◌>>=◌}
use hardlight.Benchmark.{
  Duration, as_micros, u128_size, sub_u128, sum_from, squares_from, count_below, count_above, sort,
  last, Stats, stats, i32_size, counted, inc_i32,
}
use hardlight.Benchmark.Sort.{
  IsSorted, sort-IsSorted, total, total-sort, length-sort, last-get_elem?,
}
use hardlight.Benchmark.Bounds.{
  total_at_least, total_at_most, below_last, mean_at_least, mean_at_most,
}
use hardlight.Benchmark.Ranks.{HasRank, get_elem?-HasRank, HasRank-sort}
use hardlight.Benchmark.Wrapping.{wrap-mod, squared_gap, sum_from_lem, squares_from_lem}

-- `avg - std_dev` as it wraps.
abbrev pub lower_limit : ℕ → ℕ → ℕ
lower_limit avg std_dev = if leb std_dev avg then avg - std_dev else avg + u128_size - std_dev

abbrev pub is_below : ℕ → ℕ → Duration → ℕ
is_below avg std_dev t = if ltb (as_micros t) (lower_limit avg std_dev) then 1 else 0

abbrev pub is_above : ℕ → ℕ → Duration → ℕ
is_above avg std_dev t = if ltb ((avg + std_dev) % u128_size) (as_micros t) then 1 else 0

-- The place of the last.
ends : (ts : List Duration) → length ts ≡ suc (length ts) - 1
ends ts = omega arith

step_bits :
    (b : Bool) (count rest : ℕ)
    → ((if b then suc count % i32_size else count) + rest) % i32_size
      ≡ (count + ((if b then 1 else 0) + rest)) % i32_size
step_bits true count rest = omega arith
step_bits false count rest = omega arith

counted_bits :
    (b : Bool) (count : ℕ)
    → counted false b count ≡ some (if b then suc count % i32_size else count)
unfolding inc_i32
counted_bits b count = ground arith

count_below_lem :
    (avg std_dev count : ℕ) (ts : List Duration)
    → count < i32_size
    → count_below false avg std_dev count ts
      ≡ some ((count + total (is_below avg std_dev) ts) % i32_size)
unfolding count_below
count_below_lem avg std_dev count [] small = ap some (omega (arith, small))
count_below_lem avg std_dev count (t ∷ ts) small =
    let b = ltb (as_micros t) (lower_limit avg std_dev) in
    let fits : (if b then suc count % i32_size else count) < i32_size = ground (arith, small) in
    rw (limit, counted_bits b count, ◌>>=◌)
      (count_below_lem avg std_dev (if b then suc count % i32_size else count) ts fits
        ∙ ap some (step_bits b count (total (is_below avg std_dev) ts)))
  where
    limit : sub_u128 false avg std_dev ≡ some (lower_limit avg std_dev)
    limit = ground arith

count_above_lem :
    (avg std_dev count : ℕ) (ts : List Duration)
    → count < i32_size
    → count_above false avg std_dev count ts
      ≡ some ((count + total (is_above avg std_dev) ts) % i32_size)
unfolding count_above
count_above_lem avg std_dev count [] small = ap some (omega (arith, small))
count_above_lem avg std_dev count (t ∷ ts) small =
    let b = ltb ((avg + std_dev) % u128_size) (as_micros t) in
    let fits : (if b then suc count % i32_size else count) < i32_size = ground (arith, small) in
    rw (wrap-mod (avg + std_dev), counted_bits b count, ◌>>=◌)
      (count_above_lem avg std_dev (if b then suc count % i32_size else count) ts fits
        ∙ ap some (step_bits b count (total (is_above avg std_dev) ts)))

-- What the numbers that are printed say of the timings.
pub record Summarises (rounded_sqrt : ℕ → ℕ) (timings : List Duration) (st : Stats) : Type 0 where
  pub mean : st.avg ≡ total as_micros timings / length timings
  pub deviation : st.std_dev ≡ rounded_sqrt (total (squared_gap st.avg) timings / length timings)
  pub min_avg : st.min ≤ st.avg
  pub avg_max : st.avg ≤ st.max
  pub smallest : HasRank st.min 0 timings
  pub median : HasRank st.med (length timings / 2) timings
  pub largest : HasRank st.max (length timings - 1) timings
  pub below : st.below ≡ total (is_below st.avg st.std_dev) timings % i32_size
  pub above : st.above ≡ total (is_above st.avg st.std_dev) timings % i32_size

module _ (rounded_sqrt : ℕ → ℕ) where
  -- The same of the sorted timings.
  abbrev Result : Option Stats → List Duration → Type 0
  Result r timings = (st : Stats) × (r ≡ some st) × Summarises rounded_sqrt timings st

  sorted_stats :
      (timings : List Duration) (t : Duration) (ts : List Duration)
      → sort timings ≡ t ∷ ts
      → total as_micros (sort timings) < u128_size
      → total (squared_gap (total as_micros (sort timings) / length (sort timings))) (sort timings)
        < u128_size
      → Result (stats false rounded_sqrt timings) (t ∷ ts)
  unfolding stats
  sorted_stats timings t ts e sorted_fits sorted_squares_fit =
      let all = t ∷ ts in
      let fits = rw e at sorted_fits in
      let squares_fit = rw e at sorted_squares_fit in
      let avg = total as_micros all / length all in
      let dev = rounded_sqrt (total (squared_gap avg) all / length all) in
      let sorted : IsSorted all = rw e at (sort-IsSorted timings) in
      let (max, at_max) = get_elem?_total all (length ts) (omega arith) in
      let at_last : last all ≡ some max = last-get_elem? t ts ∙ at_max in
      let (med, at_med) = get_elem?_total all (length all / 2) (omega arith) in
      let bound = below_last t ts max sorted at_last in
      let mean_fits : avg < u128_size = omega (
        arith,
        fits,
        mean_at_most (length all) (total as_micros all) (total as_micros all) (omega arith)
            (omega (arith, suc-mul (length ts) (total as_micros all))),
      ) in
      let sums : sum_from false 0 all ≡ some (total as_micros all) =
        sum_from_lem false 0 all (omega (arith, fits)) ∙ ap some (omega arith) in
      let squares : squares_from false avg 0 all ≡ some (total (squared_gap avg) all) =
        squares_from_lem avg 0 all mean_fits fits (omega (arith, squares_fit))
        ∙ ap some (omega arith) in
      let below : count_below false avg dev 0 all ≡ some (total (is_below avg dev) all % i32_size) =
        count_below_lem avg dev 0 all (omega arith) ∙ ap some (omega arith) in
      let above : count_above false avg dev 0 all ≡ some (total (is_above avg dev) all % i32_size) =
        count_above_lem avg dev 0 all (omega arith) ∙ ap some (omega arith) in
      (
        record {
          med = as_micros med;
          avg = avg;
          std_dev = dev;
          min = as_micros t;
          max = as_micros max;
          below = total (is_below avg dev) all % i32_size;
          above = total (is_above avg dev) all % i32_size;
        },
        rw (e, sums, at_last, at_med, squares, below, above, ◌>>=◌) refl,
        record {
          mean = refl;
          deviation = refl;
          min_avg =
              mean_at_least (length all) (total as_micros all) (as_micros t) (omega arith)
                (total_at_least t all (omega arith, sorted.0));
          avg_max =
              mean_at_most (length all) (total as_micros all) (as_micros max) (omega arith)
                (total_at_most max all bound);
          smallest = get_elem?-HasRank all 0 t sorted refl;
          median = get_elem?-HasRank all (length all / 2) med sorted at_med;
          largest =
              subst (λ k. HasRank (as_micros max) k all) (ends ts)
                (get_elem?-HasRank all (length ts) max sorted at_max);
          below = refl;
          above = refl;
        },
      )

  -- The sort changes none of the sums and counts.
  unsorted :
      (timings : List Duration) (st : Stats)
      → Summarises rounded_sqrt (sort timings) st
      → Summarises rounded_sqrt timings st
  unsorted timings st s = record {
    mean = s.mean ∙ (rw (total-sort as_micros timings, length-sort timings) refl);
    deviation =
        s.deviation ∙ (rw (total-sort (squared_gap st.avg) timings, length-sort timings) refl);
    min_avg = s.min_avg;
    avg_max = s.avg_max;
    smallest = HasRank-sort st.min 0 timings s.smallest;
    median =
        HasRank-sort st.med (length timings / 2) timings (rw (length-sort timings) at s.median);
    largest =
        HasRank-sort st.max (length timings - 1) timings (rw (length-sort timings) at s.largest);
    below = s.below ∙ ap (λ n. n % i32_size) (total-sort (is_below st.avg st.std_dev) timings);
    above = s.above ∙ ap (λ n. n % i32_size) (total-sort (is_above st.avg st.std_dev) timings);
  }

  -- In a release build and with one timing at least, the benchmark prints the mean of the timings; the
  -- rounded root of the mean of the squared distances from it; the smallest and the largest timing,
  -- with the mean between them; a median, one of the timings that has at most half of them below it
  -- and fewer than half above it; and, as an `i32` wraps, how many timings lie below the mean less the
  -- deviation and above the mean and the deviation, as these two wrap. This is if the sum of the
  -- timings and the sum of the squares fit into 128 bits.
  pub stats_lem :
      (timings : List Duration)
      → 0 < length timings
      → total as_micros timings < u128_size
      → total (squared_gap (total as_micros timings / length timings)) timings < u128_size
      → (st : Stats) × (stats false rounded_sqrt timings ≡ some st)
        × Summarises rounded_sqrt timings st
  stats_lem timings some_timing fits squares_fit = elim (List-cases (sort timings)) [
    | inl e ↦ absurd (omega (arith, some_timing, length-sort timings, ap length e))
    | inr (t, ts, e) ↦
        let (st, gives, summary) =
          sorted_stats timings t ts e (rw (total-sort as_micros timings) fits) (
            rw
              (
                total-sort as_micros timings,
                length-sort timings,
                total-sort (squared_gap (total as_micros timings / length timings)) timings,
              )
              squares_fit) in
        (st, gives, unsorted timings st (rw e summary))
  ]
