-- ===== src/Benchmark.antt =====
-- The numbers that the benchmark (testing-project/src/main.rs) makes of its timings. A `Duration` is
-- the number of its nanoseconds. Arithmetic on `u128` panics on overflow where `checks` is set, as in a
-- debug build, and wraps in a release build.
pub mod Sort
pub mod Wrapping
pub mod Bounds
pub mod Ranks
pub mod Summary
pub mod Panics
pub mod Graphs
pub mod Histogram
pub mod Scatter
pub mod Main
use hardlight.Prelude.{
  ℕ, zero, suc, ◌+◌, ◌-◌, ◌*◌, ◌/◌, ◌%◌, Bool, Option, none, some, List, [], ◌∷◌, map, ltb, leb,
  if◌then◌else◌, length, get_elem?, Map, lookup, insert, nat_eq, nat_beq, ◌&&◌,
}
use hardlight.Codec.{◌>>=◌}

abbrev pub Duration : Type 0
Duration = ℕ

unfoldable pub as_micros : Duration → ℕ
as_micros t = t / 1000

-- `2 ^ 128`
abbrev pub u128_size : ℕ
u128_size = 340282366920938463463374607431768211456

-- `2 ^ 32`, of an `i32`.
abbrev pub i32_size : ℕ
i32_size = 4294967296

module _ (checks : Bool) where
  -- A result that is too large panics or wraps.
  abbrev pub wrap : ℕ → Option ℕ
  wrap n = if ltb n u128_size then some n else if checks then none else some (n % u128_size)

  abbrev pub sub_u128 : ℕ → ℕ → Option ℕ
  sub_u128 a b = if leb b a then some (a - b) else if checks then none else some (a + u128_size - b)

  -- `iter().map(|t| t.as_micros()).sum()`
  unfoldable pub sum_from : ℕ → List Duration → Option ℕ
  sum_from acc [] = some acc
  sum_from acc (t ∷ ts) = do sum ← wrap (acc + as_micros t); sum_from sum ts

  -- `(t.as_micros() as u128 - avg as u128).pow(2) as u128`, and the sum of these.
  unfoldable pub squares_from : ℕ → ℕ → List Duration → Option ℕ
  squares_from avg acc [] = some acc
  squares_from avg acc (t ∷ ts) = do
    diff ← sub_u128 (as_micros t) avg
    square ← wrap (diff * diff)
    sum ← wrap (acc + square)
    squares_from avg sum ts

  -- `count += 1` on an `i32`, as the 32 bits that it is kept in: at the largest number it panics, or
  -- wraps to the smallest.
  unfoldable pub inc_i32 : ℕ → Option ℕ
  inc_i32 count = if nat_beq count 2147483647 && checks then none else some (suc count % i32_size)

  abbrev pub counted : Bool → ℕ → Option ℕ
  counted holds count = if holds then inc_i32 count else some count

  -- The loop that counts what lies below `avg - std_dev`, which it works out each time.
  unfoldable pub count_below : ℕ → ℕ → ℕ → List Duration → Option ℕ
  unfolding inc_i32
  count_below avg std_dev count [] = some count
  count_below avg std_dev count (t ∷ ts) = do
    limit ← sub_u128 avg std_dev
    later ← counted (ltb (as_micros t) limit) count
    count_below avg std_dev later ts

  unfoldable pub count_above : ℕ → ℕ → ℕ → List Duration → Option ℕ
  unfolding inc_i32
  count_above avg std_dev count [] = some count
  count_above avg std_dev count (t ∷ ts) = do
    limit ← wrap (avg + std_dev)
    later ← counted (ltb limit (as_micros t)) count
    count_above avg std_dev later ts

-- A division by the length of an empty list panics.
abbrev pub div_length : ℕ → List Duration → Option ℕ
div_length sum [] = none
div_length sum (t ∷ ts) = some (sum / length (t ∷ ts))

unfoldable pub insert_sorted : Duration → List Duration → List Duration
insert_sorted t [] = t ∷ []
insert_sorted t (u ∷ us) = let rest = insert_sorted t us in if leb t u then t ∷ u ∷ us else u ∷ rest

-- `timings.sort()`
unfoldable pub sort : List Duration → List Duration
sort [] = []
sort (t ∷ ts) = insert_sorted t (sort ts)

abbrev pub last : List Duration → Option Duration
last [] = none
last (t ∷ []) = some t
last (t ∷ u ∷ us) = last (u ∷ us)

-- What the benchmark prints; `below` and `above` are the bits of an `i32`.
pub record Stats : Type 0 where
  pub med : ℕ
  pub avg : ℕ
  pub std_dev : ℕ
  pub min : ℕ
  pub max : ℕ
  pub below : ℕ
  pub above : ℕ

-- `main` from the sort on; `rounded_sqrt` is the square root and the rounding of an `f64`, for
-- which `unwrap_or(0.0)` stands where there is nothing to divide by.
unfoldable pub stats : Bool → (ℕ → ℕ) → List Duration → Option Stats
stats checks rounded_sqrt unsorted = do
  let timings = sort unsorted
  sum ← sum_from checks 0 timings
  avg ← div_length sum timings
  min ← get_elem? timings 0
  max ← last timings
  med ← get_elem? timings (length timings / 2)
  squares ← squares_from checks avg 0 timings
  let std_dev = rounded_sqrt (squares / length timings)
  below ← count_below checks avg std_dev 0 timings
  above ← count_above checks avg std_dev 0 timings
  some (record {
    med = as_micros med;
    avg = avg;
    std_dev = std_dev;
    min = as_micros min;
    max = as_micros max;
    below = below;
    above = above;
  })

-- `2 ^ 64`, of a `usize`.
abbrev pub usize_size : ℕ
usize_size = 18446744073709551616

module _ (checks : Bool) where
  abbrev pub mul_usize : ℕ → ℕ → Option ℕ
  mul_usize a b =
      if ltb (a * b) usize_size
      then some (a * b)
      else if checks
      then none
      else some (a * b % usize_size)

  -- `n` rounds of the loop of `plot_percentile_graph`, from `i` on.
  unfoldable pub percentiles_from : List Duration → ℕ → ℕ → Option (List (ℕ × ℕ))
  percentiles_from timings zero i = some []
  percentiles_from timings (suc n) i = do
    scaled ← mul_usize (length timings) i
    timing ← get_elem? timings (scaled / 100)
    more ← percentiles_from timings n (suc i)
    some ((i, as_micros timing) ∷ more)

  unfoldable pub percentile_data : List Duration → Option (List (ℕ × ℕ))
  percentile_data timings = percentiles_from timings 100 0

abbrev pub or_zero : Option ℕ → ℕ
or_zero none = 0
or_zero (some n) = n

-- The loop of `plot_histogram_graph`: the number of timings of each microsecond.
unfoldable pub histogram_from : Map ℕ ℕ → List Duration → Map ℕ ℕ
histogram_from histogram [] = histogram
histogram_from histogram (t ∷ ts) =
    histogram_from (insert (as_micros t) (suc (or_zero (lookup (as_micros t) histogram))) histogram)
      ts

unfoldable pub insert_by_bin : ℕ × ℕ → List (ℕ × ℕ) → List (ℕ × ℕ)
insert_by_bin bar [] = bar ∷ []
insert_by_bin bar (next ∷ rest) =
    let later = insert_by_bin bar rest in
    if leb bar.0 next.0 then bar ∷ next ∷ rest else next ∷ later

-- `data.sort_by(|a, b| a.0.cmp(&b.0))`
unfoldable pub sort_by_bin : List (ℕ × ℕ) → List (ℕ × ℕ)
sort_by_bin [] = []
sort_by_bin (bar ∷ bars) = insert_by_bin bar (sort_by_bin bars)

unfoldable pub histogram_data : List Duration → List (ℕ × ℕ)
histogram_data timings = sort_by_bin (histogram_from [] timings)
