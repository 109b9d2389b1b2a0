-- ===== src/Benchmark/Graphs.antt =====
-- The percentile graph of the benchmark.
use native.Mathlib.Nat.{mul-suc, mul-lt-mul_of_pos_left}
use hardlight.Prelude.{
  ℕ, zero, suc, ◌+◌, ◌*◌, ◌/◌, ◌≤◌, ◌<◌, ◌≡◌, refl, Bool, some, List, [], ◌∷◌, arith, length,
  get_elem?, get_elem?_total, All,
}
use hardlight.Codec.{◌>>=◌}
use hardlight.Benchmark.{
  Duration, as_micros, usize_size, mul_usize, percentiles_from, percentile_data, sort,
}
use hardlight.Benchmark.Sort.{
  IsSorted, total, total-sort, get_elem?-ascends, sort-IsSorted, length-sort,
}
use hardlight.Benchmark.Ranks.{is_less, is_more, is_equal, HasRank, get_elem?-HasRank}

-- The values of a graph do not fall.
abbrev pub Ascends : List (ℕ × ℕ) → Type 0
Ascends [] = Unit
Ascends (p ∷ ps) = All (λ (q : ℕ × ℕ). p.1 ≤ q.1) ps × Ascends ps

-- A percentile: `percent` of a hundred timings at most are smaller, and more are no larger.
pub record IsPercentile (percent v : ℕ) (timings : List Duration) : Type 0 where
  pub at_most : total (is_less v) timings * 100 ≤ length timings * percent
  pub at_least : length timings * percent + total (is_more v) timings * 100 < length timings * 100
  pub held : 0 < total (is_equal v) timings

HasRank-IsPercentile :
    (v percent : ℕ) (timings : List Duration)
    → HasRank v (length timings * percent / 100) timings
    → IsPercentile percent v timings
HasRank-IsPercentile v percent timings r = record {
  at_most = omega (arith, r.less);
  at_least = omega (arith, r.more);
  held = r.held;
}

-- The point at a place has the number of its percentile and the percentile.
abbrev pub Drawn : List Duration → List (ℕ × ℕ) → ℕ → ℕ → Type 0
Drawn timings points i j =
    (v : ℕ) × (get_elem? points j ≡ some (i + j, v)) × IsPercentile (i + j) v timings

Drawn-cons :
    (timings : List Duration) (more : List (ℕ × ℕ)) (i v n : ℕ)
    → IsPercentile i v timings
    → ((j : ℕ) → j < n → Drawn timings more (suc i) j)
    → (j : ℕ) → j < suc n
    → Drawn timings ((i, v) ∷ more) i j
Drawn-cons timings more i v n first later zero inside =
    let same : i + zero ≡ i = omega arith in (v, rw same refl, rw same first)
Drawn-cons timings more i v n first later (suc j) inside =
    let same : i + suc j ≡ suc i + j = omega arith in rw same (later j (omega (arith, inside)))

module _ (checks : Bool) (timings : List Duration) (sorted : IsSorted timings)
    (some_timing : 0 < length timings) (fits : length timings * 100 ≤ usize_size) where
  -- What the loop gives from `i` on: its values are no smaller than a timing further to the front.
  percentiles :
      (n i : ℕ)
      → n + i ≤ 100
      → (points : List (ℕ × ℕ)) × (percentiles_from checks timings n i ≡ some points)
        × (length points ≡ n)
        × Ascends points
        × ((j : ℕ) → j < n → Drawn timings points i j)
        × ((j : ℕ) (t : Duration)
            → j ≤ length timings * i / 100
            → get_elem? timings j ≡ some t
            → All (λ (q : ℕ × ℕ). as_micros t ≤ q.1) points)
  unfolding percentiles_from as_micros
  percentiles zero i within =
      ([], refl, refl, tt, λ j inside. absurd (omega (arith, inside)), λ j t before at. tt)
  percentiles (suc n) i within =
      let (more, gives, long, rest, drawn, no_smaller) =
        percentiles n (suc i) (omega (arith, within)) in
      let inside : length timings * i < length timings * 100 =
        mul-lt-mul_of_pos_left (omega (arith, within)) some_timing in
      let further = mul-suc (length timings) i in
      let (t, at) = get_elem?_total timings (length timings * i / 100) (omega (arith, inside)) in
      let scaled : mul_usize checks (length timings) i ≡ some (length timings * i) =
        ground (arith, inside, fits) in
      (
        (i, as_micros t) ∷ more,
        rw (scaled, at, gives, ◌>>=◌) refl,
        omega (arith, long),
        (no_smaller (length timings * i / 100) t (omega (arith, further)) at, rest),
        Drawn-cons timings more i (as_micros t) n
            (HasRank-IsPercentile (as_micros t) i timings
              (get_elem?-HasRank timings (length timings * i / 100) t sorted at))
            drawn,
        λ j u before found. (
          omega (
            arith,
            get_elem?-ascends timings j (length timings * i / 100) u t sorted before found at,
          ),
          no_smaller j u (omega (arith, before, further)) found,
        ),
      )

-- The sort changes no percentile.
IsPercentile-sort :
    (percent v : ℕ) (timings : List Duration)
    → IsPercentile percent v (sort timings)
    → IsPercentile percent v timings
IsPercentile-sort percent v timings p = record {
  at_most = rw (total-sort (is_less v) timings, length-sort timings) at p.at_most;
  at_least = rw (total-sort (is_more v) timings, length-sort timings) at p.at_least;
  held = rw (total-sort (is_equal v) timings) at p.held;
}

-- With one timing at least, the loop stays in bounds and draws a hundred points: over each number from
-- 0 to 99 that percentile of the timings, one of them than which at most so many of a hundred timings
-- are smaller, and more than so many are no larger. The points do not fall. This is if a hundred times
-- the number of timings fits into 64 bits.
pub percentile_data_lem :
    (checks : Bool) (timings : List Duration)
    → 0 < length timings
    → length timings * 100 ≤ usize_size
    → (points : List (ℕ × ℕ)) × (percentile_data checks (sort timings) ≡ some points)
      × (length points ≡ 100)
      × Ascends points
      × ((i : ℕ) → i < 100 → Drawn timings points 0 i)
unfolding percentile_data
percentile_data_lem checks timings some_timing fits =
    let (points, gives, long, ascends, drawn, lower) =
      percentiles checks (sort timings) (sort-IsSorted timings)
        (omega (arith, some_timing, length-sort timings)) (omega (arith, fits, length-sort timings))
        100 0 (omega arith) in
    (
      points,
      gives,
      long,
      ascends,
      λ i inside. let (v, at, p) = drawn i inside in (v, at, IsPercentile-sort (0 + i) v timings p),
    )
