-- ===== src/Tests/Benchmark.antt =====
-- The benchmark on a few timings.
use hardlight.Prelude.{
  ℕ, zero, suc, ◌+◌, ◌-◌, ◌*◌, ◌/◌, ◌<◌, ◌≡◌, ◌⊎◌, ◌↔◌, Option, Bool, true, false, List, none, some,
  [], ◌∷◌, arith, leb, if◌then◌else◌, length, nat_eq,
}
use hardlight.Benchmark.{Duration, as_micros, Stats, stats, sort, percentile_data}
use hardlight.Benchmark.Summary.{Summarises, stats_lem}
use hardlight.Benchmark.Panics.{debug_build_panics}
use hardlight.Benchmark.Graphs.{Ascends, Drawn, percentile_data_lem}
use hardlight.Benchmark.Scatter.{F64}
use hardlight.Benchmark.Main.{collect, Plotters, draws_all, benchmark, release_build_panics_iff}

-- The largest number up to a bound whose square is no larger.
abbrev root_below : ℕ → ℕ → ℕ
root_below zero n = 0
root_below (suc r) n = let less = root_below r n in if leb (suc r * suc r) n then suc r else less

abbrev root : ℕ → ℕ
root = root_below 50

-- 1 and 3 microseconds.
abbrev two_timings : List Duration
two_timings = 3000 ∷ 1000 ∷ []

-- Four timings of 1 microsecond and one of 96.
abbrev long_tail : List Duration
long_tail = 1000 ∷ 1000 ∷ 96000 ∷ 1000 ∷ 1000 ∷ []

stats_lem_example :
    (st : Stats) × (stats false root long_tail ≡ some st) × Summarises root long_tail st
unfolding as_micros
stats_lem_example = stats_lem root long_tail (omega arith) (omega arith) (omega arith)

debug_build_panics_example : stats true root two_timings ≡ none
unfolding as_micros
debug_build_panics_example = debug_build_panics root two_timings (omega arith) (omega arith)

percentile_data_lem_example :
    (points : List (ℕ × ℕ)) × (percentile_data true (sort two_timings) ≡ some points)
    × (length points ≡ 100)
    × Ascends points
    × ((i : ℕ) → i < 100 → Drawn two_timings points 0 i)
percentile_data_lem_example = percentile_data_lem true two_timings (omega arith) (omega arith)

-- Floats without a fraction.
abbrev whole : F64
whole = record {
  Float = ℕ;
  of_u128 = λ n. n;
  to_u128 = λ x. x;
  zero_float = 0;
  add = λ x y. x + y;
  sub = λ x y. x - y;
  mul = λ x y. x * y;
  div = λ x y. x / y;
  sqrt = root;
}

-- Two timings, and one that comes too late.
abbrev channel : List (Option Duration)
channel = some 3000 ∷ some 1000 ∷ none ∷ some 2000 ∷ []

-- It draws every graph but a histogram without bars.
abbrev draws_bars : List (ℕ × ℕ) → Bool
draws_bars [] = false
draws_bars (bar ∷ bars) = true

abbrev plotters : Plotters
plotters = record {
  draws_scatter = λ graph. true;
  draws_histogram = draws_bars;
  draws_percentiles = λ points. true;
}

release_build_panics_iff_example :
    (benchmark plotters whole root false channel ≡ none)
    ↔ ((collect channel ≡ []) ⊎ (draws_all whole root plotters (collect channel) ≡ false))
unfolding as_micros collect
release_build_panics_iff_example =
    release_build_panics_iff whole root plotters channel (omega arith) (omega arith) (omega arith)
