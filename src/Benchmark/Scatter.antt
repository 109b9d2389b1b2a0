-- ===== src/Benchmark/Scatter.antt =====
-- The scatter graph of the benchmark, with the mean and the deviation, which it works out in floats.
use hardlight.Prelude.{
  ℕ, suc, ◌+◌, ◌/◌, ◌<◌, ◌≡◌, refl, ◌∙◌, ap, Bool, Option, none, some, List, [], ◌∷◌, arith, leb,
  if◌then◌else◌, length,
}
use hardlight.Codec.{◌>>=◌}
use hardlight.Benchmark.{Duration, as_micros, u128_size, wrap, sub_u128, sum_from, div_length}
use hardlight.Benchmark.Sort.{total}
use hardlight.Benchmark.Wrapping.{sum_from_lem}

-- `f64`
pub record F64 : Type 1 where
  pub Float : Type 0
  pub of_u128 : ℕ → Float
  pub to_u128 : Float → ℕ
  pub zero_float : Float
  pub add : Float → Float → Float
  pub sub : Float → Float → Float
  pub mul : Float → Float → Float
  pub div : Float → Float → Float
  pub sqrt : Float → Float

abbrev pub larger : Duration → Duration → Duration
larger t u = if leb t u then u else t

-- `timings.iter().max()`
abbrev pub maximum : List Duration → Option Duration
maximum [] = none
maximum (t ∷ []) = some t
maximum (t ∷ u ∷ us) = maximum (larger t u ∷ us)

-- `timings.iter().enumerate()`, from `i` on.
unfoldable pub points_from : ℕ → List Duration → List (ℕ × ℕ)
points_from i [] = []
points_from i (t ∷ ts) = (i, as_micros t) ∷ points_from (suc i) ts

-- What the graph draws, and the ranges of its axes.
pub record ScatterGraph : Type 0 where
  pub x_end : ℕ
  pub y_end : ℕ
  pub points : List (ℕ × ℕ)
  pub avg_line : ℕ
  pub low_line : ℕ
  pub high_line : ℕ

module _ (f : F64) (checks : Bool) where
  open f use {Float, of_u128, to_u128, zero_float, add, sub, mul, div, sqrt}

  -- The loop of `standard_deviation`.
  unfoldable pub variance_from : Float → ℕ → List Duration → Float
  variance_from variance avg [] = variance
  variance_from variance avg (t ∷ ts) =
      let diff = sub (of_u128 (as_micros t)) (of_u128 avg) in
      variance_from (add variance (mul diff diff)) avg ts

  unfoldable pub standard_deviation : List Duration → Option Float
  standard_deviation timings = do
    sum ← sum_from checks 0 timings
    avg ← div_length sum timings
    some (sqrt (div (variance_from zero_float avg timings) (of_u128 (length timings))))

  unfoldable pub plot_scatter_graph : List Duration → Option ScatterGraph
  plot_scatter_graph timings = do
    max ← maximum timings
    sum ← sum_from checks 0 timings
    avg ← div_length sum timings
    std_dev ← standard_deviation timings
    low ← sub_u128 checks avg (to_u128 std_dev)
    high ← wrap checks (avg + to_u128 std_dev)
    some (record {
      x_end = length timings;
      y_end = as_micros max;
      points = points_from 0 timings;
      avg_line = avg;
      low_line = low;
      high_line = high;
    })

  -- The deviation that the graph draws, of timings whose sum fits.
  abbrev pub drawn_deviation : List Duration → ℕ
  drawn_deviation timings = to_u128 (
      sqrt (
        div (variance_from zero_float (total as_micros timings / length timings) timings)
          (of_u128 (length timings))))

  -- At least one timing, and a sum that fits into 128 bits.
  module _ (t : Duration) (ts : List Duration) (fits : total as_micros (t ∷ ts) < u128_size) where
    abbrev timings : List Duration
    timings = t ∷ ts

    abbrev avg : ℕ
    avg = total as_micros timings / length timings

    sums : sum_from checks 0 timings ≡ some (total as_micros timings)
    sums = sum_from_lem checks 0 timings (omega (arith, fits)) ∙ ap some (omega arith)

    deviates :
        standard_deviation timings
        ≡ some (sqrt (div (variance_from zero_float avg timings) (of_u128 (length timings))))
    unfolding standard_deviation
    deviates = rw (sums, ◌>>=◌) refl

    pub scatter_drawn :
        (max low high : ℕ)
        → maximum timings ≡ some max
        → sub_u128 checks avg (drawn_deviation timings) ≡ some low
        → wrap checks (avg + drawn_deviation timings) ≡ some high
        → plot_scatter_graph timings
          ≡ some (record {
            x_end = length timings;
            y_end = as_micros max;
            points = points_from 0 timings;
            avg_line = avg;
            low_line = low;
            high_line = high;
          })
    unfolding plot_scatter_graph
    scatter_drawn max low high m l h = rw (m, sums, deviates, l, h, ◌>>=◌) refl
