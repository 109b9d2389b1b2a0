-- ===== src/Benchmark/Main.antt =====
-- `main` of the benchmark, from the channel of the timings to what it draws and prints.
use hardlight.Prelude.{
  ℕ, ◌+◌, ◌*◌, ◌/◌, ◌%◌, ◌≤◌, ◌<◌, ◌≡◌, refl, ◌↔◌, ◌⊎◌, ◌&&◌, if◌then◌else◌, Bool-cases, Bool, true,
  false, Option, some, none, inl, inr, List, [], ◌∷◌, arith, length, List-cases,
}
use hardlight.Codec.{◌>>=◌}
use hardlight.Benchmark.{
  Duration, as_micros, u128_size, usize_size, sub_u128, sort, Stats, stats, percentile_data,
  histogram_data,
}
use hardlight.Benchmark.Sort.{total}
use hardlight.Benchmark.Wrapping.{wrap-mod, squared_gap}
use hardlight.Benchmark.Summary.{lower_limit, stats_lem}
use hardlight.Benchmark.Graphs.{percentile_data_lem}
use hardlight.Benchmark.Scatter.{
  F64, larger, maximum, ScatterGraph, plot_scatter_graph, drawn_deviation, scatter_drawn,
}

-- The loop on the channel: `none` is a wait of 10 milliseconds without a timing, or a closed channel.
unfoldable pub collect : List (Option Duration) → List Duration
collect [] = []
collect (none ∷ rest) = []
collect (some elapsed ∷ rest) = elapsed ∷ collect rest

pub record Report : Type 0 where
  pub scatter : ScatterGraph
  pub histogram : List (ℕ × ℕ)
  pub numbers : Stats
  pub percentiles : List (ℕ × ℕ)

-- Whether plotters draws and writes a graph without an error: the `unwrap`s of the drawing panic on one.
pub record Plotters : Type 0 where
  pub draws_scatter : ScatterGraph → Bool
  pub draws_histogram : List (ℕ × ℕ) → Bool
  pub draws_percentiles : List (ℕ × ℕ) → Bool

-- A graph, once it is drawn.
abbrev drawn : {G : Type 0} → (G → Bool) → G → Option G
drawn draws graph = if draws graph then some graph else none

-- `none` is a panic.
unfoldable pub benchmark : Plotters → F64 → (ℕ → ℕ) → Bool → List (Option Duration) → Option Report
benchmark plotters f rounded_sqrt checks received = do
  let timings = collect received
  scatter ← plot_scatter_graph f checks timings
  scatter ← drawn plotters.draws_scatter scatter
  histogram ← drawn plotters.draws_histogram (histogram_data timings)
  numbers ← stats checks rounded_sqrt timings
  percentiles ← percentile_data checks (sort timings)
  percentiles ← drawn plotters.draws_percentiles percentiles
  some (record {
    scatter = scatter;
    histogram = histogram;
    numbers = numbers;
    percentiles = percentiles;
  })

maximum_total :
    (t : Duration) (ts : List Duration) → (max : Duration) × (maximum (t ∷ ts) ≡ some max)
maximum_total t [] = (t, refl)
maximum_total t (u ∷ us) = maximum_total (larger t u) us

module _ (f : F64) (rounded_sqrt : ℕ → ℕ) where
  release_scatter :
      (t : Duration) (ts : List Duration)
      → total as_micros (t ∷ ts) < u128_size
      → (graph : ScatterGraph) × (plot_scatter_graph f false (t ∷ ts) ≡ some graph)
  release_scatter t ts fits =
      let avg = total as_micros (t ∷ ts) / length (t ∷ ts) in
      let dev = drawn_deviation f false (t ∷ ts) in
      let (max, at_max) = maximum_total t ts in
      let low : sub_u128 false avg dev ≡ some (lower_limit avg dev) = ground arith in
      (
        _,
        scatter_drawn f false t ts fits max (lower_limit avg dev) ((avg + dev) % u128_size) at_max
            low (wrap-mod (avg + dev)),
      )

  -- Whether every graph of the timings that there is is drawn.
  abbrev drawn_if_any : {G : Type 0} → (G → Bool) → Option G → Bool
  drawn_if_any draws none = true
  drawn_if_any draws (some graph) = draws graph

  abbrev pub draws_all : Plotters → List Duration → Bool
  draws_all plotters timings =
      drawn_if_any plotters.draws_scatter (plot_scatter_graph f false timings)
      && plotters.draws_histogram (histogram_data timings)
      && drawn_if_any plotters.draws_percentiles (percentile_data false (sort timings))

  nothing_received :
      (plotters : Plotters) (received : List (Option Duration))
      → collect received ≡ []
      → benchmark plotters f rounded_sqrt false received ≡ none
  unfolding benchmark plot_scatter_graph
  nothing_received plotters received e = rw (e, ◌>>=◌) refl

  some_received :
      (plotters : Plotters) (received : List (Option Duration)) (t : Duration) (ts : List Duration)
      → collect received ≡ t ∷ ts
      → total as_micros (t ∷ ts) < u128_size
      → total (squared_gap (total as_micros (t ∷ ts) / length (t ∷ ts))) (t ∷ ts) < u128_size
      → length (t ∷ ts) * 100 ≤ usize_size
      → benchmark plotters f rounded_sqrt false received ≡ none
        ↔ draws_all plotters (t ∷ ts) ≡ false
  unfolding benchmark
  some_received plotters received t ts e fits squares_fit long =
      let (graph, planned) = release_scatter t ts fits in
      let (numbers, printed, summary) =
        stats_lem rounded_sqrt (t ∷ ts) (omega arith) fits squares_fit in
      let (points, plotted, hundred, rises, each) =
        percentile_data_lem false (t ∷ ts) (omega arith) long in
      rw (e, planned, printed, plotted, ◌>>=◌)
        (ground (
          arith,
          Bool-cases (plotters.draws_scatter graph),
          Bool-cases (plotters.draws_histogram (histogram_data (t ∷ ts))),
          Bool-cases (plotters.draws_percentiles points),
        ))

  pub release_build_panics_iff :
      (plotters : Plotters) (received : List (Option Duration))
      → total as_micros (collect received) < u128_size
      → total
          (squared_gap (total as_micros (collect received) / length (collect received)))
          (collect received)
        < u128_size
      → length (collect received) * 100 ≤ usize_size
      → (benchmark plotters f rounded_sqrt false received ≡ none)
        ↔ ((collect received ≡ []) ⊎ (draws_all plotters (collect received) ≡ false))
  release_build_panics_iff plotters received fits squares_fit long =
      elim (List-cases (collect received)) [
        | inl e ↦ (λ p. inl e, λ q. nothing_received plotters received e)
        | inr (t, ts, e) ↦
            let (to, from) =
              some_received plotters received t ts e (rw e at fits) (rw e at squares_fit)
                (rw e at long) in
            (
              λ p. inr (rw e (to p)),
              λ q. elim q [
                | inl nothing ↦ nothing_received plotters received nothing
                | inr fails ↦ from (rw e at fails)
              ],
            )
      ]
