-- ===== src/Benchmark/Histogram.antt =====
-- The histogram of the benchmark: every timing is counted once, in the bar of its microsecond.
use hardlight.Prelude.{
  ℕ, suc, ◌+◌, ◌≤◌, ◌≡◌, refl, ◌∙◌, ap, some, inl, inr, List, [], ◌∷◌, arith, leb, nat_beq,
  nat_beq_iff, if◌then◌else◌, Bool-cases, length, All, Map, lookup, insert, lookup-insert, nat_eq,
}
use hardlight.Benchmark.{
  Duration, as_micros, or_zero, histogram_from, insert_by_bin, sort_by_bin, histogram_data,
}
use hardlight.Benchmark.Sort.{total}

-- 1 of a timing of the bin.
abbrev pub in_bin : ℕ → Duration → ℕ
in_bin bin t = if nat_beq (as_micros t) bin then 1 else 0

lookup-insert_by_bin :
    (bin : ℕ) (bar : ℕ × ℕ) (bars : List (ℕ × ℕ))
    → lookup bin (insert_by_bin bar bars)
      ≡ (if nat_beq bar.0 bin then some bar.1 else lookup bin bars)
unfolding insert_by_bin lookup
lookup-insert_by_bin bin bar [] = refl
lookup-insert_by_bin bin bar (next ∷ rest) =
    let later = lookup-insert_by_bin bin bar rest in ground (arith, later)

lookup-sort_by_bin :
    (bin : ℕ) (bars : List (ℕ × ℕ)) → lookup bin (sort_by_bin bars) ≡ lookup bin bars
unfolding sort_by_bin lookup
lookup-sort_by_bin bin [] = refl
lookup-sort_by_bin bin (bar ∷ bars) =
    lookup-insert_by_bin bin bar (sort_by_bin bars) ∙ (rw (lookup-sort_by_bin bin bars) refl)

lookup-histogram_from :
    (bin : ℕ) (histogram : Map ℕ ℕ) (ts : List Duration)
    → or_zero (lookup bin (histogram_from histogram ts))
      ≡ or_zero (lookup bin histogram) + total (in_bin bin) ts
unfolding histogram_from
lookup-histogram_from bin histogram [] = omega arith
lookup-histogram_from bin histogram (t ∷ ts) =
    let bar = suc (or_zero (lookup (as_micros t) histogram)) in
    let stored = lookup-insert (as_micros t) bin bar histogram in
    let counted : or_zero (lookup bin (insert (as_micros t) bar histogram))
        ≡ or_zero (lookup bin histogram) + in_bin bin t =
      ap or_zero stored ∙ one_more in
    omega (arith, lookup-histogram_from bin (insert (as_micros t) bar histogram) ts, counted)
  where
    one_more :
        or_zero (
          if nat_beq (as_micros t) bin
          then some (suc (or_zero (lookup (as_micros t) histogram)))
          else lookup bin histogram)
        ≡ or_zero (lookup bin histogram) + in_bin bin t
    one_more = elim (Bool-cases (nat_beq (as_micros t) bin)) [
      | inl same ↦
          let here : as_micros t ≡ bin = (nat_beq_iff (as_micros t) bin).0 same in
          rw same (omega (arith, ap (λ b. or_zero (lookup b histogram)) here))
      | inr other ↦ rw other (omega arith)
    ]

-- The sum of the bars.
abbrev pub tally : List (ℕ × ℕ) → ℕ
tally [] = 0
tally (bar ∷ bars) = bar.1 + tally bars

tally-insert :
    (bin count : ℕ) (m : Map ℕ ℕ)
    → tally (insert bin count m) + or_zero (lookup bin m) ≡ tally m + count
unfolding insert lookup
tally-insert bin count [] = omega arith
tally-insert bin count (bar ∷ m) = elim (Bool-cases (nat_beq bar.0 bin)) [
  | inl same ↦ rw same (omega arith)
  | inr other ↦ rw other (omega (arith, tally-insert bin count m))
]

tally-histogram_from :
    (histogram : Map ℕ ℕ) (ts : List Duration)
    → tally (histogram_from histogram ts) ≡ tally histogram + length ts
unfolding histogram_from
tally-histogram_from histogram [] = omega arith
tally-histogram_from histogram (t ∷ ts) =
    let bar = suc (or_zero (lookup (as_micros t) histogram)) in
    omega (
      arith,
      tally-histogram_from (insert (as_micros t) bar histogram) ts,
      tally-insert (as_micros t) bar histogram,
    )

tally-insert_by_bin :
    (bar : ℕ × ℕ) (bars : List (ℕ × ℕ)) → tally (insert_by_bin bar bars) ≡ bar.1 + tally bars
unfolding insert_by_bin
tally-insert_by_bin bar [] = refl
tally-insert_by_bin bar (next ∷ rest) = elim (Bool-cases (leb bar.0 next.0)) [
  | inl low ↦ rw low refl
  | inr high ↦ rw high (omega (arith, tally-insert_by_bin bar rest))
]

tally-sort_by_bin : (bars : List (ℕ × ℕ)) → tally (sort_by_bin bars) ≡ tally bars
unfolding sort_by_bin
tally-sort_by_bin [] = refl
tally-sort_by_bin (bar ∷ bars) =
    omega (arith, tally-insert_by_bin bar (sort_by_bin bars), tally-sort_by_bin bars)

-- The bins do not fall.
abbrev pub Rises : List (ℕ × ℕ) → Type 0
Rises [] = Unit
Rises (p ∷ ps) = All (λ (q : ℕ × ℕ). p.0 ≤ q.0) ps × Rises ps

All-insert_by_bin :
    (low : ℕ) (bar : ℕ × ℕ) (bars : List (ℕ × ℕ))
    → low ≤ bar.0
    → All (λ (q : ℕ × ℕ). low ≤ q.0) bars
    → All (λ (q : ℕ × ℕ). low ≤ q.0) (insert_by_bin bar bars)
unfolding insert_by_bin
All-insert_by_bin low bar [] p ps = (p, tt)
All-insert_by_bin low bar (next ∷ rest) p ps = elim (Bool-cases (leb bar.0 next.0)) [
  | inl front ↦ rw front (p, ps)
  | inr later ↦ rw later (ps.0, All-insert_by_bin low bar rest p ps.1)
]

All-lower :
    (low high : ℕ) (bars : List (ℕ × ℕ))
    → low ≤ high
    → All (λ (q : ℕ × ℕ). high ≤ q.0) bars
    → All (λ (q : ℕ × ℕ). low ≤ q.0) bars
All-lower low high [] h all = tt
All-lower low high (bar ∷ bars) h all = (omega (arith, h, all.0), All-lower low high bars h all.1)

insert_by_bin-Rises :
    (bar : ℕ × ℕ) (bars : List (ℕ × ℕ)) → Rises bars → Rises (insert_by_bin bar bars)
unfolding insert_by_bin
insert_by_bin-Rises bar [] rises = (tt, tt)
insert_by_bin-Rises bar (next ∷ rest) rises = elim (Bool-cases (leb bar.0 next.0)) [
  | inl front ↦
      let below : bar.0 ≤ next.0 = ground (arith, front) in
      rw front ((below, All-lower bar.0 next.0 rest below rises.0), rises)
  | inr later ↦
      let above : next.0 ≤ bar.0 = ground (arith, later) in
      rw later
        (All-insert_by_bin next.0 bar rest above rises.0, insert_by_bin-Rises bar rest rises.1)
]

sort_by_bin-Rises : (bars : List (ℕ × ℕ)) → Rises (sort_by_bin bars)
unfolding sort_by_bin
sort_by_bin-Rises [] = tt
sort_by_bin-Rises (bar ∷ bars) = insert_by_bin-Rises bar (sort_by_bin bars) (sort_by_bin-Rises bars)

-- The bars of the histogram stand in the order of their bins; the bar of a bin is as high as there are
-- timings of that microsecond, and all bars together are as high as there are timings.
pub histogram_data_lem :
    (timings : List Duration)
    → Rises (histogram_data timings)
      × ((bin : ℕ) → or_zero (lookup bin (histogram_data timings)) ≡ total (in_bin bin) timings)
      × (tally (histogram_data timings) ≡ length timings)
unfolding histogram_data lookup
histogram_data_lem timings = (
  sort_by_bin-Rises (histogram_from [] timings),
  λ bin.
      ap or_zero (lookup-sort_by_bin bin (histogram_from [] timings))
      ∙ lookup-histogram_from bin [] timings
      ∙ omega arith,
  tally-sort_by_bin (histogram_from [] timings) ∙ tally-histogram_from [] timings ∙ omega arith,
)
