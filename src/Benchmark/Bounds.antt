-- ===== src/Benchmark/Bounds.antt =====
-- A mean of timings lies between the smallest and the largest.
use native.Mathlib.Nat.{
  le-div_iff_mul-le, div-mul-le_self, le_of_mul-le-mul_right, suc-mul, zero-mul, mul_comm,
}
use hardlight.Prelude.{ℕ, ◌*◌, ◌/◌, ◌≤◌, ◌<◌, ◌≡◌, some, List, [], ◌∷◌, arith, length, All}
use hardlight.Benchmark.{Duration, as_micros, last}
use hardlight.Benchmark.Sort.{IsSorted, total}

pub as_micros-ascends : (t u : Duration) → t ≤ u → as_micros t ≤ as_micros u
unfolding as_micros
as_micros-ascends t u h = omega (arith, h)

pub total_at_least :
    (t : Duration) (ts : List Duration)
    → All (λ u. t ≤ u) ts
    → length ts * as_micros t ≤ total as_micros ts
total_at_least t [] all = omega (arith, zero-mul (as_micros t))
total_at_least t (u ∷ us) all = omega (
  arith,
  suc-mul (length us) (as_micros t),
  total_at_least t us all.1,
  as_micros-ascends t u all.0,
)

pub total_at_most :
    (u : Duration) (ts : List Duration)
    → All (λ t. t ≤ u) ts
    → total as_micros ts ≤ length ts * as_micros u
total_at_most u [] all = omega (arith, zero-mul (as_micros u))
total_at_most u (t ∷ ts) all = omega (
  arith,
  suc-mul (length ts) (as_micros u),
  total_at_most u ts all.1,
  as_micros-ascends t u all.0,
)

-- Of ascending timings, every one lies between the first and the last.
pub below_last :
    (t : Duration) (ts : List Duration) (u : Duration)
    → IsSorted (t ∷ ts)
    → last (t ∷ ts) ≡ some u
    → All (λ v. v ≤ u) (t ∷ ts)
below_last t [] u sorted e = (ground (arith, e), tt)
below_last t (v ∷ vs) u sorted e =
    let rest = below_last v vs u sorted.1 e in (omega (arith, sorted.0.0, rest.0), rest)

pub mean_at_least : (n sum m : ℕ) → 0 < n → n * m ≤ sum → m ≤ sum / n
mean_at_least n sum m some_left h = (le-div_iff_mul-le some_left).1 (omega (arith, mul_comm n m, h))

pub mean_at_most : (n sum m : ℕ) → 0 < n → sum ≤ n * m → sum / n ≤ m
mean_at_most n sum m some_left h =
    le_of_mul-le-mul_right (omega (arith, div-mul-le_self sum n, mul_comm n m, h)) some_left
