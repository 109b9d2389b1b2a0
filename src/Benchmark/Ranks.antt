-- ===== src/Benchmark/Ranks.antt =====
-- How many timings are smaller or larger than the one at a place of the sorted timings, in
-- microseconds.
use hardlight.Prelude.{
  ℕ, zero, suc, ◌+◌, ◌≤◌, ◌<◌, ◌≡◌, refl, some, List, [], ◌∷◌, arith, ltb, nat_beq, nat_beq_iff,
  if◌then◌else◌, length, get_elem?, All,
}
use hardlight.Benchmark.{Duration, as_micros, sort}
use hardlight.Benchmark.Sort.{IsSorted, total, total-sort, length-sort, get_elem?-ascends}
use hardlight.Benchmark.Bounds.{as_micros-ascends}

-- 1 of a timing with less, with more, or with as many microseconds.
abbrev pub is_less : ℕ → Duration → ℕ
is_less v t = if ltb (as_micros t) v then 1 else 0

abbrev pub is_more : ℕ → Duration → ℕ
is_more v t = if ltb v (as_micros t) then 1 else 0

abbrev pub is_equal : ℕ → Duration → ℕ
is_equal v t = if nat_beq (as_micros t) v then 1 else 0

none_less :
    (t : Duration) (ts : List Duration) → All (λ u. t ≤ u) ts → total (is_less (as_micros t)) ts ≡ 0
none_less t [] all = refl
none_less t (u ∷ us) all =
    let over = as_micros-ascends t u all.0 in
    let here : is_less (as_micros t) u ≡ 0 = ground (arith, over) in
    omega (arith, here, none_less t us all.1)

at_most_all : (v : ℕ) (ts : List Duration) → total (is_more v) ts ≤ length ts
at_most_all v [] = omega arith
at_most_all v (t ∷ ts) =
    let one : is_more v t ≤ 1 = ground arith in omega (arith, one, at_most_all v ts)

-- The place of a timing bounds how many are smaller and how many are larger.
pub record HasRank (v k : ℕ) (ts : List Duration) : Type 0 where
  pub less : total (is_less v) ts ≤ k
  pub more : total (is_more v) ts + k < length ts
  pub held : 0 < total (is_equal v) ts

pub get_elem?-HasRank :
    (ts : List Duration) (k : ℕ) (u : Duration)
    → IsSorted ts
    → get_elem? ts k ≡ some u
    → HasRank (as_micros u) k ts
get_elem?-HasRank [] k u sorted at = absurd (ground (arith, at))
get_elem?-HasRank (t ∷ ts) zero u sorted at =
    let same : t ≡ u = ground (arith, at) in
    let own_less : is_less (as_micros t) t ≡ 0 = ground arith in
    let own_more : is_more (as_micros t) t ≡ 0 = ground arith in
    let own_equal : is_equal (as_micros t) t ≡ 1 =
      ground (arith, nat_beq_iff (as_micros t) (as_micros t)) in
    rw (← same) (record {
      less = omega (arith, own_less, none_less t ts sorted.0);
      more = omega (arith, own_more, at_most_all (as_micros t) ts);
      held = omega (arith, own_equal);
    })
get_elem?-HasRank (t ∷ ts) (suc k) u sorted at =
    let rest = get_elem?-HasRank ts k u sorted.1 at in
    let before = get_elem?-ascends (t ∷ ts) 0 (suc k) t u sorted (omega arith) refl at in
    let micros = as_micros-ascends t u before in
    let one : is_less (as_micros u) t ≤ 1 = ground arith in
    let own_more : is_more (as_micros u) t ≡ 0 = ground (arith, micros) in
    record {
      less = omega (arith, one, rest.less);
      more = omega (arith, own_more, rest.more);
      held = omega (arith, rest.held);
    }

-- The sort changes no rank.
pub HasRank-sort : (v k : ℕ) (ts : List Duration) → HasRank v k (sort ts) → HasRank v k ts
HasRank-sort v k ts r = record {
  less = omega (arith, r.less, total-sort (is_less v) ts);
  more = omega (arith, r.more, total-sort (is_more v) ts, length-sort ts);
  held = omega (arith, r.held, total-sort (is_equal v) ts);
}
