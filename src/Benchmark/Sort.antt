-- ===== src/Benchmark/Sort.antt =====
-- The sort of the benchmark: its result ascends, and holds what it was given.
use hardlight.Prelude.{
  ℕ, zero, suc, ◌+◌, ◌≤◌, ◌≡◌, refl, sym, ◌∙◌, some, List, [], ◌∷◌, arith, leb, Bool-cases, inl,
  inr, length, get_elem?, All,
}
use hardlight.Benchmark.{Duration, insert_sorted, sort, last}

abbrev pub IsSorted : List Duration → Type 0
IsSorted [] = Unit
IsSorted (t ∷ ts) = All (λ u. t ≤ u) ts × IsSorted ts

All-insert_sorted :
    (P : Duration → Type 0) (t : Duration) (us : List Duration)
    → P t
    → All P us
    → All P (insert_sorted t us)
unfolding insert_sorted
All-insert_sorted P t [] p ps = (p, tt)
All-insert_sorted P t (u ∷ us) p ps = elim (Bool-cases (leb t u)) [
  | inl low ↦ rw low (p, ps)
  | inr high ↦ rw high (ps.0, All-insert_sorted P t us p ps.1)
]

All-below :
    (t u : Duration) (us : List Duration) → t ≤ u → All (λ v. u ≤ v) us → All (λ v. t ≤ v) us
All-below t u [] low all = tt
All-below t u (v ∷ vs) low all = (omega (arith, low, all.0), All-below t u vs low all.1)

insert_sorted-IsSorted :
    (t : Duration) (us : List Duration) → IsSorted us → IsSorted (insert_sorted t us)
unfolding insert_sorted
insert_sorted-IsSorted t [] sorted = (tt, tt)
insert_sorted-IsSorted t (u ∷ us) sorted = elim (Bool-cases (leb t u)) [
  | inl low ↦
      let below : t ≤ u = ground (arith, low) in
      rw low ((below, All-below t u us below sorted.0), sorted)
  | inr high ↦
      let above : u ≤ t = ground (arith, high) in
      rw high
        (All-insert_sorted (λ v. u ≤ v) t us above sorted.0, insert_sorted-IsSorted t us sorted.1)
]

pub sort-IsSorted : (ts : List Duration) → IsSorted (sort ts)
unfolding sort
sort-IsSorted [] = tt
sort-IsSorted (t ∷ ts) = insert_sorted-IsSorted t (sort ts) (sort-IsSorted ts)

-- The sum of what `f` gives.
abbrev pub total : (Duration → ℕ) → List Duration → ℕ
total f [] = 0
total f (t ∷ ts) = f t + total f ts

total-insert_sorted :
    (f : Duration → ℕ) (t : Duration) (us : List Duration)
    → total f (insert_sorted t us) ≡ f t + total f us
unfolding insert_sorted
total-insert_sorted f t [] = refl
total-insert_sorted f t (u ∷ us) = elim (Bool-cases (leb t u)) [
  | inl low ↦ rw low refl
  | inr high ↦ rw high (omega (arith, total-insert_sorted f t us))
]

-- Whatever is summed or counted, the sort does not change it.
pub total-sort : (f : Duration → ℕ) (ts : List Duration) → total f (sort ts) ≡ total f ts
unfolding sort
total-sort f [] = refl
total-sort f (t ∷ ts) = omega (arith, total-insert_sorted f t (sort ts), total-sort f ts)

length-eq-total : (ts : List Duration) → length ts ≡ total (λ t. 1) ts
length-eq-total [] = refl
length-eq-total (t ∷ ts) = omega (arith, length-eq-total ts)

pub length-sort : (ts : List Duration) → length (sort ts) ≡ length ts
length-sort ts = length-eq-total (sort ts) ∙ total-sort (λ t. 1) ts ∙ sym (length-eq-total ts)

-- Entries further back are no smaller.
pub get_elem?-ascends :
    (ts : List Duration) (i j : ℕ) (t u : Duration)
    → IsSorted ts
    → i ≤ j
    → get_elem? ts i ≡ some t
    → get_elem? ts j ≡ some u
    → t ≤ u
get_elem?-ascends [] i j t u sorted before first second = absurd (ground (arith, first))
get_elem?-ascends (v ∷ vs) zero zero t u sorted before first second = ground (arith, first, second)
get_elem?-ascends (v ∷ vs) zero (suc j) t u sorted before first second =
    let same : v ≡ t = ground (arith, first) in
    rw (← same) (get_elem?-all (λ x. v ≤ x) vs j u sorted.0 second)
  where
    get_elem?-all :
        (P : Duration → Type 0) (xs : List Duration) (k : ℕ) (x : Duration)
        → All P xs
        → get_elem? xs k ≡ some x
        → P x
    get_elem?-all P [] k x all at = absurd (ground (arith, at))
    get_elem?-all P (y ∷ ys) zero x all at =
        let here : y ≡ x = ground (arith, at) in rw (← here) all.0
    get_elem?-all P (y ∷ ys) (suc k) x all at = get_elem?-all P ys k x all.1 at
get_elem?-ascends (v ∷ vs) (suc i) zero t u sorted before first second = absurd (omega arith)
get_elem?-ascends (v ∷ vs) (suc i) (suc j) t u sorted before first second =
    get_elem?-ascends vs i j t u sorted.1 (omega arith) first second

-- The last entry is the one before the end.
pub last-get_elem? :
    (t : Duration) (ts : List Duration) → last (t ∷ ts) ≡ get_elem? (t ∷ ts) (length ts)
last-get_elem? t [] = refl
last-get_elem? t (u ∷ us) = last-get_elem? u us
