-- ===== src/Prelude/Lists.antt =====
-- Lists measured and indexed by native numbers, under the library's names.
use Prim.Native.Nat.{ℕ, zero, suc, ◌+◌, ◌<◌}
use mathlib.Core.Path.{◌≡◌, refl, ap}
use mathlib.Core.Logic.{◌≢◌}
use mathlib.Core.Bool.{Bool, true, false}
use mathlib.Core.List.{List, [], ◌∷◌, ◌++◌, map}
use mathlib.Core.Option.{Option, none, some}
use native.Mathlib.Omega.{arith}

module _ {ℓ} {A : Type ℓ} where
  abbrev pub length : List A → ℕ
  length [] = 0
  length (x ∷ xs) = suc (length xs)

  abbrev pub get_elem? : List A → ℕ → Option A
  get_elem? [] i = none
  get_elem? (x ∷ xs) zero = some x
  get_elem? (x ∷ xs) (suc i) = get_elem? xs i

  abbrev pub replicate : ℕ → A → List A
  replicate zero a = []
  replicate (suc n) a = a ∷ replicate n a

  abbrev pub take : ℕ → List A → List A
  take zero xs = []
  take (suc n) [] = []
  take (suc n) (x ∷ xs) = x ∷ take n xs

  abbrev pub is_empty : List A → Bool
  is_empty [] = true
  is_empty (x ∷ xs) = false

  pub nil_of_length : (xs : List A) → length xs ≡ 0 → xs ≡ []
  nil_of_length [] h = refl
  nil_of_length (x ∷ xs) h = absurd (omega arith)

  pub length-append : (xs ys : List A) → length (xs ++ ys) ≡ length xs + length ys
  length-append [] ys = omega arith
  length-append (x ∷ xs) ys = omega (arith, length-append xs ys)

  pub length-replicate : (n : ℕ) (a : A) → length (replicate n a) ≡ n
  length-replicate zero a = refl
  length-replicate (suc n) a = ap suc (length-replicate n a)

  -- `a[i] = v`; a write out of bounds changes nothing.
  abbrev pub set : List A → ℕ → A → List A
  set [] i v = []
  set (x ∷ xs) zero v = v ∷ xs
  set (x ∷ xs) (suc i) v = x ∷ set xs i v

  pub length-set : (xs : List A) (i : ℕ) (v : A) → length (set xs i v) ≡ length xs
  length-set [] i v = refl
  length-set (x ∷ xs) zero v = refl
  length-set (x ∷ xs) (suc i) v = ap suc (length-set xs i v)

  pub get_elem?-set_self :
      (xs : List A) (i : ℕ) (v : A) → i < length xs → get_elem? (set xs i v) i ≡ some v
  get_elem?-set_self [] i v h = elim h [ ]
  get_elem?-set_self (x ∷ xs) zero v h = refl
  get_elem?-set_self (x ∷ xs) (suc i) v h = get_elem?-set_self xs i v (omega arith)

  pub get_elem?-set_ne :
      (xs : List A) (i j : ℕ) (v : A) → i ≢ j → get_elem? (set xs i v) j ≡ get_elem? xs j
  get_elem?-set_ne [] i j v h = refl
  get_elem?-set_ne (x ∷ xs) zero zero v h = absurd (h refl)
  get_elem?-set_ne (x ∷ xs) zero (suc j) v h = refl
  get_elem?-set_ne (x ∷ xs) (suc i) zero v h = refl
  get_elem?-set_ne (x ∷ xs) (suc i) (suc j) v h = get_elem?-set_ne xs i j v (λ e. h (ap suc e))

  pub get_elem?_total : (xs : List A) (i : ℕ) → i < length xs → (v : A) × (get_elem? xs i ≡ some v)
  get_elem?_total [] i h = elim h [ ]
  get_elem?_total (x ∷ xs) zero h = (x, refl)
  get_elem?_total (x ∷ xs) (suc i) h = get_elem?_total xs i (omega arith)

  pub get_elem?-lt-length : (xs : List A) (i : ℕ) {v : A} → get_elem? xs i ≡ some v → i < length xs
  get_elem?-lt-length [] i h = absurd (ground arith)
  get_elem?-lt-length (x ∷ xs) zero h = omega arith
  get_elem?-lt-length (x ∷ xs) (suc i) h = omega (arith, get_elem?-lt-length xs i h)

  pub get_elem?-replicate : (n i : ℕ) (v : A) → i < n → get_elem? (replicate n v) i ≡ some v
  get_elem?-replicate zero i v h = elim h [ ]
  get_elem?-replicate (suc n) zero v h = refl
  get_elem?-replicate (suc n) (suc i) v h = get_elem?-replicate n i v (omega arith)

pub length-map {ℓ κ} :
    {A : Type ℓ} {B : Type κ} (f : A → B) (xs : List A) → length (map f xs) ≡ length xs
length-map f [] = refl
length-map f (x ∷ xs) = ap suc (length-map f xs)

-- A predicate of every entry; it computes to tuples.
abbrev pub All {ℓ κ} : {A : Type ℓ} → (A → Type κ) → List A → Type κ
All P [] = Unit
All P (x ∷ xs) = P x × All P xs

pub All-append {ℓ κ} :
    {A : Type ℓ} (P : A → Type κ) (xs ys : List A) → All P xs → All P ys → All P (xs ++ ys)
All-append P [] ys hx hy = hy
All-append P (x ∷ xs) ys hx hy = (hx.0, All-append P xs ys hx.1 hy)
