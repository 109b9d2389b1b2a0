-- ===== src/Prelude/Assoc.antt =====
-- `HashMap`: an association list with one entry to a key. No result depends on the order.
use Prim.Native.Nat.{suc}
use mathlib.Core.Path.{◌≡◌, refl, ap, subst}
use mathlib.Core.Logic.{inl, inr}
use mathlib.Core.Bool.{Bool, true, false, ◌||◌}
use mathlib.Core.List.{List, [], ◌∷◌}
use mathlib.Core.Option.{Option, none, some}
use native.Mathlib.Omega.{arith}
use hardlight.Prelude.Tests.{PartialEq, ◌==◌, if◌then◌else◌, Bool-cases}
use hardlight.Prelude.Lists.{length, is_empty}

abbrev pub is_some {ℓ} : {A : Type ℓ} → Option A → Bool
is_some none = false
is_some (some a) = true

abbrev pub Map {ℓ κ} : Type ℓ → Type κ → Type (ℓ ⊔ κ)
Map K V = List (K × V)

module _ {ℓ κ} {K : Type ℓ} {V : Type κ} ⦃e : PartialEq K⦄ where
  unfoldable pub lookup : K → Map K V → Option V
  lookup k [] = none
  lookup k ((j, v) ∷ m) = if j == k then some v else lookup k m

  unfoldable pub contains_key : K → Map K V → Bool
  contains_key k [] = false
  contains_key k ((j, v) ∷ m) = j == k || contains_key k m

  unfoldable pub insert : K → V → Map K V → Map K V
  insert k v [] = (k, v) ∷ []
  insert k v ((j, w) ∷ m) = if j == k then (k, v) ∷ m else (j, w) ∷ insert k v m

  unfoldable pub remove : K → Map K V → Map K V
  remove k [] = []
  remove k ((j, v) ∷ m) = let rest = remove k m in if j == k then rest else (j, v) ∷ rest

  -- No key stands twice.
  abbrev pub IsUnique : Map K V → Type (ℓ ⊔ κ)
  IsUnique [] = Unit
  IsUnique ((j, v) ∷ m) = (contains_key j m ≡ false) × IsUnique m

  pub lookup-insert :
      (key other : K) (value : V) (m : Map K V)
      → lookup other (insert key value m) ≡ (if key == other then some value else lookup other m)
  unfolding lookup insert
  lookup-insert key other value [] = refl
  lookup-insert key other value ((first, old) ∷ rest) =
      let later = lookup-insert key other value rest in
      ground (arith, e.eq_iff key other, e.eq_iff first key, e.eq_iff first other, later)

  pub lookup-remove :
      (k j : K) (m : Map K V) → lookup j (remove k m) ≡ (if k == j then none else lookup j m)
  unfolding lookup remove
  lookup-remove k j [] = ground arith
  lookup-remove k j ((i, w) ∷ m) =
      ground (arith, e.eq_iff k j, e.eq_iff i k, e.eq_iff i j, lookup-remove k j m)

  pub contains_key-insert :
      (k j : K) (v : V) (m : Map K V)
      → contains_key j (insert k v m) ≡ (if k == j then true else contains_key j m)
  unfolding contains_key insert
  contains_key-insert k j v [] = ground arith
  contains_key-insert k j v ((i, w) ∷ m) =
      ground (arith, e.eq_iff k j, e.eq_iff i k, e.eq_iff i j, contains_key-insert k j v m)

  pub contains_key-remove :
      (k j : K) (m : Map K V)
      → contains_key j (remove k m) ≡ (if k == j then false else contains_key j m)
  unfolding contains_key remove
  contains_key-remove k j [] = ground arith
  contains_key-remove k j ((i, w) ∷ m) =
      ground (arith, e.eq_iff k j, e.eq_iff i k, e.eq_iff i j, contains_key-remove k j m)

  pub insert-IsUnique : (k : K) (v : V) (m : Map K V) → IsUnique m → IsUnique (insert k v m)
  unfolding insert contains_key
  insert-IsUnique k v [] u = (refl, tt)
  insert-IsUnique k v ((i, w) ∷ m) u = elim (Bool-cases (i == k)) [
    | inl hit ↦
        let same : i ≡ k = (e.eq_iff i k).0 hit in
        rw hit (ground (arith, u.0, u.1, same, ap (λ x. contains_key x m) same), u.1)
    | inr miss ↦ rw miss (
      ground (arith, contains_key-insert k i v m, e.eq_iff k i, e.eq_iff i k),
      insert-IsUnique k v m u.1,
    )
  ]

  pub remove-IsUnique : (k : K) (m : Map K V) → IsUnique m → IsUnique (remove k m)
  unfolding remove
  remove-IsUnique k [] u = tt
  remove-IsUnique k ((i, w) ∷ m) u = elim (Bool-cases (i == k)) [
    | inl hit ↦ rw hit (remove-IsUnique k m u.1)
    | inr miss ↦ rw miss (
      ground (arith, contains_key-remove k i m, e.eq_iff k i, e.eq_iff i k),
      remove-IsUnique k m u.1,
    )
  ]

  pub length-insert :
      (k : K) (v : V) (m : Map K V)
      → length (insert k v m) ≡ (if contains_key k m then length m else suc (length m))
  unfolding insert contains_key
  length-insert k v [] = refl
  length-insert k v ((i, w) ∷ m) = ground (arith, length-insert k v m)

  pub lookup-contains_key : (k : K) (m : Map K V) → contains_key k m ≡ false → lookup k m ≡ none
  unfolding lookup contains_key
  lookup-contains_key k [] h = refl
  lookup-contains_key k ((i, w) ∷ m) h = ground (arith, lookup-contains_key k m)

  pub contains_key-lookup :
      (k : K) (v : V) (m : Map K V) → lookup k m ≡ some v → contains_key k m ≡ true
  unfolding lookup contains_key
  contains_key-lookup k v [] h = cc
  contains_key-lookup k v ((i, w) ∷ m) h = ground (arith, contains_key-lookup k v m)

  pub remove_absent : (k : K) (m : Map K V) → contains_key k m ≡ false → remove k m ≡ m
  unfolding remove contains_key
  remove_absent k [] h = refl
  remove_absent k ((i, w) ∷ m) h = ground (arith, remove_absent k m)

  pub lookup_of_empty : (k : K) (m : Map K V) → is_empty m ≡ true → lookup k m ≡ none
  unfolding lookup
  lookup_of_empty k [] h = refl
  lookup_of_empty k (x ∷ m) h = ground arith

  pub contains_key-eq-lookup : (k : K) (m : Map K V) → contains_key k m ≡ is_some (lookup k m)
  unfolding lookup contains_key
  contains_key-eq-lookup k [] = refl
  contains_key-eq-lookup k ((i, w) ∷ m) = ground (arith, contains_key-eq-lookup k m)

-- A property of every entry, kept by the operations.
module _ {ℓ κ μ} {K : Type ℓ} {V : Type κ} ⦃e : PartialEq K⦄ (P : V → Type μ) where
  abbrev pub AllValues : Map K V → Type μ
  AllValues [] = Unit
  AllValues ((k, v) ∷ m) = P v × AllValues m

  pub lookup-AllValues : (k : K) (v : V) (m : Map K V) → AllValues m → lookup k m ≡ some v → P v
  unfolding lookup
  lookup-AllValues k v [] a h = absurd (ground arith)
  lookup-AllValues k v ((j, w) ∷ m) a h = elim (Bool-cases (j == k)) [
    | inl hit ↦ subst P (ground (arith, h, hit)) a.0
    | inr miss ↦ lookup-AllValues k v m a.1 (ground (arith, h, miss))
  ]

  pub insert-AllValues :
      (k : K) (v : V) (m : Map K V) → P v → AllValues m → AllValues (insert k v m)
  unfolding insert
  insert-AllValues k v [] p a = (p, tt)
  insert-AllValues k v ((j, w) ∷ m) p a = elim (Bool-cases (j == k)) [
    | inl hit ↦ rw hit (p, a.1)
    | inr miss ↦ rw miss (a.0, insert-AllValues k v m p a.1)
  ]

  pub remove-AllValues : (k : K) (m : Map K V) → AllValues m → AllValues (remove k m)
  unfolding remove
  remove-AllValues k [] a = tt
  remove-AllValues k ((j, w) ∷ m) a = elim (Bool-cases (j == k)) [
    | inl hit ↦ rw hit (remove-AllValues k m a.1)
    | inr miss ↦ rw miss (a.0, remove-AllValues k m a.1)
  ]
