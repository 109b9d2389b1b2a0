-- ===== src/Prelude/Tagged.antt =====
-- Queues whose entries may carry a number: how many carry a given one, and what holds of these.
use Prim.Native.Nat.{ℕ, ◌+◌}
use mathlib.Core.Path.{◌≡◌}
use mathlib.Core.List.{List, [], ◌∷◌, ◌++◌}
use mathlib.Core.Option.{Option, none, some}
use native.Mathlib.Omega.{arith}
use hardlight.Prelude.Tests.{nat_beq, if◌then◌else◌}
use hardlight.Prelude.Lists.{All}

-- 1 if the option holds the number.
abbrev pub hit : ℕ → Option ℕ → ℕ
hit i none = 0
hit i (some j) = if nat_beq j i then 1 else 0

pub hit_self : (i : ℕ) → hit i (some i) ≡ 1
hit_self i = ground arith

module _ {ℓ} {A : Type ℓ} (tag : A → Option ℕ) where
  unfoldable pub count : ℕ → List A → ℕ
  count i [] = 0
  count i (x ∷ xs) = hit i (tag x) + count i xs

  -- `P` holds of the entries that carry `i`.
  abbrev pub AllTagged {κ} : ℕ → (A → Type κ) → List A → Type κ
  AllTagged i P = All (λ a. tag a ≡ some i → P a)

  pub count-append : (i : ℕ) (xs ys : List A) → count i (xs ++ ys) ≡ count i xs + count i ys
  unfolding count
  count-append i [] ys = omega arith
  count-append i (x ∷ xs) ys = omega (arith, count-append i xs ys)

  pub AllTagged-of_count {κ} :
      (i : ℕ) (P : A → Type κ) (xs : List A) → count i xs ≡ 0 → AllTagged i P xs
  unfolding count
  AllTagged-of_count i P [] h = tt
  AllTagged-of_count i P (x ∷ xs) h =
      (λ e. absurd (ground (arith, h, e, hit_self i)), AllTagged-of_count i P xs (omega arith))
