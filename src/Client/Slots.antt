-- ===== src/Client/Slots.antt =====
-- The 256 slots of a client, `active_rpc_calls`.
use hardlight.Prelude.{
  ℕ, zero, suc, ◌+◌, ◌≤◌, ◌≡◌, ◌↔◌, refl, Option, none, some, inl, inr, List, [], ◌∷◌, arith,
  get_elem?, set, length, hit, Option-cases,
}
use hardlight.Client.{Caller, position}

-- The slots that hold a caller.
unfoldable pub busy : List (Option Caller) → ℕ
busy [] = 0
busy (none ∷ slots) = busy slots
busy (some k ∷ slots) = suc (busy slots)

-- How often a caller waits in a slot.
unfoldable pub waiting : Caller → List (Option Caller) → ℕ
waiting k [] = 0
waiting k (slot ∷ slots) = hit k slot + waiting k slots

pub busy-le-length : (slots : List (Option Caller)) → busy slots ≤ length slots
unfolding busy
busy-le-length [] = omega arith
busy-le-length (none ∷ slots) = omega (arith, busy-le-length slots)
busy-le-length (some k ∷ slots) = omega (arith, busy-le-length slots)

-- The slot that `position` finds is free.
pub position-free :
    (slots : List (Option Caller)) (i : ℕ) → position slots ≡ some i → get_elem? slots i ≡ some none
unfolding position
position-free [] i h = cc
position-free (none ∷ slots) i h = ground arith
position-free (some k ∷ slots) i h = elim (Option-cases (position slots)) [
  | inl e ↦ ground (arith, e)
  | inr (j, e) ↦ let found = position-free slots j e in ground (arith, e, found)
]

-- `position` finds nothing exactly when every slot is busy.
pub position-none_iff :
    (slots : List (Option Caller)) → (position slots ≡ none) ↔ (busy slots ≡ length slots)
unfolding position busy
position-none_iff [] = (λ h. refl, λ h. refl)
position-none_iff (none ∷ slots) = (λ h. cc, λ h. absurd (omega (arith, busy-le-length slots)))
position-none_iff (some k ∷ slots) = ground (arith, position-none_iff slots)

pub waiting-set :
    (k : Caller) (slots : List (Option Caller)) (i : ℕ) (old new : Option Caller)
    → get_elem? slots i ≡ some old
    → waiting k (set slots i new) + hit k old ≡ waiting k slots + hit k new
unfolding waiting
waiting-set k [] i old new h = absurd (ground arith)
waiting-set k (slot ∷ slots) zero old new h =
    let e : slot ≡ old = ground arith in rw e (omega arith)
waiting-set k (slot ∷ slots) (suc i) old new h = omega (arith, waiting-set k slots i old new h)

pub busy-set-some :
    (k : Caller) (slots : List (Option Caller)) (i : ℕ)
    → get_elem? slots i ≡ some none
    → busy (set slots i (some k)) ≡ suc (busy slots)
unfolding busy
busy-set-some k [] i h = absurd (ground arith)
busy-set-some k (none ∷ slots) zero h = refl
busy-set-some k (some j ∷ slots) zero h = absurd (ground arith)
busy-set-some k (none ∷ slots) (suc i) h = busy-set-some k slots i h
busy-set-some k (some j ∷ slots) (suc i) h = omega (arith, busy-set-some k slots i h)
