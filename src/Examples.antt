-- ===== src/Examples.antt =====
-- The applications of examples/: their handlers, as functions of the connection's state.
pub mod Todo
pub mod Counter
pub mod Handwritten
pub mod Pet
use hardlight.Prelude.{ℕ, ◌+◌, ◌-◌, ◌%◌, ◌^◌, Bool, Option, none, some, ltb, leb, if◌then◌else◌}

-- `+` and `-` on `u32`: with overflow checks, as a debug build has them, an overflow panics; without
-- them it wraps. `none` is the panic.
module _ (overflow_checks : Bool) where
  unfoldable pub add_u32 : ℕ → ℕ → Option ℕ
  add_u32 a b =
      if ltb (a + b) (2 ^ 32)
      then some (a + b)
      else if overflow_checks
      then none
      else some ((a + b) % 2 ^ 32)

  unfoldable pub sub_u32 : ℕ → ℕ → Option ℕ
  sub_u32 a b =
      if leb b a
      then some (a - b)
      else if overflow_checks
      then none
      else some ((a + 2 ^ 32 - b) % 2 ^ 32)
