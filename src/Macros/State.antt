-- ===== src/Macros/State.antt =====
-- `#[connection_state]`: the state of a connection is a struct with named fields, which the macro
-- sees as a list. A state is the tuple of the fields' values, in the order of the struct.
pub mod Sync
pub mod Order
pub mod Expand
use hardlight.Prelude.{
  ℕ, zero, suc, Bool, true, false, Option, none, some, List, [], ◌∷◌, if◌then◌else◌, is_empty,
  PartialEq, length,
}
use hardlight.Wire.{Bytes, StateUpdate, HandlerResult, ok, err, client_decode_error}
use hardlight.Codec.{Codec, ◌>>=◌}

-- A field: its type, `PartialEq`, rkyv and `Default`.
pub record Field : Type 1 where
  pub Value : Type 0
  pub value_eq : PartialEq Value
  pub codec : Codec Value
  pub default : Value

abbrev pub State : List Field → Type 0
State [] = Unit {0}
State (f ∷ fs) = f.Value × State fs

-- `#[derive(Default)]`
unfoldable pub default_state : (fs : List Field) → State fs
default_state [] = tt
default_state (f ∷ fs) = (f.default, default_state fs)

-- The comparison in `Drop::drop`, from the field with the given index on; `none` is the panic of
-- `unwrap` where a field cannot be written.
unfoldable pub diff : (fs : List Field) → ℕ → State fs → State fs → Option (List StateUpdate)
diff [] index state starting = some []
diff (f ∷ fs) index (new, news) (old, olds) =
    let rest = diff fs (suc index) news olds in
    if f.value_eq.eq new old then rest else do
      bytes ← f.codec.to_bytes new
      changes ← rest
      some (record { index = index; bytes = bytes } ∷ changes)

abbrev unless_empty : List StateUpdate → Option (List StateUpdate)
unless_empty [] = none
unless_empty (c ∷ cs) = some (c ∷ cs)

-- `StateGuard`: the state that the lock guards, and the state when the guard was taken.
pub record StateGuard (fs : List Field) : Type 0 where
  pub state : State fs
  pub starting_state : State fs

-- `StateController::write` takes a guard of the state.
unfoldable pub write : (fs : List Field) → State fs → StateGuard fs
write fs state = record { state = state; starting_state = state }

-- `Drop::drop` of a guard: what it sends to the runtime, if it sends. The outer `none` is a panic.
unfoldable pub drop_guard : (fs : List Field) → StateGuard fs → Option (Option (List StateUpdate))
unfolding diff
drop_guard fs g = do changes ← diff fs 0 g.state g.starting_state; some (unless_empty changes)

-- The `match index` of `apply_changes`; an index that is no field's changes nothing.
unfoldable pub set_field : (fs : List Field) → ℕ → Bytes → State fs → Option (State fs)
set_field [] index bytes state = some state
set_field (f ∷ fs) zero bytes (old, olds) = do value ← f.codec.from_bytes bytes; some (value, olds)
set_field (f ∷ fs) (suc index) bytes (old, olds) = do
  rest ← set_field fs index bytes olds
  some (old, rest)

abbrev pub applied :
    {S : Type 0} → (S → S × HandlerResult (Unit {0})) → S → Option S → S × HandlerResult (Unit {0})
applied rest state none = (state, err client_decode_error)
applied rest state (some s) = rest s

-- The updates before one that cannot be read stay applied.
unfoldable pub apply_changes :
    (fs : List Field) → List StateUpdate → State fs → State fs × HandlerResult (Unit {0})
unfolding set_field
apply_changes fs [] state = (state, ok tt)
apply_changes fs (u ∷ changes) state =
    applied (apply_changes fs changes) state (set_field fs u.index u.bytes state)
