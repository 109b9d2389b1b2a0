-- ===== src/Macros/State/Expand.antt =====
-- `connection_state` of macros/src/lib.rs, from the struct that it is written on to the arms that it
-- gives out, and what these do.
pub mod Places
use hardlight.Prelude.{
  ℕ, zero, suc, ◌+◌, ◌≡◌, ◌≢◌, refl, ◌∙◌, ap, true, false, Option, none, some, inl, inr, List, [],
  ◌∷◌, ◌++◌, map, arith, if◌then◌else◌, ◌==◌, beq_refl, nat_beq, nat_eq, list_eq, list_beq_iff,
  length, All, Bool-cases, Option-cases,
}
use hardlight.Wire.{Bytes, StateUpdate}
use hardlight.Codec.{◌>>=◌}
use hardlight.Macros.Expand.{Text}
use hardlight.Macros.Expand.Agree.{AreDistinct}
use hardlight.Macros.State.{Field, State, diff, set_field}

-- `syn::Field`: a field of a tuple struct has no name.
pub record ItemField : Type 0 where
  pub ident : Option Text
  pub ty : Text

-- `syn::ItemStruct`
pub record ItemStruct : Type 0 where
  pub vis : Text
  pub ident : Text
  pub fields : List ItemField

-- `none` is the panic of `unwrap`.
unfoldable pub field_names : List ItemField → Option (List Text)
field_names [] = some []
field_names (field ∷ fields) = do
  name ← field.ident
  names ← field_names fields
  some (name ∷ names)

-- `(first..first + n).collect()`
abbrev pub indices_from : ℕ → ℕ → List ℕ
indices_from first zero = []
indices_from first (suc n) = first ∷ indices_from (suc first) n

-- A repetition `#( ... )*` of `quote!`, which goes through both lists at once.
abbrev pub repetition : List ℕ → List Text → List (ℕ × Text)
repetition [] names = []
repetition (index ∷ indices) [] = []
repetition (index ∷ indices) (name ∷ names) = (index, name) ∷ repetition indices names

-- The type of the lock, the type with `apply_changes`, the `if` statements of `Drop::drop`, and the arms of
-- `apply_changes`.
pub record StateItems : Type 0 where
  pub state_ident : Text
  pub client_state_ident : Text
  pub comparisons : List (ℕ × Text)
  pub arms : List (ℕ × Text)

abbrev pub quoted : Text → List Text → StateItems
quoted state_ident names =
    let field_indices = indices_from 0 (length names) in
    record {
      state_ident = state_ident;
      client_state_ident = b'S' ∷ b't' ∷ b'a' ∷ b't' ∷ b'e' ∷ [];
      comparisons = repetition field_indices names;
      arms = repetition field_indices names;
    }

unfoldable pub connection_state : ItemStruct → Option StateItems
connection_state input_ast = do
  names ← field_names input_ast.fields
  some (quoted input_ast.ident names)

-- A struct with its fields' types.
abbrev pub Struct : Type 1
Struct = List (Text × Field)

abbrev pub types : Struct → List Field
types [] = []
types ((name, field) ∷ fields) = field ∷ types fields

abbrev pub names_of : Struct → List Text
names_of [] = []
names_of ((name, field) ∷ fields) = name ∷ names_of fields

-- `if self.state.#name != self.starting_state.#name { changes.push(..) }`
unfoldable pub compare_field :
    (fields : Struct)
    → ℕ
    → Text
    → State (types fields)
    → State (types fields)
    → Option (List StateUpdate)
compare_field [] index wanted new old = some []
compare_field ((name, field) ∷ fields) index wanted (new, news) (old, olds) =
    let other = compare_field fields index wanted news olds in
    if name == wanted
    then (if field.value_eq.eq new old then some [] else (do
      bytes ← field.codec.to_bytes new
      some (record { index = index; bytes = bytes } ∷ [])))
    else other

unfoldable pub run_comparisons :
    (fields : Struct)
    → List (ℕ × Text)
    → State (types fields)
    → State (types fields)
    → Option (List StateUpdate)
run_comparisons fields [] new old = some []
run_comparisons fields ((index, name) ∷ comparisons) new old = do
  changes ← compare_field fields index name new old
  more ← run_comparisons fields comparisons new old
  some (changes ++ more)

-- `self.#name = from_bytes(&data)?`
unfoldable pub assign_field :
    (fields : Struct) → Text → Bytes → State (types fields) → Option (State (types fields))
assign_field [] wanted bytes state = some state
assign_field ((name, field) ∷ fields) wanted bytes (old, olds) =
    let other = (do rest ← assign_field fields wanted bytes olds; some (old, rest)) in
    if name == wanted then (do value ← field.codec.from_bytes bytes; some (value, olds)) else other

-- `match index { .., _ => {} }`
unfoldable pub run_match :
    (fields : Struct)
    → List (ℕ × Text)
    → ℕ
    → Bytes
    → State (types fields)
    → Option (State (types fields))
run_match fields [] index bytes state = some state
run_match fields ((i, name) ∷ arms) index bytes state =
    let later = run_match fields arms index bytes state in
    if nat_beq i index then assign_field fields name bytes state else later
