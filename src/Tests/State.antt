-- ===== src/Tests/State.antt =====
-- A state of two numbers, and the writes of two guards.
use hardlight.Prelude.{ℕ, ◌≡◌, ◌↔◌, refl, Option, none, some, List, [], ◌∷◌, arith, nat_eq}
use hardlight.Wire.{Bytes, StateUpdate}
use hardlight.Codec.{Codec, RoundTrips}
use hardlight.Macros.State.{Field, State, diff, drop_guard, set_field}
use hardlight.Macros.State.Sync.{AllRoundTrip}
use hardlight.Macros.Expand.{Text}
use hardlight.Macros.State.Expand.{
  ItemStruct, StateItems, connection_state, run_comparisons, run_match,
}
use hardlight.Macros.State.Expand.Places.{connection_state_lem}
use hardlight.Macros.State.Order.{receive_all, Apart, overtaken_iff}

abbrev read_number : Bytes → Option ℕ
read_number [] = none
read_number (n ∷ rest) = some n

abbrev number_codec : Codec ℕ
number_codec = record { to_bytes = λ n. some (n ∷ []); from_bytes = read_number }

number_codec-RoundTrips : RoundTrips number_codec
number_codec-RoundTrips n bs h = ground (arith, h)

abbrev number : Field
number = record { Value = ℕ; value_eq = nat_eq; codec = number_codec; default = 0 }

abbrev pub fields : List Field
fields = number ∷ number ∷ []

pub fields-AllRoundTrip : AllRoundTrip fields
fields-AllRoundTrip = (number_codec-RoundTrips, (number_codec-RoundTrips, tt))

abbrev pub state_of : ℕ → ℕ → State fields
state_of a b = (a, (b, tt))

abbrev pub second_set : StateUpdate
second_set = record { index = 1; bytes = 5 ∷ [] }

-- Two writes to the second field.
overtaken_iff_example :
    (receive_all fields
        (some (second_set ∷ []) ∷ some (record second_set { bytes = 4 ∷ [] } ∷ []) ∷ [])
        (state_of 2 3)
      ≡ state_of 2 5)
    ↔ Apart fields (state_of 2 3) (state_of 2 4) (state_of 2 5)
unfolding drop_guard diff
overtaken_iff_example =
    overtaken_iff fields fields-AllRoundTrip (state_of 2 3) (state_of 2 4) (state_of 2 5)
      (some (record second_set { bytes = 4 ∷ [] } ∷ [])) (some (second_set ∷ [])) refl refl

abbrev named_fields : List (Text × Field)
named_fields = (b'a' ∷ [], number) ∷ (b'b' ∷ [], number) ∷ []

-- `struct S { a: u, b: u }`
abbrev item : ItemStruct
item = record {
  vis = [];
  ident = b'S' ∷ [];
  fields =
      record { ident = some (b'a' ∷ []); ty = b'u' ∷ [] }
      ∷ record { ident = some (b'b' ∷ []); ty = b'u' ∷ [] }
      ∷ [];
}

connection_state_lem_example :
    (items : StateItems) × (connection_state item ≡ some items)
    × ((new old : State fields)
        → run_comparisons named_fields items.comparisons new old ≡ diff fields 0 new old)
    × ((index : ℕ) (bytes : Bytes) (state : State fields)
        → run_match named_fields items.arms index bytes state ≡ set_field fields index bytes state)
connection_state_lem_example =
    connection_state_lem named_fields ((λ e. ground (arith, e), tt), (tt, tt)) item refl
