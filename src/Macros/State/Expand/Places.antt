-- ===== src/Macros/State/Expand/Places.antt =====
-- The arms that `connection_state` gives out work on the fields by their places.
use hardlight.Prelude.{
  ℕ, zero, suc, ◌+◌, ◌≡◌, ◌≢◌, refl, ◌∙◌, ap, true, false, some, inl, inr, List, [], ◌∷◌, map,
  arith, ◌==◌, beq_refl, nat_beq, nat_eq, list_eq, list_beq_iff, length, All, Bool-cases,
  Option-cases,
}
use hardlight.Wire.{Bytes}
use hardlight.Codec.{◌>>=◌}
use hardlight.Macros.Expand.{Text}
use hardlight.Macros.Expand.Agree.{AreDistinct}
use hardlight.Macros.State.{Field, State, diff, set_field}
use hardlight.Macros.State.Expand.{
  field_names, indices_from, repetition, quoted, connection_state, Struct, types, names_of,
  compare_field, run_comparisons, assign_field, run_match, ItemField, ItemStruct, StateItems,
}

module _ (name : Text) (field : Field) (fields : Struct) where
  abbrev Other : ℕ × Text → Type 0
  Other arm = name ≢ arm.1

  skips : (wanted : Text) → name ≢ wanted → (name == wanted) ≡ false
  skips wanted ne = elim (Bool-cases (name == wanted)) [
    | inl hit ↦ absurd (ne ((list_beq_iff name wanted).0 hit))
    | inr miss ↦ miss
  ]

  -- Arms that name other fields pass the first by.
  comparisons_skip :
      (arms : List (ℕ × Text))
      → All Other arms
      → (new old : field.Value) (news olds : State (types fields))
      → run_comparisons ((name, field) ∷ fields) arms (new, news) (old, olds)
        ≡ run_comparisons fields arms news olds
  unfolding run_comparisons compare_field
  comparisons_skip [] others new old news olds = refl
  comparisons_skip ((index, wanted) ∷ arms) others new old news olds =
      rw (skips wanted others.0, comparisons_skip arms others.1 new old news olds) refl

  match_skip :
      (arms : List (ℕ × Text))
      → All Other arms
      → (index : ℕ) (bytes : Bytes) (old : field.Value) (olds : State (types fields))
      → run_match ((name, field) ∷ fields) arms index bytes (old, olds)
        ≡ (do rest ← run_match fields arms index bytes olds; some (old, rest))
  unfolding run_match assign_field ◌>>=◌
  match_skip [] others index bytes old olds = refl
  match_skip ((i, wanted) ∷ arms) others index bytes old olds =
      elim (Bool-cases (nat_beq i index)) [
        | inl hit ↦ rw (hit, skips wanted others.0) refl
        | inr miss ↦ rw (miss, match_skip arms others.1 index bytes old olds) refl
      ]

repetition_avoids :
    (name : Text) (first : ℕ) (names : List Text)
    → All (λ y. name ≢ y) names
    → All (λ (arm : ℕ × Text). name ≢ arm.1) (repetition (indices_from first (length names)) names)
repetition_avoids name first [] others = tt
repetition_avoids name first (n ∷ names) others =
    (others.0, repetition_avoids name (suc first) names others.1)

abbrev numbered : ℕ → Struct → List (ℕ × Text)
numbered first fields = repetition (indices_from first (length (names_of fields))) (names_of fields)

comparisons_lem :
    (fields : Struct)
    → AreDistinct (names_of fields)
    → (first : ℕ) (new old : State (types fields))
    → run_comparisons fields (numbered first fields) new old ≡ diff (types fields) first new old
unfolding run_comparisons compare_field diff
comparisons_lem [] apart first new old = refl
comparisons_lem ((name, field) ∷ fields) apart first (new, news) (old, olds) =
    let rest =
      comparisons_skip name field fields (numbered (suc first) fields)
        (repetition_avoids name (suc first) (names_of fields) apart.0) new old news olds
      ∙ comparisons_lem fields apart.1 (suc first) news olds in
    rw (beq_refl name, rest)
      (elim (Bool-cases (field.value_eq.eq new old)) [
        | inl same ↦ rw same (elim (Option-cases (diff (types fields) (suc first) news olds)) [
          | inl e ↦ rw (e, ◌>>=◌) refl
          | inr (changes, e) ↦ rw (e, ◌>>=◌) refl
        ])
        | inr other ↦ rw other (elim (Option-cases (field.codec.to_bytes new)) [
          | inl e ↦ rw (e, ◌>>=◌) refl
          | inr (bytes, e) ↦ elim (Option-cases (diff (types fields) (suc first) news olds)) [
            | inl f ↦ rw (e, f, ◌>>=◌) refl
            | inr (changes, f) ↦ rw (e, f, ◌>>=◌) refl
          ]
        ])
      ])

match_lem :
    (fields : Struct)
    → AreDistinct (names_of fields)
    → (first index : ℕ) (bytes : Bytes) (state : State (types fields))
    → run_match fields (numbered first fields) (first + index) bytes state
      ≡ set_field (types fields) index bytes state
unfolding run_match assign_field set_field
match_lem [] apart first index bytes state = refl
match_lem ((name, field) ∷ fields) apart first zero bytes (old, olds) =
    let here : nat_beq first (first + zero) ≡ true = ground arith in rw (here, beq_refl name) refl
match_lem ((name, field) ∷ fields) apart first (suc index) bytes (old, olds) =
    let rest =
      match_skip name field fields (numbered (suc first) fields)
        (repetition_avoids name (suc first) (names_of fields) apart.0) (suc first + index) bytes old
        olds
      ∙ ap (λ o. do rest ← o; some (old, rest))
          (match_lem fields apart.1 (suc first) index bytes olds) in
    let further : nat_beq first (first + suc index) ≡ false = ground arith in
    let next : first + suc index ≡ suc first + index = omega arith in rw (further, next) rest

field_names_lem :
    (idents : List ItemField) (names : List Text)
    → map (λ (f : ItemField). f.ident) idents ≡ map some names
    → field_names idents ≡ some names
unfolding field_names
field_names_lem [] [] h = refl
field_names_lem [] (name ∷ names) h = absurd (ground (arith, h))
field_names_lem (f ∷ idents) [] h = absurd (ground (arith, h))
field_names_lem (f ∷ idents) (name ∷ names) h =
    let first : f.ident ≡ some name = ground (arith, h) in
    let others : map (λ (g : ItemField). g.ident) idents ≡ map some names = ground (arith, h) in
    rw (first, field_names_lem idents names others, ◌>>=◌) refl

-- On a struct whose fields have different names, the comparisons that the macro writes into
-- `Drop::drop` find the changes of the fields by their places, and the arms that it writes into
-- `apply_changes` set the field at an index, in both by the same numbers, and nothing at any other.
pub connection_state_lem :
    (fields : Struct)
    → AreDistinct (names_of fields)
    → (input_ast : ItemStruct)
    → map (λ (f : ItemField). f.ident) input_ast.fields ≡ map some (names_of fields)
    → (items : StateItems) × (connection_state input_ast ≡ some items)
      × ((new old : State (types fields))
          → run_comparisons fields items.comparisons new old ≡ diff (types fields) 0 new old)
      × ((index : ℕ) (bytes : Bytes) (state : State (types fields))
          → run_match fields items.arms index bytes state
            ≡ set_field (types fields) index bytes state)
unfolding connection_state
connection_state_lem fields apart input_ast h = (
  quoted input_ast.ident (names_of fields),
  rw (field_names_lem input_ast.fields (names_of fields) h, ◌>>=◌) refl,
  comparisons_lem fields apart 0,
  λ index bytes state.
      let same : 0 + index ≡ index = omega arith in
      rw same at (match_lem fields apart 0 index bytes state),
)
