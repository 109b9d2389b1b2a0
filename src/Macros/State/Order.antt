-- ===== src/Macros/State/Order.antt =====
-- The order in which the updates of several guards arrive. Each guard hands its updates to a task of
-- its own, so that they may overtake one another.
use hardlight.Prelude.{
  ◌≡◌, ◌↔◌, refl, ◌∙◌, ap, ap₂, true, ◌||◌, Option, some, inl, inr, List, [], ◌∷◌, arith,
  if◌then◌else◌, Option-cases,
}
use hardlight.Wire.{StateUpdate, HandlerResult}
use hardlight.Codec.{◌>>=◌}
use hardlight.Macros.State.{Field, State, drop_guard}
use hardlight.Macros.State.Sync.{AllRoundTrip, merge, receive, receive-merge, receive-drop_guard}

-- The guards of a run of writes that take the state from one value to the next.
unfoldable pub run_writes :
    (fs : List Field) → State fs → List (State fs) → Option (List (Option (List StateUpdate)))
run_writes fs state [] = some []
run_writes fs state (next ∷ states) = do
  sent ← drop_guard fs (record { state = next; starting_state = state })
  more ← run_writes fs next states
  some (sent ∷ more)

abbrev pub final : (fs : List Field) → State fs → List (State fs) → State fs
final fs state [] = state
final fs state (next ∷ states) = final fs next states

unfoldable pub receive_all :
    (fs : List Field) → List (Option (List StateUpdate)) → State fs → State fs
receive_all fs [] state = state
receive_all fs (sent ∷ more) state = receive_all fs more (receive fs sent state).0

-- Every field is left alone by one of two changes.
abbrev pub Apart : (fs : List Field) → State fs → State fs → State fs → Type 0
Apart [] a b c = Unit {0}
Apart (f ∷ fs) (a, as') (b, bs) (c, cs) =
    ((f.value_eq.eq b a || f.value_eq.eq c b) ≡ true) × Apart fs as' bs cs

merge_overtaken :
    (fs : List Field) (a b c : State fs) → (merge fs b a (merge fs c b a) ≡ c) ↔ Apart fs a b c
unfolding merge
merge_overtaken [] a b c = (λ e. tt, λ p. refl)
merge_overtaken (f ∷ fs) (a, as') (b, bs) (c, cs) =
    let (only, enough) = merge_overtaken fs as' bs cs in
    (
      λ e. (
        head_apart (ap (λ (s : State (f ∷ fs)). s.0) e),
        only (ap (λ (s : State (f ∷ fs)). s.1) e),
      ),
      λ p. ap₂ (λ (x : f.Value) (xs : State fs). (x, xs)) (head_last p.0) (enough p.1),
    )
  where
    head : f.Value
    head = if f.value_eq.eq b a then (if f.value_eq.eq c b then a else c) else b

    head_apart : head ≡ c → (f.value_eq.eq b a || f.value_eq.eq c b) ≡ true
    head_apart e = ground (arith, e, f.value_eq.eq_iff c b, f.value_eq.eq_iff b a)

    head_last : (f.value_eq.eq b a || f.value_eq.eq c b) ≡ true → head ≡ c
    head_last e = ground (arith, e, f.value_eq.eq_iff c b, f.value_eq.eq_iff b a)

module _ (fs : List Field) (law : AllRoundTrip fs) where
  -- If rkyv reads back the values of every field, no guard panics, and the updates arrive in the
  -- order of the writes, the client ends with the server's state.
  pub receive_all-run_writes :
      (state : State fs) (states : List (State fs)) (sent : List (Option (List StateUpdate)))
      → run_writes fs state states ≡ some sent
      → receive_all fs sent state ≡ final fs state states
  unfolding run_writes receive_all
  receive_all-run_writes state [] sent h =
      let nothing : [] ≡ sent = ground (arith, h) in rw (← nothing) refl
  receive_all-run_writes state (next ∷ states) sent h =
      elim (Option-cases (drop_guard fs (record { state = next; starting_state = state }))) [
        | inl e ↦ absurd (ground (arith, h, e))
        | inr (first, e) ↦ elim (Option-cases (run_writes fs next states)) [
          | inl g ↦ absurd (ground (arith, h, e, g))
          | inr (more, g) ↦
              let all : first ∷ more ≡ sent = ground (arith, h, e, g) in
              rw (← all) (
                rw
                  (receive-drop_guard fs law (record { state = next; starting_state = state }) first
                    e)
                  (receive_all-run_writes next states more g))
        ]
      ]

  -- If rkyv reads back the values of every field, neither of two guards panics, and the updates of
  -- the second write arrive first, the client ends with the server's state exactly when no field
  -- was changed by both writes.
  pub overtaken_iff :
      (a b c : State fs) (first second : Option (List StateUpdate))
      → drop_guard fs (record { state = b; starting_state = a }) ≡ some first
      → drop_guard fs (record { state = c; starting_state = b }) ≡ some second
      → (receive_all fs (second ∷ first ∷ []) a ≡ c) ↔ Apart fs a b c
  unfolding receive_all
  overtaken_iff a b c first second h k =
      let reversed : receive_all fs (second ∷ first ∷ []) a ≡ merge fs b a (merge fs c b a) =
        ap (λ (r : State fs × HandlerResult (Unit {0})). (receive fs first r.0).0)
          (receive-merge fs law (record { state = c; starting_state = b }) second a k)
        ∙ ap (λ (r : State fs × HandlerResult (Unit {0})). r.0)
            (receive-merge fs law (record { state = b; starting_state = a }) first (merge fs c b a)
              h) in
      rw reversed (merge_overtaken fs a b c)
