-- ===== src/Macros/State/Sync.antt =====
-- The updates of a guard carry a client's copy of the state to the server's.
use mathlib.Core.Option
use hardlight.Prelude.{
  ℕ, suc, ◌≡◌, ◌↔◌, refl, sym, ◌∙◌, ap, Option, none, some, inl, inr, List, [], ◌∷◌, map, arith,
  if◌then◌else◌, Bool-cases, Option-cases,
}
use hardlight.Wire.{StateUpdate, HandlerResult, ok}
use hardlight.Codec.{RoundTrips, ◌>>=◌}
use hardlight.Macros.State.{Field, State, diff, StateGuard, drop_guard, set_field, apply_changes}

-- rkyv reads back the values of every field.
abbrev pub AllRoundTrip : List Field → Type 0
AllRoundTrip [] = Unit
AllRoundTrip (f ∷ fs) = RoundTrips f.codec × AllRoundTrip fs

-- What a change from `olds` to `news` makes of a state: the fields that differ are overwritten.
unfoldable pub merge : (fs : List Field) → State fs → State fs → State fs → State fs
merge [] news olds state = state
merge (f ∷ fs) (new, news) (old, olds) (x, xs) =
    (if f.value_eq.eq new old then x else new, merge fs news olds xs)

bump : StateUpdate → StateUpdate
bump u = record u { index = suc u.index }

diff-bump :
    (fs : List Field) (i : ℕ) (news olds : State fs)
    → diff fs (suc i) news olds ≡ Option.map (map bump) (diff fs i news olds)
unfolding diff bump
diff-bump [] i news olds = refl
diff-bump (f ∷ fs) i (new, news) (old, olds) = elim (Bool-cases (f.value_eq.eq new old)) [
  | inl same ↦ rw same (diff-bump fs (suc i) news olds)
  | inr differ ↦ rw differ (
      rw (diff-bump fs (suc i) news olds) (elim (Option-cases (f.codec.to_bytes new)) [
        | inl e ↦ rw (e, ◌>>=◌) refl
        | inr (bytes, e) ↦
            rw (e, ◌>>=◌)
              (elim (Option-cases (diff fs (suc i) news olds)) [
                | inl g ↦ rw (g, ◌>>=◌) refl
                | inr (changes, g) ↦ rw (g, ◌>>=◌) refl
              ])
      ]))
]

apply_changes-bump :
    (f : Field) (fs : List Field) (us : List StateUpdate) (x : f.Value) (xs : State fs)
    → apply_changes (f ∷ fs) (map bump us) (x, xs)
      ≡ ((x, (apply_changes fs us xs).0), (apply_changes fs us xs).1)
unfolding apply_changes bump
apply_changes-bump f fs [] x xs = refl
apply_changes-bump f fs (u ∷ us) x xs = elim (Option-cases (set_field fs u.index u.bytes xs)) [
  | inl e ↦ rw (e, ◌>>=◌) refl
  | inr (s, e) ↦ rw (e, ◌>>=◌) (apply_changes-bump f fs us x s)
]

tail_applies :
    (f : Field) (fs : List Field) (news olds xs : State fs) (y : f.Value)
    → ((us : List StateUpdate)
        → diff fs 0 news olds ≡ some us
        → apply_changes fs us xs ≡ (merge fs news olds xs, ok tt))
    → (us : List StateUpdate) → diff fs 1 news olds ≡ some us
    → apply_changes (f ∷ fs) us (y, xs) ≡ ((y, merge fs news olds xs), ok tt)
tail_applies f fs news olds xs y ih us h = elim (Option-cases (diff fs 0 news olds)) [
  | inl e ↦ absurd (ground (arith, h, e, diff-bump fs 0 news olds))
  | inr (rest, e) ↦
      let bumped : map bump rest ≡ us = ground (arith, h, e, diff-bump fs 0 news olds) in
      rw (← bumped) (apply_changes-bump f fs rest y xs ∙ (rw (ih rest e) refl))
]

-- If rkyv reads back the values of every field and could write those that differ, the updates of a
-- change, applied to any state, overwrite the fields that the change touched, and no other.
pub apply_changes-diff :
    (fs : List Field) (news olds state : State fs) (us : List StateUpdate)
    → AllRoundTrip fs
    → diff fs 0 news olds ≡ some us
    → apply_changes fs us state ≡ (merge fs news olds state, ok tt)
unfolding diff merge apply_changes
apply_changes-diff [] news olds state us law h =
    let none_sent : [] ≡ us = ground (arith, h) in rw (← none_sent) refl
apply_changes-diff (f ∷ fs) (new, news) (old, olds) (x, xs) us law h =
    elim (Bool-cases (f.value_eq.eq new old)) [
      | inl same ↦ rw same (
          tail_applies f fs news olds xs x (λ vs. apply_changes-diff fs news olds xs vs law.1) us
            (rw same at h))
      | inr differ ↦ rw differ (elim (Option-cases (f.codec.to_bytes new)) [
        | inl e ↦ absurd (ground (arith, h, e, differ))
        | inr (bytes, e) ↦ elim (Option-cases (diff fs 1 news olds)) [
          | inl g ↦ absurd (ground (arith, h, e, g, differ))
          | inr (rest, g) ↦
              let sent : record { index = 0; bytes = bytes } ∷ rest ≡ us =
                ground (arith, h, e, g, differ) in
              rw (← sent) (
                rw (law.0 new bytes e, ◌>>=◌)
                  (tail_applies f fs news olds xs new
                    (λ vs. apply_changes-diff fs news olds xs vs law.1) rest g))
        ]
      ])
    ]

pub merge_self : (fs : List Field) (news olds : State fs) → merge fs news olds olds ≡ news
unfolding merge
merge_self [] news olds = refl
merge_self (f ∷ fs) (new, news) (old, olds) = elim (Bool-cases (f.value_eq.eq new old)) [
  | inl same ↦
      let e : new ≡ old = (f.value_eq.eq_iff new old).0 same in
      rw (same, merge_self fs news olds) (ap (λ (v : f.Value). (v, news)) (sym e))
  | inr differ ↦ rw (differ, merge_self fs news olds) refl
]

diff_same : (fs : List Field) (i : ℕ) (state : State fs) → diff fs i state state ≡ some []
unfolding diff
diff_same [] i state = refl
diff_same (f ∷ fs) i (x, xs) = rw ((f.value_eq.eq_iff x x).1 refl) (diff_same fs (suc i) xs)

-- What the client makes of what a guard has sent, if it has sent anything.
abbrev pub receive :
    (fs : List Field) → Option (List StateUpdate) → State fs → State fs × HandlerResult (Unit {0})
receive fs none state = (state, ok tt)
receive fs (some changes) state = apply_changes fs changes state

module _ (fs : List Field) (law : AllRoundTrip fs) where
  pub receive-merge :
      (g : StateGuard fs) (sent : Option (List StateUpdate)) (state : State fs)
      → drop_guard fs g ≡ some sent
      → receive fs sent state ≡ (merge fs g.state g.starting_state state, ok tt)
  unfolding drop_guard
  receive-merge g sent state h = elim (Option-cases (diff fs 0 g.state g.starting_state)) [
    | inl e ↦ absurd (ground (arith, h, e))
    | inr (us, e) ↦ split us e
  ]
    where
      split :
          (us : List StateUpdate)
          → diff fs 0 g.state g.starting_state ≡ some us
          → receive fs sent state ≡ (merge fs g.state g.starting_state state, ok tt)
      split [] e =
          let quiet : none ≡ sent = ground (arith, h, e) in
          rw (← quiet)
            (apply_changes_none ∙ apply_changes-diff fs g.state g.starting_state state [] law e)
        where
          apply_changes_none :
              ◌≡◌ {A = State fs × HandlerResult (Unit {0})}
                (state, ok tt)
                (apply_changes fs [] state)
          apply_changes_none = unfold apply_changes in refl
      split (u ∷ us) e =
          let loud : some (u ∷ us) ≡ sent = ground (arith, h, e) in
          rw (← loud) (apply_changes-diff fs g.state g.starting_state state (u ∷ us) law e)

  -- If rkyv reads back the values of every field and the guard does not panic: a client that has
  -- the state that a guard started from, has the state that the guard leaves once it has applied
  -- what the guard sent.
  pub receive-drop_guard :
      (g : StateGuard fs) (sent : Option (List StateUpdate))
      → drop_guard fs g ≡ some sent
      → receive fs sent g.starting_state ≡ (g.state, ok tt)
  receive-drop_guard g sent h =
      receive-merge g sent g.starting_state h ∙ (rw (merge_self fs g.state g.starting_state) refl)

  -- If rkyv reads back the values of every field, a guard sends nothing exactly if it leaves the state as it was.
  pub drop_guard-none_iff :
      (g : StateGuard fs) → (drop_guard fs g ≡ some none) ↔ (g.state ≡ g.starting_state)
  drop_guard-none_iff g = (
    λ h. ap (λ (r : State fs × HandlerResult (Unit {0})). r.0) (sym (receive-drop_guard g none h)),
    λ e. rw e (unfold drop_guard in rw (diff_same fs 0 g.starting_state, ◌>>=◌) refl),
  )
