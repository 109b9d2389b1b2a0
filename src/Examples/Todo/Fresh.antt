-- ===== src/Examples/Todo/Fresh.antt =====
-- With overflow checks an id is never given twice.
use hardlight.Prelude.{
  ℕ, ◌+◌, ◌≤◌, ◌≡◌, refl, sym, true, none, some, inl, inr, List, [], ◌∷◌, arith, nat_beq_iff,
  nat_eq, insert, lookup, lookup-insert, Option-cases, subst,
}
use hardlight.Codec.{◌>>=◌}
use hardlight.Examples.{add_u32}
use hardlight.Examples.Todo.{
  Task, TodoState, create, get, Call, creates, marks, deletes, deletes_all, deletes_done, act_all,
}
use hardlight.Examples.Todo.Correct.{View, view, act_view, or_same_view, view_all, view-act_all}
use hardlight.Examples.Todo.Lookups.{elem, lookup-get}

-- No id from the next one on has a task.
abbrev IsFresh : View → Type 0
IsFresh v = (k : ℕ) → v.1 ≤ k → v.0 k ≡ none

add_u32-checked : (a later : ℕ) → add_u32 true a 1 ≡ some later → later ≡ a + 1
unfolding add_u32
add_u32-checked a later h = ground arith

act_view-IsFresh :
    (call : Call) (v : View) → IsFresh v → IsFresh (or_same_view (act_view true call v) v)
unfolding act_view
act_view-IsFresh (creates task) (m, next) fresh = elim (Option-cases (add_u32 true next 1)) [
  | inl e ↦ rw (act_view, e, ◌>>=◌) fresh
  | inr (later, e) ↦
      rw (act_view, e, ◌>>=◌)
        (λ k above. ground (
          arith,
          add_u32-checked next later e,
          fresh k (omega (arith, add_u32-checked next later e)),
          above,
        ))
]
act_view-IsFresh (marks ids) (m, next) fresh = λ k above. ground (arith, fresh k above)
act_view-IsFresh (deletes ids) (m, next) fresh = λ k above. ground (arith, fresh k above)
act_view-IsFresh deletes_all (m, next) fresh = λ k above. refl
act_view-IsFresh deletes_done (m, next) fresh = λ k above. ground (arith, fresh k above)

view_all-IsFresh : (calls : List Call) (v : View) → IsFresh v → IsFresh (view_all true calls v)
unfolding view_all
view_all-IsFresh [] v fresh = fresh
view_all-IsFresh (call ∷ calls) v fresh =
    view_all-IsFresh calls (or_same_view (act_view true call v) v) (act_view-IsFresh call v fresh)

abbrev pub no_tasks : TodoState
no_tasks = record { tasks = []; next_id = 0 }

no_tasks-IsFresh : IsFresh (view no_tasks)
unfolding view lookup
no_tasks-IsFresh k above = refl

create_from :
    (before state : TodoState) (task : Task) (id : ℕ)
    → IsFresh (view before)
    → create true task before ≡ some (state, id)
    → (lookup id before.tasks ≡ none) × (lookup id (get (id ∷ []) state) ≡ some task)
unfolding create elem view
create_from before state task id fresh h = elim (Option-cases (add_u32 true before.next_id 1)) [
  | inl e ↦ absurd (ground (arith, h, e))
  | inr (later, e) ↦
      let made : TodoState = record {
        tasks = insert before.next_id task before.tasks;
        next_id = later;
      } in
      let same : ◌≡◌ {A = TodoState × ℕ} (made, before.next_id) (state, id) =
        ground (arith, h, e) in
      subst
        (λ (p : TodoState × ℕ).
          (lookup p.1 before.tasks ≡ none) × (lookup p.1 (get (p.1 ∷ []) p.0) ≡ some task))
        same
        (
          fresh before.next_id (omega arith),
          ground (
            arith,
            lookup-get before.next_id (before.next_id ∷ []) made,
            nat_beq_iff before.next_id before.next_id,
            lookup-insert before.next_id before.next_id task before.tasks,
          ),
        )
]

-- Whatever calls a client has made of a server that checks overflows, the id that a new task is
-- given is the id of no task, and the task is read back under it.
pub create_fresh :
    (calls : List Call) (task : Task) (state : TodoState) (id : ℕ)
    → create true task (act_all true calls no_tasks) ≡ some (state, id)
    → (lookup id (act_all true calls no_tasks).tasks ≡ none)
      × (lookup id (get (id ∷ []) state) ≡ some task)
create_fresh calls task state id h =
    create_from (act_all true calls no_tasks) state task id
      (subst IsFresh (sym (view-act_all true calls no_tasks tt))
        (view_all-IsFresh calls (view no_tasks) no_tasks-IsFresh))
      h
