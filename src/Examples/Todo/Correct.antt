-- ===== src/Examples/Todo/Correct.antt =====
-- The tasks as a map from ids.
use hardlight.Prelude.{
  ℕ, ◌≡◌, refl, ◌∙◌, ap, fun_ext, Bool, Option, none, some, inl, inr, List, [], ◌∷◌, arith,
  if◌then◌else◌, nat_beq, nat_eq, lookup, remove, IsUnique, lookup-insert, insert-IsUnique,
  remove-IsUnique, Option-cases,
}
use hardlight.Codec.{◌>>=◌}
use hardlight.Examples.{add_u32}
use hardlight.Examples.Todo.Lookups.{
  elem, finished, status_done, lookup-mark_all, lookup-remove_all, elem-done_ids,
}
use hardlight.Examples.Todo.{
  Task, TodoState, create, finish, mark, mark_all, mark_as_done, remove_all, delete, delete_all,
  done_ids, delete_done_tasks, Call, creates, marks, deletes, deletes_all, deletes_done, act,
  or_same, act_all,
}

-- The tasks as a map, and the next id.
abbrev pub View : Type 0
View = (ℕ → Option Task) × ℕ

unfoldable pub view : TodoState → View
view state = (λ j. lookup j state.tasks, state.next_id)

abbrev pub drop_done : Option Task → Option Task
drop_done none = none
drop_done (some task) = if status_done task.status then none else some task

-- What a call does to the map.
unfoldable pub act_view : Bool → Call → View → Option View
unfolding elem
act_view checks (creates task) (m, next) = do
  later ← add_u32 checks next 1
  some (λ j. if nat_beq next j then some task else m j, later)
act_view checks (marks ids) (m, next) = some (λ j. if elem j ids then finished (m j) else m j, next)
act_view checks (deletes ids) (m, next) = some (λ j. if elem j ids then none else m j, next)
act_view checks deletes_all (m, next) = some (λ j. none, next)
act_view checks deletes_done (m, next) = some (λ j. drop_done (m j), next)

abbrev pub or_same_view : Option View → View → View
or_same_view none v = v
or_same_view (some v') v = v'

unfoldable pub view_all : Bool → List Call → View → View
unfolding act_view
view_all checks [] v = v
view_all checks (call ∷ calls) v = view_all checks calls (or_same_view (act_view checks call v) v)

remove_all-IsUnique :
    (ids : List ℕ) (tasks : List (ℕ × Task)) → IsUnique tasks → IsUnique (remove_all ids tasks)
unfolding remove_all
remove_all-IsUnique [] tasks u = u
remove_all-IsUnique (id ∷ ids) tasks u =
    remove_all-IsUnique ids (remove id tasks) (remove-IsUnique id tasks u)

mark-IsUnique :
    (id : ℕ) (o : Option Task) (tasks : List (ℕ × Task))
    → IsUnique tasks
    → IsUnique (mark id o tasks)
mark-IsUnique id none tasks u = u
mark-IsUnique id (some task) tasks u = insert-IsUnique id (finish task) tasks u

mark_all-IsUnique :
    (ids : List ℕ) (tasks : List (ℕ × Task)) → IsUnique tasks → IsUnique (mark_all ids tasks)
unfolding mark_all
mark_all-IsUnique [] tasks u = u
mark_all-IsUnique (id ∷ ids) tasks u =
    mark_all-IsUnique ids (mark id (lookup id tasks) tasks)
      (mark-IsUnique id (lookup id tasks) tasks u)

act-IsUnique :
    (checks : Bool) (call : Call) (s : TodoState)
    → IsUnique s.tasks
    → IsUnique (or_same (act checks call s) s).tasks
unfolding act create mark_as_done delete delete_all delete_done_tasks
act-IsUnique checks (creates task) s u = elim (Option-cases (add_u32 checks s.next_id 1)) [
  | inl e ↦ rw (act, create, e, ◌>>=◌) u
  | inr (next, e) ↦ rw (act, create, e, ◌>>=◌) (insert-IsUnique s.next_id task s.tasks u)
]
act-IsUnique checks (marks ids) s u = mark_all-IsUnique ids s.tasks u
act-IsUnique checks (deletes ids) s u = remove_all-IsUnique ids s.tasks u
act-IsUnique checks deletes_all s u = tt
act-IsUnique checks deletes_done s u = remove_all-IsUnique (done_ids s.tasks) s.tasks u

view-act :
    (checks : Bool) (call : Call) (s : TodoState)
    → IsUnique s.tasks
    → view (or_same (act checks call s) s) ≡ or_same_view (act_view checks call (view s)) (view s)
unfolding view act act_view create mark_as_done delete delete_all delete_done_tasks lookup
view-act checks (creates task) s u = elim (Option-cases (add_u32 checks s.next_id 1)) [
  | inl e ↦ rw (act, create, act_view, view, e, ◌>>=◌) refl
  | inr (next, e) ↦
      rw (act, create, act_view, view, e, ◌>>=◌)
        (ap (λ (m : ℕ → Option Task). (m, next))
          (fun_ext (λ j. lookup-insert s.next_id j task s.tasks)))
]
view-act checks (marks ids) s u =
    ap (λ (m : ℕ → Option Task). (m, s.next_id)) (fun_ext (λ j. lookup-mark_all j ids s.tasks))
view-act checks (deletes ids) s u =
    ap (λ (m : ℕ → Option Task). (m, s.next_id)) (fun_ext (λ j. lookup-remove_all j ids s.tasks))
view-act checks deletes_all s u = refl
view-act checks deletes_done s u =
    ap (λ (m : ℕ → Option Task). (m, s.next_id))
      (fun_ext (λ j. ground (
        arith,
        lookup-remove_all j (done_ids s.tasks) s.tasks,
        elem-done_ids j s.tasks u,
        Option-cases (lookup j s.tasks),
      )))

-- From a table with one entry to an id on, the calls do to the state what they do to a map from ids to tasks: a task is entered under the
-- next id, the tasks of the given ids are marked or deleted, all are, or those that are done.
pub view-act_all :
    (checks : Bool) (calls : List Call) (s : TodoState)
    → IsUnique s.tasks
    → view (act_all checks calls s) ≡ view_all checks calls (view s)
unfolding act_all view_all
view-act_all checks [] s u = refl
view-act_all checks (call ∷ calls) s u =
    view-act_all checks calls (or_same (act checks call s) s) (act-IsUnique checks call s u)
    ∙ ap (view_all checks calls) (view-act checks call s u)
