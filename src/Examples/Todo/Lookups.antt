-- ===== src/Examples/Todo/Lookups.antt =====
-- What the loops of the methods do to the entry of one id.
use hardlight.Prelude.{
  ℕ, ◌≡◌, refl, Bool, true, false, ◌||◌, ◌&&◌, Option, none, some, inl, inr, List, [], ◌∷◌, arith,
  ◌==◌, if◌then◌else◌, nat_beq, nat_beq_iff, nat_eq, lookup, remove, IsUnique, lookup-insert,
  lookup-remove, lookup-contains_key, Bool-cases, Option-cases,
}
use hardlight.Examples.Todo.{
  Task, TaskStatus, todo, done, TodoState, finish, mark, mark_all, remove_all, done_ids, cons_done,
  get, get_from, collect,
}

-- Whether a list of ids has one.
unfoldable pub elem : ℕ → List ℕ → Bool
elem j [] = false
elem j (id ∷ ids) = id == j || elem j ids

abbrev pub finished : Option Task → Option Task
finished none = none
finished (some task) = some (finish task)

lookup-mark :
    (id j : ℕ) (tasks : List (ℕ × Task))
    → lookup j (mark id (lookup id tasks) tasks)
      ≡ (if nat_beq id j then finished (lookup j tasks) else lookup j tasks)
lookup-mark id j tasks = elim (Option-cases (lookup id tasks)) [
  | inl e ↦ rw e (ground (arith, e, nat_beq_iff id j))
  | inr (task, e) ↦
      rw e (ground (arith, e, nat_beq_iff id j, lookup-insert id j (finish task) tasks))
]

pub lookup-mark_all :
    (j : ℕ) (ids : List ℕ) (tasks : List (ℕ × Task))
    → lookup j (mark_all ids tasks)
      ≡ (if elem j ids then finished (lookup j tasks) else lookup j tasks)
unfolding mark_all elem
lookup-mark_all j [] tasks = refl
lookup-mark_all j (id ∷ ids) tasks = ground (
  arith,
  lookup-mark_all j ids (mark id (lookup id tasks) tasks),
  lookup-mark id j tasks,
  Option-cases (lookup j tasks),
)

pub lookup-remove_all :
    (j : ℕ) (ids : List ℕ) (tasks : List (ℕ × Task))
    → lookup j (remove_all ids tasks) ≡ (if elem j ids then none else lookup j tasks)
unfolding remove_all elem
lookup-remove_all j [] tasks = refl
lookup-remove_all j (id ∷ ids) tasks =
    ground (arith, lookup-remove_all j ids (remove id tasks), lookup-remove id j tasks)

abbrev over : Option Task → Option Task → Option Task
over none old = old
over (some task) old = some task

lookup-collect :
    (id j : ℕ) (tasks found : List (ℕ × Task))
    → lookup j (collect id (lookup id tasks) found)
      ≡ (if nat_beq id j then over (lookup j tasks) (lookup j found) else lookup j found)
lookup-collect id j tasks found = elim (Option-cases (lookup id tasks)) [
  | inl e ↦ rw e (ground (arith, e, nat_beq_iff id j))
  | inr (task, e) ↦ rw e (ground (arith, e, nat_beq_iff id j, lookup-insert id j task found))
]

lookup-get_from :
    (j : ℕ) (tasks : List (ℕ × Task)) (ids : List ℕ) (found : List (ℕ × Task))
    → lookup j (get_from tasks ids found)
      ≡ (if elem j ids then over (lookup j tasks) (lookup j found) else lookup j found)
unfolding get_from elem
lookup-get_from j tasks [] found = refl
lookup-get_from j tasks (id ∷ ids) found = ground (
  arith,
  lookup-get_from j tasks ids (collect id (lookup id tasks) found),
  lookup-collect id j tasks found,
  Option-cases (lookup j tasks),
)

-- `get` gives the tasks of the ids that are asked for, as they are, and nothing else.
pub lookup-get :
    (j : ℕ) (ids : List ℕ) (state : TodoState)
    → lookup j (get ids state) ≡ (if elem j ids then lookup j state.tasks else none)
unfolding get lookup
lookup-get j ids state =
    ground (arith, lookup-get_from j state.tasks ids [], Option-cases (lookup j state.tasks))

abbrev pub status_done : TaskStatus → Bool
status_done todo = false
status_done done = true

abbrev pub is_done : Option Task → Bool
is_done none = false
is_done (some task) = status_done task.status

elem-cons_done :
    (j id : ℕ) (status : TaskStatus) (ids : List ℕ)
    → elem j (cons_done id status ids)
      ≡ (if status_done status && nat_beq id j then true else elem j ids)
unfolding elem
elem-cons_done j id todo ids = refl
elem-cons_done j id done ids = ground arith

pub elem-done_ids :
    (j : ℕ) (tasks : List (ℕ × Task))
    → IsUnique tasks
    → elem j (done_ids tasks) ≡ is_done (lookup j tasks)
unfolding elem done_ids lookup
elem-done_ids j [] u = refl
elem-done_ids j ((id, task) ∷ tasks) u =
    let absent = lookup-contains_key id tasks u.0 in
    elim (Bool-cases (nat_beq id j)) [
      | inl same ↦
          let e : id ≡ j = (nat_beq_iff id j).0 same in
          let gone : lookup j tasks ≡ none = rw e at absent in
          ground (
            arith,
            same,
            gone,
            elem-done_ids j tasks u.1,
            elem-cons_done j id task.status (done_ids tasks),
          )
      | inr differ ↦ ground (
        arith,
        differ,
        elem-done_ids j tasks u.1,
        elem-cons_done j id task.status (done_ids tasks),
      )
    ]
