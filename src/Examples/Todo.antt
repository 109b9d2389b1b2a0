-- ===== src/Examples/Todo.antt =====
-- examples/todo.rs: a list of tasks as the state of a connection.
pub mod Lookups
pub mod Correct
pub mod Fresh
use hardlight.Prelude.{
  ℕ, Bool, Option, none, some, List, [], ◌∷◌, ◌++◌, Map, lookup, insert, remove, nat_eq,
}
use hardlight.Codec.{◌>>=◌}
use hardlight.Wire.{Bytes}
use hardlight.Examples.{add_u32}

pub data TaskStatus : Type 0 where
  todo done : TaskStatus

pub record Task : Type 0 where
  pub text : Bytes
  pub status : TaskStatus

unfoldable pub task_new : Bytes → Task
task_new text = record { text = text; status = todo }

pub record TodoState : Type 0 where
  pub tasks : Map ℕ Task
  pub next_id : ℕ

-- What it prints of the state is left out.
unfoldable pub create : Bool → Task → TodoState → Option (TodoState × ℕ)
create overflow_checks task state = do
  next ← add_u32 overflow_checks state.next_id 1
  some (record { tasks = insert state.next_id task state.tasks; next_id = next }, state.next_id)

abbrev finish : Task → Task
finish task = record task { status = done }

abbrev mark : ℕ → Option Task → Map ℕ Task → Map ℕ Task
mark id none tasks = tasks
mark id (some task) tasks = insert id (finish task) tasks

unfoldable pub mark_all : List ℕ → Map ℕ Task → Map ℕ Task
mark_all [] tasks = tasks
mark_all (id ∷ ids) tasks = mark_all ids (mark id (lookup id tasks) tasks)

unfoldable pub mark_as_done : List ℕ → TodoState → TodoState
unfolding mark_all
mark_as_done ids state = record state { tasks = mark_all ids state.tasks }

abbrev collect : ℕ → Option Task → Map ℕ Task → Map ℕ Task
collect id none found = found
collect id (some task) found = insert id task found

unfoldable pub get_from : Map ℕ Task → List ℕ → Map ℕ Task → Map ℕ Task
get_from tasks [] found = found
get_from tasks (id ∷ ids) found = get_from tasks ids (collect id (lookup id tasks) found)

unfoldable pub get : List ℕ → TodoState → Map ℕ Task
unfolding get_from
get ids state = get_from state.tasks ids []

unfoldable pub get_all : TodoState → Map ℕ Task
get_all state = state.tasks

unfoldable pub remove_all : List ℕ → Map ℕ Task → Map ℕ Task
remove_all [] tasks = tasks
remove_all (id ∷ ids) tasks = remove_all ids (remove id tasks)

unfoldable pub delete : List ℕ → TodoState → TodoState
unfolding remove_all
delete ids state = record state { tasks = remove_all ids state.tasks }

unfoldable pub delete_all : TodoState → TodoState
delete_all state = record state { tasks = [] }

abbrev cons_done : ℕ → TaskStatus → List ℕ → List ℕ
cons_done id todo ids = ids
cons_done id done ids = id ∷ ids

-- The ids of the first loop of `delete_done_tasks`.
unfoldable pub done_ids : Map ℕ Task → List ℕ
done_ids [] = []
done_ids ((id, task) ∷ tasks) = cons_done id task.status (done_ids tasks)

unfoldable pub delete_done_tasks : TodoState → TodoState
unfolding done_ids remove_all
delete_done_tasks state = record state { tasks = remove_all (done_ids state.tasks) state.tasks }

-- The calls that change the state.
pub data Call : Type 0 where
  creates : Task → Call
  marks deletes : List ℕ → Call
  deletes_all deletes_done : Call

unfoldable pub act : Bool → Call → TodoState → Option TodoState
unfolding create mark_as_done delete delete_all delete_done_tasks
act checks (creates task) state = do (state', id) ← create checks task state; some state'
act checks (marks ids) state = some (mark_as_done ids state)
act checks (deletes ids) state = some (delete ids state)
act checks deletes_all state = some (delete_all state)
act checks deletes_done state = some (delete_done_tasks state)

-- A call that panics leaves the state as it was, and the connection goes on.
abbrev or_same : Option TodoState → TodoState → TodoState
or_same none state = state
or_same (some state') state = state'

unfoldable pub act_all : Bool → List Call → TodoState → TodoState
act_all checks [] state = state
act_all checks (call ∷ calls) state = act_all checks calls (or_same (act checks call state) state)
