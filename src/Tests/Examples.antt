-- ===== src/Tests/Examples.antt =====
-- The examples' handlers on a few calls.
use hardlight.Prelude.{◌≡◌, true, none, some, List, [], ◌∷◌, nat_eq}
use hardlight.Topic.{default_topic}
use hardlight.Examples.Todo.{Task, todo, Call, creates, marks, deletes_done, act_all}
use hardlight.Examples.Todo.Correct.{view, view_all, view-act_all}
use hardlight.Examples.Todo.Fresh.{no_tasks}
use hardlight.Examples.Counter
use hardlight.Examples.Counter.Events.{listener_of, creates_counter, replay, replay-act_all}

abbrev milk : Task
milk = record { text = b'm' ∷ []; status = todo }

abbrev calls : List Call
calls = creates milk ∷ creates milk ∷ marks (0 ∷ []) ∷ deletes_done ∷ []

view-act_all_example : view (act_all true calls no_tasks) ≡ view_all true calls (view no_tasks)
view-act_all_example = view-act_all true calls no_tasks tt

abbrev counted : List Counter.Call
counted = Counter.calls_new_counter 7 ∷ Counter.calls_increment 5 ∷ Counter.calls_decrement 2 ∷ []

abbrev zero_counter : Counter.CounterState
zero_counter = record { counter = 0; topic = default_topic }

replay-act_all_example :
    (replay none (Counter.act_all true counted zero_counter).1
      ≡ some (listener_of (Counter.act_all true counted zero_counter).0))
    × (replay (listener_of zero_counter) (Counter.act_all true counted zero_counter).1
        ≡ some (listener_of (Counter.act_all true counted zero_counter).0))
unfolding creates_counter
replay-act_all_example = replay-act_all true counted zero_counter
