-- ===== src/Examples/Counter.antt =====
-- examples/counter.rs: a counter as the state of a connection, and the events of its topic.
pub mod Events
pub mod Notifier
use hardlight.Prelude.{ℕ, Bool, Option, none, some, List, [], ◌∷◌, ◌++◌}
use hardlight.Codec.{◌>>=◌}
use hardlight.Topic.{Topic, from_bytes}
use hardlight.Examples.{add_u32, sub_u32}

pub data CounterEvent : Type 0 where
  incremented decremented : (to : ℕ) → (from : ℕ) → CounterEvent
  server_sent_test : CounterEvent

pub record CounterState : Type 0 where
  pub counter : ℕ
  pub topic : Topic

-- What a method asks of the subscription manager and of the event emitter.
pub data Request : Type 0 where
  add remove : Topic → Request
  emit : Topic → CounterEvent → Request

-- The topic is one random byte.
unfoldable pub new_counter : ℕ → CounterState → CounterState × List Request
unfolding from_bytes
new_counter random state =
    let topic = from_bytes (random ∷ []) in
    (record { counter = 0; topic = topic }, remove state.topic ∷ add topic ∷ [])

module _ (overflow_checks : Bool) where
  unfoldable pub increment : ℕ → CounterState → Option (CounterState × List Request)
  increment amount state = do
    new ← add_u32 overflow_checks state.counter amount
    some (record state { counter = new }, emit state.topic (incremented new state.counter) ∷ [])

  unfoldable pub decrement : ℕ → CounterState → Option (CounterState × List Request)
  decrement amount state = do
    new ← sub_u32 overflow_checks state.counter amount
    some (record state { counter = new }, emit state.topic (decremented new state.counter) ∷ [])

unfoldable pub get : CounterState → ℕ
get state = state.counter

-- The calls of a client; `new_counter` comes with the byte that it draws.
pub data Call : Type 0 where
  calls_new_counter calls_increment calls_decrement : ℕ → Call

unfoldable pub act : Bool → Call → CounterState → Option (CounterState × List Request)
unfolding new_counter increment decrement
act checks (calls_new_counter random) state = some (new_counter random state)
act checks (calls_increment amount) state = increment checks amount state
act checks (calls_decrement amount) state = decrement checks amount state

-- A call that panics changes nothing and asks for nothing.
abbrev or_same : CounterState → Option (CounterState × List Request) → CounterState × List Request
or_same state none = (state, [])
or_same state (some r) = r

unfoldable pub act_all : Bool → List Call → CounterState → CounterState × List Request
act_all checks [] state = (state, [])
act_all checks (call ∷ calls) state =
    let (state1, requests) = or_same state (act checks call state) in
    let (state2, more) = act_all checks calls state1 in (state2, requests ++ more)
