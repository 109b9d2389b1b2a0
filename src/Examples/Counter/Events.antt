-- ===== src/Examples/Counter/Events.antt =====
-- What one who hears the events of a counter knows of it.
use hardlight.Prelude.{
  ℕ, ◌≡◌, refl, Bool, true, false, Option, none, some, inl, inr, List, [], ◌∷◌, nat_beq,
  nat_beq_iff, if◌then◌else◌, ◌==◌, Option-cases,
}
use hardlight.Codec.{◌>>=◌}
use hardlight.Topic.{Topic, topic_eq, topic_beq_refl}
use hardlight.Examples.{add_u32, sub_u32}
use hardlight.Examples.Counter.{
  CounterEvent, incremented, decremented, server_sent_test, CounterState, Request, add, remove,
  emit, new_counter, increment, decrement, Call, calls_new_counter, calls_increment,
  calls_decrement, act, act_all,
}

-- One who hears a topic, and the value that it takes the counter to have.
abbrev pub Listener : Type 0
Listener = Option (Topic × ℕ)

-- The value after an event, which must start from the value that is known.
unfoldable pub value_after : ℕ → CounterEvent → Option ℕ
value_after known (incremented to from) = if nat_beq known from then some to else none
value_after known (decremented to from) = if nat_beq known from then some to else none
value_after known server_sent_test = some known

-- The requests of the handler, heard in order: a subscription starts a counter of 0, and only the events
-- of its topic are heard. `none` is a second subscription beside the first, the end of one that there is
-- not, or an event that does not start from the value that is known.
unfoldable pub replay : Listener → List Request → Option Listener
unfolding value_after
replay listener [] = some listener
replay none (add t ∷ rs) = replay (some (t, 0)) rs
replay none (remove t ∷ rs) = replay none rs
replay none (emit t e ∷ rs) = replay none rs
replay (some (topic, known)) (add t ∷ rs) = none
replay (some (topic, known)) (remove t ∷ rs) =
    let rest = replay none rs in if t == topic then rest else none
replay (some (topic, known)) (emit t e ∷ rs) =
    let unheard = replay (some (topic, known)) rs in
    let heard = (do value ← value_after known e; replay (some (topic, value)) rs) in
    if t == topic then heard else unheard

-- Whether a call creates a counter.
unfoldable pub creates_counter : List Call → Bool
creates_counter [] = false
creates_counter (calls_new_counter random ∷ calls) = true
creates_counter (calls_increment amount ∷ calls) = creates_counter calls
creates_counter (calls_decrement amount ∷ calls) = creates_counter calls

abbrev pub listener_of : CounterState → Listener
listener_of state = some (state.topic, state.counter)

replay-listening :
    (checks : Bool) (calls : List Call) (state : CounterState)
    → replay (listener_of state) (act_all checks calls state).1
      ≡ some (listener_of (act_all checks calls state).0)
unfolding replay act_all act new_counter increment decrement
replay-listening checks [] state = refl
replay-listening checks (calls_new_counter random ∷ calls) state =
    rw (topic_beq_refl state.topic) (replay-listening checks calls (new_counter random state).0)
replay-listening checks (calls_increment amount ∷ calls) state =
    elim (Option-cases (add_u32 checks state.counter amount)) [
      | inl e ↦ rw (act_all, act, increment, e, ◌>>=◌) (replay-listening checks calls state)
      | inr (new, e) ↦
          rw
            (
              act_all,
              act,
              increment,
              e,
              ◌>>=◌,
              topic_beq_refl state.topic,
              (nat_beq_iff state.counter state.counter).1 refl,
            )
            (replay-listening checks calls (record state { counter = new }))
    ]
replay-listening checks (calls_decrement amount ∷ calls) state =
    elim (Option-cases (sub_u32 checks state.counter amount)) [
      | inl e ↦ rw (act_all, act, decrement, e, ◌>>=◌) (replay-listening checks calls state)
      | inr (new, e) ↦
          rw
            (
              act_all,
              act,
              decrement,
              e,
              ◌>>=◌,
              topic_beq_refl state.topic,
              (nat_beq_iff state.counter state.counter).1 refl,
            )
            (replay-listening checks calls (record state { counter = new }))
    ]

replay-before :
    (checks : Bool) (calls : List Call) (state : CounterState)
    → replay none (act_all checks calls state).1
      ≡ some (if creates_counter calls then listener_of (act_all checks calls state).0 else none)
unfolding replay act_all act new_counter increment decrement creates_counter
replay-before checks [] state = refl
replay-before checks (calls_new_counter random ∷ calls) state =
    replay-listening checks calls (new_counter random state).0
replay-before checks (calls_increment amount ∷ calls) state =
    elim (Option-cases (add_u32 checks state.counter amount)) [
      | inl e ↦ rw (act_all, act, increment, e, ◌>>=◌) (replay-before checks calls state)
      | inr (new, e) ↦
          rw (act_all, act, increment, e, ◌>>=◌)
            (replay-before checks calls (record state { counter = new }))
    ]
replay-before checks (calls_decrement amount ∷ calls) state =
    elim (Option-cases (sub_u32 checks state.counter amount)) [
      | inl e ↦ rw (act_all, act, decrement, e, ◌>>=◌) (replay-before checks calls state)
      | inr (new, e) ↦
          rw (act_all, act, decrement, e, ◌>>=◌)
            (replay-before checks calls (record state { counter = new }))
    ]

-- Whatever calls a client makes, and whether overflows panic or wrap: one who takes what the handler asks
-- for in order, starts from 0 with a subscription, and follows the events of its topic from value to
-- value, listens to the topic of the counter, to no second one, and knows its value, from the first call
-- that creates a counter on; one who listened before goes on to do so.
pub replay-act_all :
    (checks : Bool) (calls : List Call) (state : CounterState)
    → (replay none (act_all checks calls state).1
        ≡ some (if creates_counter calls then listener_of (act_all checks calls state).0 else none))
      × (replay (listener_of state) (act_all checks calls state).1
          ≡ some (listener_of (act_all checks calls state).0))
replay-act_all checks calls state =
    (replay-before checks calls state, replay-listening checks calls state)
