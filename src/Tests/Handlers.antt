-- ===== src/Tests/Handlers.antt =====
-- The handlers of testing-project and of the examples, on a few calls.
use hardlight.Prelude.{
  ℕ, ◌≡◌, refl, Bool, true, false, Option, none, some, List, [], ◌∷◌, arith, lookup, list_eq,
  nat_eq,
}
use hardlight.Topic.{Topic, topic_eq}
use hardlight.Wire.{Bytes, StateUpdate, event_new}
use hardlight.Codec.{Codec, RoundTrips}
use hardlight.Serialize.{codable_into}
use hardlight.Server.Switch.{
  new_switch, subscribe, route_event, deliver, Turn, notification, run_switch,
}
use hardlight.Channels.{SubscriptionNotification}
use hardlight.Examples.Counter.{CounterEvent, incremented, decremented, server_sent_test}
use hardlight.Examples.Counter.Notifier.{notifications, notifier, first_subscriber_is_greeted}
use hardlight.Macros.Rpc
use hardlight.Macros.Rpc.{RpcCall, this, that}
use hardlight.Macros.State.{drop_guard, diff}
use hardlight.Macros.State.Order.{run_writes, receive_all}
use hardlight.Examples.Handwritten.{
  counter_methods, counter_implementation, handle_rpc_call, handwritten_is_generated,
}
use hardlight.Examples.Pet.{
  Pet, PetState, PetCall, dog, cat, become_dog, become_cat, make_a_noise, noise, becomes_all,
  last_noise, pet_fields, pet_makes_last_noise,
}

abbrev u32 : Codec ℕ
u32 = record { to_bytes = λ n. some (n ∷ []); from_bytes = λ bytes. none }

abbrev unit : Codec (Unit {0})
unit = record { to_bytes = λ u. some []; from_bytes = λ bytes. some tt }

-- A byte is an increment.
abbrev read_call : Bytes → Option (RpcCall (counter_methods u32 unit))
read_call [] = none
read_call (amount ∷ rest) = some (this amount)

abbrev calls : Codec (RpcCall (counter_methods u32 unit))
calls = record { to_bytes = λ call. none; from_bytes = read_call }

handwritten_is_generated_example :
    handle_rpc_call u32 unit calls false (3 ∷ []) 4
    ≡ Rpc.handle_rpc_call calls (counter_implementation u32 unit) (3 ∷ []) 4
handwritten_is_generated_example =
    handwritten_is_generated u32 unit calls (λ n. (n ∷ [], refl)) refl (3 ∷ []) 4 (omega arith)

abbrev write_event : CounterEvent → Option Bytes
write_event (incremented to from) = none
write_event (decremented to from) = none
write_event server_sent_test = some (9 ∷ [])

abbrev events : Codec CounterEvent
events = record { to_bytes = write_event; from_bytes = λ bytes. none }

abbrev topic : Topic
topic = record { inner = 5 ∷ []; is_string = false }

abbrev elsewhere : Topic
elsewhere = record { inner = 6 ∷ []; is_string = false }

-- The switch takes a subscription to another topic before the greeting.
abbrev between : List Turn
between =
    record {
      is_open = λ tx. true;
      input = notification (SubscriptionNotification.subscribe elsewhere (2 ∷ []) 8);
    }
    ∷ []

first_subscriber_is_greeted_example :
    let r = subscribe topic (1 ∷ []) 7 new_switch in
    (notifier events true (notifications r.1) [] ≡ some (event_new topic (9 ∷ []) ∷ []))
    × ((route_event (λ tx. true) (event_new topic (9 ∷ [])) (run_switch between r.0).0).1
        ≡ deliver 7 (event_new topic (9 ∷ [])) ∷ [])
unfolding new_switch lookup codable_into
first_subscriber_is_greeted_example =
    first_subscriber_is_greeted events (λ tx. true) new_switch topic (1 ∷ []) 7 (9 ∷ []) between
      refl refl refl (refl, tt)

-- A pet as bytes: its kind, its age, and its name; the breed is left out.
abbrev write_pet : PetState → Option Bytes
write_pet none = none
write_pet (some (dog name age [])) = some (0 ∷ age ∷ name)
write_pet (some (dog name age (c ∷ cs))) = none
write_pet (some (cat name age [])) = some (1 ∷ age ∷ name)
write_pet (some (cat name age (c ∷ cs))) = none

abbrev kind : Bool → List ℕ → ℕ → Pet
kind true name age = dog name age []
kind false name age = cat name age []

abbrev is_zero : ℕ → Bool
is_zero ℕ.zero = true
is_zero (ℕ.suc n) = false

abbrev read_pet : Bytes → Option PetState
read_pet [] = none
read_pet (k ∷ []) = none
read_pet (k ∷ age ∷ name) = some (some (kind (is_zero k) name age))

abbrev pets : Codec PetState
pets = record { to_bytes = write_pet; from_bytes = read_pet }

pets-RoundTrips : RoundTrips pets
pets-RoundTrips none bs h = absurd (ground (arith, h))
pets-RoundTrips (some (dog name age [])) bs h = ground (arith, h)
pets-RoundTrips (some (dog name age (c ∷ cs))) bs h = absurd (ground (arith, h))
pets-RoundTrips (some (cat name age [])) bs h = ground (arith, h)
pets-RoundTrips (some (cat name age (c ∷ cs))) bs h = absurd (ground (arith, h))

abbrev rex_then_tom : List PetCall
rex_then_tom = become_dog (b'R' ∷ []) 3 [] ∷ make_a_noise ∷ become_cat (b'T' ∷ []) 2 [] ∷ []

abbrev sent : List (Option (List StateUpdate))
sent =
    some (record { index = 0; bytes = 0 ∷ 3 ∷ b'R' ∷ [] } ∷ [])
    ∷ some (record { index = 0; bytes = 1 ∷ 2 ∷ b'T' ∷ [] } ∷ [])
    ∷ []

pet_makes_last_noise_example :
    ((receive_all (pet_fields pets) sent (none, tt)).0 ≡ becomes_all rex_then_tom none)
    × (noise (receive_all (pet_fields pets) sent (none, tt)).0
        ≡ last_noise rex_then_tom (noise none))
unfolding run_writes drop_guard diff
pet_makes_last_noise_example = pet_makes_last_noise pets rex_then_tom none sent pets-RoundTrips refl
