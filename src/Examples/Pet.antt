-- ===== src/Examples/Pet.antt =====
-- examples/pet.rs: the pet that a client has become, as the state of its connection.
use hardlight.Prelude.{
  ℕ, ◌≡◌, ◌↔◌, refl, ◌∙◌, ap, Bool, true, false, ◌&&◌, Option, none, some, List, [], ◌∷◌, ◌++◌,
  arith, ◌==◌, list_eq, list_beq_iff, nat_eq,
}
use hardlight.Wire.{StateUpdate}
use hardlight.Codec.{Codec, RoundTrips}
use hardlight.Macros.State.{Field, State}
use hardlight.Macros.State.Order.{run_writes, final, receive_all, receive_all-run_writes}

-- A text is the list of its bytes.
abbrev pub Text : Type 0
Text = List ℕ

pub data Pet : Type 0 where
  dog : (name : Text) → (age : ℕ) → (breed : Text) → Pet
  cat : (name : Text) → (age : ℕ) → (breed : Text) → Pet

-- `struct State`
abbrev pub PetState : Type 0
PetState = Option Pet

-- The calls of a client, with what each makes of the state.
pub data PetCall : Type 0 where
  become_dog : (name : Text) → (age : ℕ) → (breed : Text) → PetCall
  become_cat : (name : Text) → (age : ℕ) → (breed : Text) → PetCall
  make_a_noise : PetCall

unfoldable pub becomes : PetCall → PetState → PetState
becomes (become_dog name age breed) pet = some (dog name age breed)
becomes (become_cat name age breed) pet = some (cat name age breed)
becomes make_a_noise pet = pet

abbrev pub says_woof : Text
says_woof = b' ' ∷ b's' ∷ b'a' ∷ b'y' ∷ b's' ∷ b' ' ∷ b'w' ∷ b'o' ∷ b'o' ∷ b'f' ∷ b'!' ∷ []

abbrev pub says_meow : Text
says_meow = b' ' ∷ b's' ∷ b'a' ∷ b'y' ∷ b's' ∷ b' ' ∷ b'm' ∷ b'e' ∷ b'o' ∷ b'w' ∷ b'!' ∷ []

-- `make_a_noise`
unfoldable pub noise : PetState → Option Text
noise none = none
noise (some (dog name age breed)) = some (name ++ says_woof)
noise (some (cat name age breed)) = some (name ++ says_meow)

unfoldable pub becomes_all : List PetCall → PetState → PetState
unfolding becomes
becomes_all [] pet = pet
becomes_all (call ∷ calls) pet = becomes_all calls (becomes call pet)

-- The noise of the last pet among the calls, if there is one.
abbrev pub last_noise : List PetCall → Option Text → Option Text
last_noise [] heard = heard
last_noise (become_dog name age breed ∷ calls) heard = last_noise calls (some (name ++ says_woof))
last_noise (become_cat name age breed ∷ calls) heard = last_noise calls (some (name ++ says_meow))
last_noise (make_a_noise ∷ calls) heard = last_noise calls heard

last_noise-becomes_all :
    (calls : List PetCall) (pet : PetState)
    → noise (becomes_all calls pet) ≡ last_noise calls (noise pet)
unfolding noise becomes_all becomes
last_noise-becomes_all [] pet = refl
last_noise-becomes_all (become_dog name age breed ∷ calls) pet =
    last_noise-becomes_all calls (some (dog name age breed))
last_noise-becomes_all (become_cat name age breed ∷ calls) pet =
    last_noise-becomes_all calls (some (cat name age breed))
last_noise-becomes_all (make_a_noise ∷ calls) pet = last_noise-becomes_all calls pet

-- The derived `PartialEq`.
abbrev pet_beq : Pet → Pet → Bool
pet_beq (dog name age breed) (dog name' age' breed') =
    name == name' && age == age' && breed == breed'
pet_beq (dog name age breed) (cat name' age' breed') = false
pet_beq (cat name age breed) (dog name' age' breed') = false
pet_beq (cat name age breed) (cat name' age' breed') =
    name == name' && age == age' && breed == breed'

pet_beq_iff : (a b : Pet) → (pet_beq a b ≡ true) ↔ (a ≡ b)
pet_beq_iff (dog name age breed) (dog name' age' breed') =
    ground (arith, list_beq_iff name name', list_beq_iff breed breed')
pet_beq_iff (dog name age breed) (cat name' age' breed') = ground arith
pet_beq_iff (cat name age breed) (dog name' age' breed') = ground arith
pet_beq_iff (cat name age breed) (cat name' age' breed') =
    ground (arith, list_beq_iff name name', list_beq_iff breed breed')

abbrev state_beq : PetState → PetState → Bool
state_beq none none = true
state_beq none (some b) = false
state_beq (some a) none = false
state_beq (some a) (some b) = pet_beq a b

pub state_beq_iff : (a b : PetState) → (state_beq a b ≡ true) ↔ (a ≡ b)
state_beq_iff none none = ground arith
state_beq_iff none (some b) = ground arith
state_beq_iff (some a) none = ground arith
state_beq_iff (some a) (some b) = ground (arith, pet_beq_iff a b)

module _ (codec : Codec PetState) where
  -- The one field of the state.
  abbrev pub pet_fields : List Field
  pet_fields =
      record {
        Value = PetState;
        value_eq = record { eq = state_beq; eq_iff = state_beq_iff };
        codec = codec;
        default = none;
      }
      ∷ []

  -- The states in which the guards of the calls leave the connection; `make_a_noise` only reads.
  abbrev pub states_of : List PetCall → PetState → List (State pet_fields)
  states_of [] pet = []
  states_of (become_dog name age breed ∷ calls) pet =
      (some (dog name age breed), tt) ∷ states_of calls (some (dog name age breed))
  states_of (become_cat name age breed ∷ calls) pet =
      (some (cat name age breed), tt) ∷ states_of calls (some (cat name age breed))
  states_of (make_a_noise ∷ calls) pet = states_of calls pet

  final-states_of :
      (calls : List PetCall) (pet : PetState)
      → final pet_fields (pet, tt) (states_of calls pet) ≡ (becomes_all calls pet, tt)
  unfolding becomes_all becomes
  final-states_of [] pet = refl
  final-states_of (become_dog name age breed ∷ calls) pet =
      final-states_of calls (some (dog name age breed))
  final-states_of (become_cat name age breed ∷ calls) pet =
      final-states_of calls (some (cat name age breed))
  final-states_of (make_a_noise ∷ calls) pet = final-states_of calls pet

  -- After any calls, the server and a client that has applied the updates of their guards in order have
  -- the same pet, and it makes the noise of the last animal that the client became, if rkyv reads back
  -- the pets that it has written and no guard panics.
  pub pet_makes_last_noise :
      (calls : List PetCall) (pet : PetState) (sent : List (Option (List StateUpdate)))
      → RoundTrips codec
      → run_writes pet_fields (pet, tt) (states_of calls pet) ≡ some sent
      → ((receive_all pet_fields sent (pet, tt)).0 ≡ becomes_all calls pet)
        × (noise (receive_all pet_fields sent (pet, tt)).0 ≡ last_noise calls (noise pet))
  pet_makes_last_noise calls pet sent trips writes =
      let same : (receive_all pet_fields sent (pet, tt)).0 ≡ becomes_all calls pet =
        ap (λ (s : State pet_fields). s.0)
          (receive_all-run_writes pet_fields (trips, tt) (pet, tt) (states_of calls pet) sent writes
            ∙ final-states_of calls pet) in
      (same, ap noise same ∙ last_noise-becomes_all calls pet)
