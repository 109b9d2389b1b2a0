-- ===== src/Server/Connection/Flags.antt =====
-- The flags of the ids in flight, and how tasks and responses change them.
use hardlight.Prelude.{
  ℕ, ◌+◌, ◌≤◌, ◌<◌, ◌≡◌, refl, lookup, Bool, true, false, Option, none, some, inl, inr, List, arith,
  nat_beq, nat_beq_iff, count, if◌then◌else◌, length, get_elem?, set, get_elem?-set_self,
  get_elem?-set_ne, Bool-cases, Option-cases, hit,
}
use hardlight.Wire.{rpc_response, new_event, state_change}
use hardlight.Topic.{topic_eq}
use hardlight.Channels.{Sender, ProxiedSubscriptionNotification}
use hardlight.Server.Connection.{
  Connection, Answers, Arm, response, state_changes, event, subscription, message, receive_error,
  Effect, transmit, spawn_rpc, tell_switch, on_subscription,
}

-- A flag for every id that a `u8` can be.
unfoldable pub IsValid : Connection → Type 0
IsValid c = length c.in_flight ≡ 256

abbrev pub bit : Bool → ℕ
bit true = 1
bit false = 0

abbrev pub raised : Option Bool → ℕ
raised none = 0
raised (some b) = bit b

-- 1 if the id is in flight.
abbrev pub flag : ℕ → Connection → ℕ
flag i c = raised (get_elem? c.in_flight i)

abbrev pub spawn_tag : Effect → Option ℕ
spawn_tag (spawn_rpc id internal) = some id
spawn_tag (transmit frame) = none
spawn_tag (tell_switch n) = none

-- The id of a response that a task has sent.
abbrev pub response_tag : Answers × Arm → Option ℕ
response_tag (a, response (rpc_response id output)) = some id
response_tag (a, response (new_event topic payload)) = none
response_tag (a, response (state_change changes)) = none
response_tag (a, state_changes changes) = none
response_tag (a, event e) = none
response_tag (a, subscription n) = none
response_tag (a, message msg) = none
response_tag (a, receive_error) = none

pub raised-set :
    (flags : List Bool) (id i : ℕ) (b : Bool)
    → id < length flags
    → raised (get_elem? (set flags id b) i)
      ≡ (if nat_beq id i then bit b else raised (get_elem? flags i))
raised-set flags id i b fits = elim (Bool-cases (nat_beq id i)) [
  | inl same ↦
      let e : id ≡ i = (nat_beq_iff id i).0 same in
      rw (same, ← e, get_elem?-set_self flags id b fits) refl
  | inr differ ↦
      rw (differ, get_elem?-set_ne flags id i b (λ e. ground (arith, e, nat_beq_iff id i, differ)))
        refl
]

pub raised-le-one : (o : Option Bool) → raised o ≤ 1
raised-le-one none = omega arith
raised-le-one (some true) = omega arith
raised-le-one (some false) = omega arith

-- A task is spawned where the flag was down, and the flag goes up.
pub spawn_raises :
    (c : Connection) (id i : ℕ)
    → id < length c.in_flight
    → get_elem? c.in_flight id ≡ some false
    → hit i (some id) + 0 + flag i c ≤ raised (get_elem? (set c.in_flight id true) i) + 0
spawn_raises c id i fits down = elim (Bool-cases (nat_beq id i)) [
  | inl same ↦
      let e : id ≡ i = (nat_beq_iff id i).0 same in
      let low : flag i c ≡ 0 = rw (← e, down) refl in
      rw (raised-set c.in_flight id i true fits, same) (omega (arith, low))
  | inr differ ↦ rw (raised-set c.in_flight id i true fits, differ) (omega arith)
]

-- A response lowers one flag.
pub response_lowers :
    (c : Connection) (id i : ℕ)
    → id < length c.in_flight
    → 0 + flag i c ≤ raised (get_elem? (set c.in_flight id false) i) + hit i (some id)
response_lowers c id i fits = elim (Bool-cases (nat_beq id i)) [
  | inl same ↦
      rw (raised-set c.in_flight id i false fits, same)
        (omega (arith, raised-le-one (get_elem? c.in_flight i)))
  | inr differ ↦ rw (raised-set c.in_flight id i false fits, differ) (omega arith)
]

pub subscription_spawns_none :
    (a : Answers) (tx : Sender) (c : Connection) (n : ProxiedSubscriptionNotification) (i : ℕ)
    → count spawn_tag i (on_subscription a tx c n).1 ≡ 0
unfolding on_subscription count
subscription_spawns_none a tx c (ProxiedSubscriptionNotification.subscribe t) i = ground arith
subscription_spawns_none a tx c (ProxiedSubscriptionNotification.unsubscribe t) i =
    ground (arith, Option-cases (lookup t c.subscriptions))
