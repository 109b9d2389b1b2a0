-- ===== src/Macros/AppClient.antt =====
-- The client that `#[rpc]` generates: its handles to the runtime client that `connect` spawns. Each
-- connection that has been made is a loop of `Client::connect`, known by its place in the list
-- of them; a handle (the shutdown sender, the call sender, the events, the state) is that place.
pub mod Shutdown
pub mod Connected
use hardlight.Prelude.{
  ℕ, zero, suc, Bool, true, false, Option, none, some, List, [], ◌∷◌, ◌++◌, length, get_elem?,
}
use hardlight.Wire.{Bytes, HandlerResult, ok, err, client_not_connected, client_encode_error}

-- Of a loop's `shutdown` receiver and its task: `told` is a loop whose shutdown has been sent, or
-- whose sender is gone, and that has not seen it.
pub data LoopStatus : Type 0 where
  running told ended : LoopStatus

pub record AppClient : Type 0 where
  pub host : Bytes
  pub self_signed : Bool
  pub shutdown : Option ℕ
  pub rpc_tx : Option ℕ
  pub events_tx : Option ℕ
  pub state : Option ℕ
  pub compression : ℕ

unfoldable pub new : Bytes → ℕ → AppClient
new host compression = record {
  host = host;
  self_signed = false;
  shutdown = none;
  rpc_tx = none;
  events_tx = none;
  state = none;
  compression = compression;
}

unfoldable pub new_self_signed : Bytes → ℕ → AppClient
unfolding new
new_self_signed host compression = record (new host compression) { self_signed = true }

abbrev pub hears : LoopStatus → LoopStatus
hears running = told
hears told = told
hears ended = ended

-- The shutdown of one loop, sent or dropped.
unfoldable pub signal : ℕ → List LoopStatus → List LoopStatus
signal id [] = []
signal zero (s ∷ loops) = hears s ∷ loops
signal (suc id) (s ∷ loops) = s ∷ signal id loops

unfoldable pub signal_all : Option ℕ → List LoopStatus → List LoopStatus
unfolding signal
signal_all none loops = loops
signal_all (some id) loops = signal id loops

-- `connect`: `failure` is the error of `Client::connect` before it hands out the channels. The
-- shutdown sender that the field held is dropped.
unfoldable pub connect :
    {E : Type 0} → Option E → AppClient → List LoopStatus → (AppClient × List LoopStatus) × Option E
unfolding signal_all
connect (some e) app loops = ((app, loops), some e)
connect none app loops =
    let id = length loops in
    (
      (
        record app { shutdown = some id; rpc_tx = some id; events_tx = some id; state = some id },
        signal_all app.shutdown loops ++ (running ∷ []),
      ),
      none,
    )

unfoldable pub disconnect : AppClient → List LoopStatus → AppClient × List LoopStatus
unfolding signal_all
disconnect app loops = (record app { shutdown = none }, signal_all app.shutdown loops)

abbrev handle_or_error : Option ℕ → HandlerResult ℕ
handle_or_error none = err client_not_connected
handle_or_error (some id) = ok id

-- The state that the caller reads.
unfoldable pub read_state : AppClient → HandlerResult ℕ
read_state app = handle_or_error app.state

unfoldable pub subscribe : AppClient → HandlerResult ℕ
subscribe app = handle_or_error app.events_tx

pub data CallOutcome : Type 0 where
  returned : HandlerResult Bytes → CallOutcome
  panicked : CallOutcome

-- `rx.await.unwrap()`, on what the loop sends back: its own error, as `ClientNotConnected` where its
-- socket fails, or the server's answer; `none` where it drops the sender.
unfoldable pub await_answer : Option (HandlerResult Bytes) → CallOutcome
await_answer none = panicked
await_answer (some answer) = returned answer

-- `rpc_chan.send(...)`, which fails once the loop has dropped the receiver, and the wait.
unfoldable pub send_call : Option (HandlerResult Bytes) → Option LoopStatus → CallOutcome
unfolding await_answer
send_call answer none = panicked
send_call answer (some running) = await_answer answer
send_call answer (some told) = await_answer answer
send_call answer (some ended) = panicked

-- `make_rpc_call`, on what `to_bytes` makes of the call and what the loop sends back, if it gets the call.
unfoldable pub make_rpc_call :
    AppClient → Option Bytes → List LoopStatus → Option (HandlerResult Bytes) → CallOutcome
unfolding send_call
make_rpc_call app bytes loops answer = elim app.rpc_tx [
  | none ↦ returned (err client_not_connected)
  | some id ↦ elim bytes [
    | none ↦ returned (err client_encode_error)
    | some internal ↦ send_call answer (get_elem? loops id)
  ]
]

-- A loop that was told sees it, breaks, and drops its ends of the channels.
unfoldable pub loop_ends : ℕ → List LoopStatus → List LoopStatus
loop_ends id [] = []
loop_ends zero (told ∷ loops) = ended ∷ loops
loop_ends zero (running ∷ loops) = running ∷ loops
loop_ends zero (ended ∷ loops) = ended ∷ loops
loop_ends (suc id) (s ∷ loops) = s ∷ loop_ends id loops

-- What the application and the loops do.
pub data Action : Type 0 where
  connects disconnects fails_to_connect : Action
  ends : ℕ → Action

unfoldable pub act : Action → AppClient × List LoopStatus → AppClient × List LoopStatus
unfolding connect disconnect loop_ends
act connects (app, loops) = (connect {E = Unit {0}} none app loops).0
act fails_to_connect (app, loops) = (connect {E = Unit {0}} (some tt) app loops).0
act disconnects (app, loops) = disconnect app loops
act (ends id) (app, loops) = (app, loop_ends id loops)

unfoldable pub act_all : List Action → AppClient × List LoopStatus → AppClient × List LoopStatus
unfolding act
act_all [] w = w
act_all (a ∷ actions) w = act_all actions (act a w)
