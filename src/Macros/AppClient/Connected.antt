-- ===== src/Macros/AppClient/Connected.antt =====
-- What a generated client's calls give before its first connection, and after it.
use hardlight.Prelude.{
  ℕ, ◌≡◌, ◌≢◌, ◌↔◌, refl, sym, Bool, true, false, Option, none, some, List, [], ◌∷◌, ◌++◌, length,
  get_elem?, arith,
}
use hardlight.Wire.{Bytes, HandlerResult, ok, err, client_not_connected}
use hardlight.Macros.AppClient.Shutdown.{length-signal_all}
use hardlight.Macros.AppClient.{
  LoopStatus, running, told, ended, AppClient, new, signal, signal_all, connect, disconnect,
  read_state, subscribe, make_rpc_call, send_call, await_answer, returned, panicked, loop_ends,
  Action, connects, disconnects, fails_to_connect, ends, act, act_all,
}

ended_after :
    (loops : List LoopStatus)
    → get_elem?
        (loop_ends (length loops) (signal (length loops) (loops ++ (running ∷ []))))
        (length loops)
      ≡ some ended
unfolding loop_ends signal
ended_after [] = refl
ended_after (s ∷ loops) = ended_after loops

-- Once a client has disconnected, and its loop has ended, a call that can be encoded panics at
-- once: it does not give the error that a client which never connected gives.
pub call-after_disconnect :
    (w : AppClient × List LoopStatus) (internal : Bytes) (answer : Option (HandlerResult Bytes))
    → let after = act_all (connects ∷ disconnects ∷ ends (length w.1) ∷ []) w in
      make_rpc_call after.0 (some internal) after.1 answer ≡ panicked
unfolding act_all act connect disconnect make_rpc_call send_call
call-after_disconnect (app, loops) internal answer =
    rw
      (
        sym (length-signal_all app.shutdown loops),
        ended_after (signal_all app.shutdown loops),
        send_call,
      )
      refl

-- Whether a connection has been made.
unfoldable pub connected_once : List Action → Bool
connected_once [] = false
connected_once (connects ∷ actions) = true
connected_once (fails_to_connect ∷ actions) = connected_once actions
connected_once (disconnects ∷ actions) = connected_once actions
connected_once (ends id ∷ actions) = connected_once actions

-- A client's handles are all there, to the same loop, or none is.
AllOrNone : Bool → AppClient → Type 0
AllOrNone false app = (app.rpc_tx ≡ none) × (app.state ≡ none) × (app.events_tx ≡ none)
AllOrNone true app =
    (id : ℕ) × (app.rpc_tx ≡ some id) × (app.state ≡ some id) × (app.events_tx ≡ some id)

stays_connected :
    (actions : List Action) (w : AppClient × List LoopStatus)
    → AllOrNone true w.0
    → AllOrNone true (act_all actions w).0
unfolding AllOrNone act_all act connect disconnect
stays_connected [] w h = h
stays_connected (connects ∷ actions) (app, loops) h =
    stays_connected actions (act connects (app, loops)) (length loops, refl, refl, refl)
stays_connected (fails_to_connect ∷ actions) (app, loops) h = stays_connected actions (app, loops) h
stays_connected (disconnects ∷ actions) (app, loops) h =
    stays_connected actions (act disconnects (app, loops)) h
stays_connected (ends id ∷ actions) (app, loops) h =
    stays_connected actions (act (ends id) (app, loops)) h

act_all-AllOrNone :
    (actions : List Action) (w : AppClient × List LoopStatus)
    → AllOrNone false w.0
    → AllOrNone (connected_once actions) (act_all actions w).0
unfolding AllOrNone act_all act connect disconnect connected_once
act_all-AllOrNone [] w h = h
act_all-AllOrNone (connects ∷ actions) (app, loops) h =
    stays_connected actions (act connects (app, loops)) (length loops, refl, refl, refl)
act_all-AllOrNone (fails_to_connect ∷ actions) (app, loops) h =
    act_all-AllOrNone actions (app, loops) h
act_all-AllOrNone (disconnects ∷ actions) (app, loops) h =
    act_all-AllOrNone actions (act disconnects (app, loops)) h
act_all-AllOrNone (ends id ∷ actions) (app, loops) h =
    act_all-AllOrNone actions (act (ends id) (app, loops)) h

-- The loop still has its receiver.
abbrev pub HasReceiver : Option LoopStatus → Type 0
HasReceiver none = ⊥
HasReceiver (some running) = Unit
HasReceiver (some told) = Unit
HasReceiver (some ended) = ⊥

abbrev pub AnswersAs :
    Bool → AppClient × List LoopStatus → Option Bytes → Option (HandlerResult Bytes) → Type 0
AnswersAs false (app, loops) bytes answer =
    (make_rpc_call app bytes loops answer ≡ returned (err client_not_connected))
    × (read_state app ≡ err client_not_connected)
    × (subscribe app ≡ err client_not_connected)
AnswersAs true (app, loops) bytes answer =
    (id : ℕ) × (read_state app ≡ ok id)
    × (subscribe app ≡ ok id)
    × ((make_rpc_call app bytes loops answer ≡ returned (err client_not_connected)) ↔ (
        (bytes ≢ none)
        × HasReceiver (get_elem? loops id)
        × (answer ≡ some (err client_not_connected))))

await_answer_iff :
    (answer : Option (HandlerResult Bytes))
    → (await_answer answer ≡ returned (err client_not_connected))
      ↔ (answer ≡ some (err client_not_connected))
unfolding await_answer
await_answer_iff none = ground arith
await_answer_iff (some output) = ground arith

send_call_iff :
    (answer : Option (HandlerResult Bytes)) (s : Option LoopStatus)
    → (send_call answer s ≡ returned (err client_not_connected))
      ↔ (HasReceiver s × (answer ≡ some (err client_not_connected)))
unfolding send_call
send_call_iff answer none = ground arith
send_call_iff answer (some running) =
    (λ e. (tt, (await_answer_iff answer).0 e), λ h. (await_answer_iff answer).1 h.1)
send_call_iff answer (some told) =
    (λ e. (tt, (await_answer_iff answer).0 e), λ h. (await_answer_iff answer).1 h.1)
send_call_iff answer (some ended) = ground arith

calls-connected :
    (app : AppClient) (loops : List LoopStatus) (bytes : Option Bytes)
    (answer : Option (HandlerResult Bytes)) (id : ℕ)
    → app.rpc_tx ≡ some id
    → (make_rpc_call app bytes loops answer ≡ returned (err client_not_connected)) ↔ (
        (bytes ≢ none)
        × HasReceiver (get_elem? loops id)
        × (answer ≡ some (err client_not_connected)))
unfolding make_rpc_call
calls-connected app loops none answer id r =
    rw r (λ e. absurd (ground (arith, e)), λ h. absurd (h.0 refl))
calls-connected app loops (some internal) answer id r =
    let (to, from) = send_call_iff answer (get_elem? loops id) in
    rw r (
      λ e. let (lives, same) = to e in (λ n. ground (arith, n), lives, same),
      λ h. let (written, lives, same) = h in from (lives, same),
    )

answers :
    (b : Bool) (w : AppClient × List LoopStatus) (bytes : Option Bytes)
    (answer : Option (HandlerResult Bytes))
    → AllOrNone b w.0
    → AnswersAs b w bytes answer
unfolding AllOrNone make_rpc_call read_state subscribe
answers false (app, loops) bytes answer (r, s, e) = (rw r refl, rw s refl, rw e refl)
answers true (app, loops) bytes answer (id, r, s, e) =
    (id, rw s refl, rw e refl, calls-connected app loops bytes answer id r)

-- A client that has never connected answers every call, and every read of the state or the events,
-- with `ClientNotConnected`. One that has connected once gives, whatever it does after that, the state
-- and the events of one loop; and a call of it is answered `ClientNotConnected` exactly if it can be
-- encoded, the same loop still has its receiver, and that is what the loop sends back, as it does
-- where its socket fails.
pub not_connected_until_connected :
    (host : Bytes) (level : ℕ) (actions : List Action) (bytes : Option Bytes)
    (answer : Option (HandlerResult Bytes))
    → AnswersAs (connected_once actions) (act_all actions (new host level, [])) bytes answer
unfolding new AllOrNone
not_connected_until_connected host level actions bytes answer =
    answers (connected_once actions) (act_all actions (new host level, [])) bytes answer
      (act_all-AllOrNone actions (new host level, []) (refl, refl, refl))
