-- ===== src/Macros/AppClient/Shutdown.antt =====
-- Which loops of a generated client run.
use hardlight.Prelude.{
  ℕ, zero, suc, ◌≡◌, ◌≤◌, refl, sym, ap, ◌∙◌, Option, none, some, List, [], ◌∷◌, ◌++◌, length,
  arith,
}
use hardlight.Wire.{Bytes}
use hardlight.Macros.AppClient.{
  LoopStatus, running, told, ended, AppClient, new, signal, signal_all, connect, disconnect,
  loop_ends, Action, connects, disconnects, fails_to_connect, ends, act, act_all,
}

unfoldable pub running_loops : List LoopStatus → ℕ
running_loops [] = 0
running_loops (running ∷ loops) = suc (running_loops loops)
running_loops (told ∷ loops) = running_loops loops
running_loops (ended ∷ loops) = running_loops loops

-- Whatever runs hears the shutdown that the client holds.
Inv : AppClient × List LoopStatus → Type 0
unfolding running_loops signal_all
Inv (app, loops) = running_loops (signal_all app.shutdown loops) ≡ 0

running_loops-append :
    (loops : List LoopStatus)
    → running_loops loops ≡ 0
    → running_loops (signal (length loops) (loops ++ (running ∷ []))) ≡ 0
unfolding running_loops signal
running_loops-append [] h = refl
running_loops-append (running ∷ loops) h = absurd (ground (arith, h))
running_loops-append (told ∷ loops) h = running_loops-append loops h
running_loops-append (ended ∷ loops) h = running_loops-append loops h

running_loops-loop_ends :
    (id : ℕ) (loops : List LoopStatus) → running_loops (loop_ends id loops) ≡ running_loops loops
unfolding running_loops loop_ends
running_loops-loop_ends id [] = refl
running_loops-loop_ends zero (running ∷ loops) = refl
running_loops-loop_ends zero (told ∷ loops) = refl
running_loops-loop_ends zero (ended ∷ loops) = refl
running_loops-loop_ends (suc id) (running ∷ loops) = ap suc (running_loops-loop_ends id loops)
running_loops-loop_ends (suc id) (told ∷ loops) = running_loops-loop_ends id loops
running_loops-loop_ends (suc id) (ended ∷ loops) = running_loops-loop_ends id loops

signal-loop_ends :
    (sd id : ℕ) (loops : List LoopStatus)
    → running_loops (signal sd (loop_ends id loops)) ≡ running_loops (signal sd loops)
unfolding running_loops loop_ends signal
signal-loop_ends sd id [] = refl
signal-loop_ends zero zero (running ∷ loops) = refl
signal-loop_ends zero zero (told ∷ loops) = refl
signal-loop_ends zero zero (ended ∷ loops) = refl
signal-loop_ends zero (suc id) (running ∷ loops) = running_loops-loop_ends id loops
signal-loop_ends zero (suc id) (told ∷ loops) = running_loops-loop_ends id loops
signal-loop_ends zero (suc id) (ended ∷ loops) = running_loops-loop_ends id loops
signal-loop_ends (suc sd) zero (running ∷ loops) = refl
signal-loop_ends (suc sd) zero (told ∷ loops) = refl
signal-loop_ends (suc sd) zero (ended ∷ loops) = refl
signal-loop_ends (suc sd) (suc id) (running ∷ loops) = ap suc (signal-loop_ends sd id loops)
signal-loop_ends (suc sd) (suc id) (told ∷ loops) = signal-loop_ends sd id loops
signal-loop_ends (suc sd) (suc id) (ended ∷ loops) = signal-loop_ends sd id loops

length-signal : (id : ℕ) (loops : List LoopStatus) → length (signal id loops) ≡ length loops
unfolding signal
length-signal id [] = refl
length-signal zero (s ∷ loops) = refl
length-signal (suc id) (s ∷ loops) = ap suc (length-signal id loops)

pub length-signal_all :
    (sd : Option ℕ) (loops : List LoopStatus) → length (signal_all sd loops) ≡ length loops
unfolding signal_all
length-signal_all none loops = refl
length-signal_all (some id) loops = length-signal id loops

all-loop_ends :
    (sd : Option ℕ) (id : ℕ) (loops : List LoopStatus)
    → running_loops (signal_all sd (loop_ends id loops)) ≡ running_loops (signal_all sd loops)
unfolding signal_all
all-loop_ends none id loops = running_loops-loop_ends id loops
all-loop_ends (some sd) id loops = signal-loop_ends sd id loops

act-Inv : (a : Action) (w : AppClient × List LoopStatus) → Inv w → Inv (act a w)
unfolding Inv act connect disconnect signal_all
act-Inv connects (app, loops) h =
    rw (sym (length-signal_all app.shutdown loops))
      (running_loops-append (signal_all app.shutdown loops) h)
act-Inv fails_to_connect (app, loops) h = h
act-Inv disconnects (app, loops) h = h
act-Inv (ends id) (app, loops) h = all-loop_ends app.shutdown id loops ∙ h

act_all-Inv :
    (actions : List Action) (w : AppClient × List LoopStatus) → Inv w → Inv (act_all actions w)
unfolding act_all
act_all-Inv [] w h = h
act_all-Inv (a ∷ actions) w h = act_all-Inv actions (act a w) (act-Inv a w h)

running_loops-signal :
    (id : ℕ) (loops : List LoopStatus) → running_loops loops ≤ suc (running_loops (signal id loops))
unfolding running_loops signal
running_loops-signal id [] = ground arith
running_loops-signal zero (running ∷ loops) = ground arith
running_loops-signal zero (told ∷ loops) = ground arith
running_loops-signal zero (ended ∷ loops) = ground arith
running_loops-signal (suc id) (running ∷ loops) =
    let below = running_loops-signal id loops in omega arith
running_loops-signal (suc id) (told ∷ loops) = running_loops-signal id loops
running_loops-signal (suc id) (ended ∷ loops) = running_loops-signal id loops

running_loops-signal_all :
    (sd : Option ℕ) (loops : List LoopStatus)
    → running_loops loops ≤ suc (running_loops (signal_all sd loops))
unfolding signal_all
running_loops-signal_all none loops = ground arith
running_loops-signal_all (some id) loops = running_loops-signal id loops

new-Inv : (host : Bytes) (level : ℕ) → Inv (new host level, [])
unfolding Inv new signal_all running_loops
new-Inv host level = refl

-- However often the application connects, fails to connect and disconnects, at most one of the
-- client's loops has not been told to stop, and after a disconnect, or a drop, none.
pub at_most_one_running :
    (host : Bytes) (level : ℕ) (actions : List Action)
    → (running_loops (act_all actions (new host level, [])).1 ≤ 1)
      × (running_loops (act disconnects (act_all actions (new host level, []))).1 ≡ 0)
unfolding Inv act disconnect
at_most_one_running host level actions =
    let w = act_all actions (new host level, []) in
    let inv = act_all-Inv actions (new host level, []) (new-Inv host level) in
    let below = running_loops-signal_all w.0.shutdown w.1 in (omega arith, inv)
