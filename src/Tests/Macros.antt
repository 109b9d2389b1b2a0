-- ===== src/Tests/Macros.antt =====
-- A trait with two methods, and the life of a generated client.
use hardlight.Prelude.{
  ℕ, zero, suc, ◌+◌, ◌-◌, ◌≤◌, ◌≡◌, refl, Option, none, some, List, [], ◌∷◌, arith,
}
use hardlight.Wire.{Bytes, ok, err, client_not_connected}
use hardlight.Codec.{Codec, RoundTrips}
use hardlight.Macros.Rpc.{
  Method, RpcCall, this, that, Implementation, no_methods, method, first, later, call_of, method_of,
  remote_call, remote_call_lem,
}
use hardlight.Macros.AppClient.{
  new, connects, disconnects, ends, Action, act, act_all, make_rpc_call, panicked,
}
use hardlight.Macros.AppClient.Shutdown.{running_loops, at_most_one_running}
use hardlight.Macros.AppClient.Connected.{
  connected_once, AnswersAs, not_connected_until_connected, call-after_disconnect,
}

abbrev read_number : Bytes → Option ℕ
read_number [] = none
read_number (n ∷ rest) = some n

abbrev number_codec : Codec ℕ
number_codec = record { to_bytes = λ n. some (n ∷ []); from_bytes = read_number }

number_codec-RoundTrips : RoundTrips number_codec
number_codec-RoundTrips n bs h = ground (arith, h)

-- `increment` and `decrement`: an amount to a number.
abbrev amount : Method
amount = record { Args = ℕ; Out = ℕ; out_codec = number_codec }

abbrev counter : List Method
counter = amount ∷ amount ∷ []

abbrev call_to : RpcCall counter → Option Bytes
call_to (this n) = some (0 ∷ n ∷ [])
call_to (that (this n)) = some (1 ∷ n ∷ [])
call_to (that (that call)) = elim call [ ]

abbrev call_from : Bytes → Option (RpcCall counter)
call_from (zero ∷ n ∷ []) = some (this n)
call_from (suc zero ∷ n ∷ []) = some (that (this n))
call_from bytes = none

abbrev calls : Codec (RpcCall counter)
calls = record { to_bytes = call_to; from_bytes = call_from }

calls-RoundTrips : RoundTrips calls
calls-RoundTrips (this n) bs h = ground (arith, h)
calls-RoundTrips (that (this n)) bs h = ground (arith, h)
calls-RoundTrips (that (that call)) bs h = elim call [ ]

abbrev life : List Action
life = connects ∷ connects ∷ ends 0 ∷ disconnects ∷ []

at_most_one_running_example :
    (running_loops (act_all life (new [] 6, [])).1 ≤ 1)
    × (running_loops (act disconnects (act_all life (new [] 6, []))).1 ≡ 0)
at_most_one_running_example = at_most_one_running [] 6 life

-- A call of a client that is connected, and whose socket fails.
abbrev connected : List Action
connected = connects ∷ []

not_connected_until_connected_example :
    AnswersAs
      (connected_once connected)
      (act_all connected (new [] 6, []))
      (some [])
      (some (err client_not_connected))
not_connected_until_connected_example =
    not_connected_until_connected [] 6 connected (some []) (some (err client_not_connected))

call-after_disconnect_example :
    let after = act_all (connects ∷ disconnects ∷ ends 0 ∷ []) (new [] 6, []) in
    make_rpc_call after.0 (some (1 ∷ [])) after.1 none ≡ panicked
call-after_disconnect_example = call-after_disconnect (new [] 6, []) (1 ∷ []) none

-- Both methods give the new number.
abbrev counting : Implementation ℕ counter
counting =
    method (λ n state. (state + n, ok (state + n)))
      (method (λ n state. (state - n, ok (state - n))) no_methods)

remote_call_lem_example :
    remote_call calls counting (later first) 2 7 ≡ some (method_of (later first) counting 2 7)
remote_call_lem_example =
    remote_call_lem calls counting calls-RoundTrips number_codec-RoundTrips (later first) 2 7
      (1 ∷ 2 ∷ []) (unfold call_of in refl) (λ out e n. ground (arith, n))
