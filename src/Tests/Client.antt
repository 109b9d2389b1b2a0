-- ===== src/Tests/Client.antt =====
-- The client's loop on a few arms, and the wire's codecs.
use hardlight.Prelude.{ℕ, arith, ◌+◌, ◌≡◌, ◌↔◌, Bool, true, some, List, [], ◌∷◌, length}
use hardlight.Wire.{err, too_many_calls_in_flight, binary}
use hardlight.Client.{
  Arm, Client, rpc_request_received, message, shutdown, complete, new_client, on_call, run_client,
}
use hardlight.Client.Slots.{busy, waiting}
use hardlight.Client.Callers.{answered, asked, waiting-run_client, on_call-too_many_iff}
use hardlight.Decimal.{decimal, parse_uint, parse_uint-decimal}
use hardlight.Tests.Data.{echo, plain_flate, client_codec, server_codec}

abbrev fresh : Client ℕ
fresh = new_client 6 0

-- Caller 7 asks, is answered, caller 8 asks, the application shuts down.
abbrev arms : List (Bool × Arm)
arms =
    (true, rpc_request_received (3 ∷ []) 7)
    ∷ (true, message (binary (0 ∷ 4 ∷ [])))
    ∷ (true, rpc_request_received (5 ∷ []) 8)
    ∷ (true, shutdown)
    ∷ []

waiting-run_client_example :
    waiting 7
        (run_client plain_flate client_codec server_codec echo.client_state arms
          fresh).0.active_rpc_calls
      + answered 7 (run_client plain_flate client_codec server_codec echo.client_state arms fresh).1
    ≡ waiting 7 fresh.active_rpc_calls + asked 7 arms
waiting-run_client_example =
    waiting-run_client plain_flate client_codec server_codec echo.client_state 7 arms fresh

-- Both slots of a small client are taken.
abbrev full : Client ℕ
full = record { compression = 6; state = 0; active_rpc_calls = some 1 ∷ some 2 ∷ [] }

on_call-too_many_iff_example :
    ((on_call plain_flate client_codec true full (3 ∷ []) 7).1
      ≡ complete 7 (err too_many_calls_in_flight) ∷ [])
    ↔ (busy full.active_rpc_calls ≡ length full.active_rpc_calls)
on_call-too_many_iff_example =
    on_call-too_many_iff plain_flate client_codec server_codec echo.client_state true full (3 ∷ [])
      7

parse_uint-decimal_example : parse_uint 255 (decimal 107) ≡ some 107
parse_uint-decimal_example = parse_uint-decimal 255 107 (omega arith) (omega arith)
