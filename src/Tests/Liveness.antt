-- ===== src/Tests/Liveness.antt =====
-- A call whose delivery goes on to its answer.
use hardlight.Prelude.{
  ℕ, ◌+◌, ◌≤◌, ◌≡◌, refl, ap, List, some, [], ◌∷◌, ◌++◌, arith, length, count, get_elem?,
}
use hardlight.Wire.{ok, binary}
use hardlight.Client.{Client, Effect, new_client, on_call, on_message, position}
use hardlight.System.Session.{Session, response_arrives, new_session}
use hardlight.System.Session.Deliveries.{left, Delivery, settled, round, deliveries_end}
use hardlight.System.Session.Progress.{IsResponsive, Delivers, delivery_goes_on}
use hardlight.System.Session.Liveness.{IsAnswered, caller_gets_reply, caller_can_get_reply}
use hardlight.Codec.{encode_frame, deflate}
use hardlight.Tests.Data.{echo, echo-IsFaithful, plain_flate, server_codec}
use hardlight.Tests.Session.{asked, asked_run, asked_c2s, answered, answered_run}

echo-IsResponsive : IsResponsive echo 0
unfolding encode_frame deflate
echo-IsResponsive = record {
  replies = λ internal. (ok internal, refl);
  writes = λ level id internal output reply. (id ∷ internal, rw reply refl);
}

delivery_goes_on_example : Delivers echo 0 asked
unfolding new_session
delivery_goes_on_example =
    delivery_goes_on echo 0 echo-IsFaithful echo-IsResponsive 6 6 0 asked_run
      (omega (arith, ap length asked_c2s))

-- The response to caller 7 is all that is under way; the client takes it.
abbrev taken : Client ℕ × List Effect
taken = on_message plain_flate server_codec echo.client_state answered.client (binary (0 ∷ 7 ∷ []))

abbrev over : Session ℕ
over = record answered { client = taken.0; s2c = [] }

last_round : Delivery echo 0 1 (taken.1 ++ []) answered over
last_round = round (response_arrives (0 ∷ 7 ∷ []) [] refl refl) refl settled

deliveries_end_example : 1 + left over ≤ left answered
deliveries_end_example = deliveries_end echo 0 last_round

waits : get_elem? answered.client.active_rpc_calls 0 ≡ some (some 7)
unfolding new_session new_client on_call position deflate
waits = refl

caller_gets_reply_example : IsAnswered echo 0 7 (taken.1 ++ [])
unfolding new_session count
caller_gets_reply_example =
    caller_gets_reply echo 0 echo-IsFaithful 6 6 0 answered_run 0 7 waits refl last_round refl

caller_can_get_reply_example :
    (n : ℕ) × (effects : List Effect) × (τ : Session ℕ) × Delivery echo 0 n effects answered τ
    × (n ≤ left answered)
    × IsAnswered echo 0 7 effects
unfolding new_session count
caller_can_get_reply_example =
    caller_can_get_reply echo 0 echo-IsFaithful 6 6 0 answered_run 0 7 waits refl echo-IsResponsive
