-- ===== src/Server/Connection/Select.antt =====
-- The order in which the `select!` of a connection's loop, which is `biased`, serves its queues.
use hardlight.Prelude.{ℕ, zero, suc, ◌≡◌, refl, Option, none, some, List, [], ◌∷◌, ◌++◌, map, take}
use hardlight.Wire.{Event, StateUpdate, ServerMessage, WsMessage}
use hardlight.Channels.{ProxiedSubscriptionNotification}
use hardlight.Server.Connection.{
  Arm, response, state_changes, event, subscription, message, receive_error,
}

-- What waits for the loop, oldest first; `none` in the stream is an error.
pub record Queues : Type 0 where
  pub rpc_rx : List ServerMessage
  pub state_change_rx : List (List StateUpdate)
  pub events_rx : List Event
  pub proxy_subscription_notification_rx : List ProxiedSubscriptionNotification
  pub ws_stream : List (Option WsMessage)

abbrev pub received_from : Option WsMessage → Arm
received_from none = receive_error
received_from (some msg) = message msg

-- The first arm, from the top, whose queue has an entry; `none` waits.
unfoldable pub select_arm : Queues → Option (Arm × Queues)
select_arm q = elim q.rpc_rx [
  | msg ∷ rest ↦ some (response msg, record q { rpc_rx = rest })
  | [] ↦ elim q.state_change_rx [
    | changes ∷ rest ↦ some (state_changes changes, record q { state_change_rx = rest })
    | [] ↦ elim q.events_rx [
      | e ∷ rest ↦ some (event e, record q { events_rx = rest })
      | [] ↦ elim q.proxy_subscription_notification_rx [
        | n ∷ rest ↦ some (subscription n, record q { proxy_subscription_notification_rx = rest })
        | [] ↦ elim q.ws_stream [
          | msg ∷ rest ↦ some (received_from msg, record q { ws_stream = rest })
          | [] ↦ none
        ]
      ]
    ]
  ]
]

-- The arms of the next rounds, if nothing more arrives.
unfoldable pub next_arms : ℕ → Queues → List Arm
next_arms zero q = []
next_arms (suc n) q = elim (select_arm q) [ none ↦ [] | some (arm, rest) ↦ arm ∷ next_arms n rest ]

-- All that waits, by the priority of its queue.
unfoldable pub by_priority : Queues → List Arm
by_priority q =
    map response q.rpc_rx
    ++ (map state_changes q.state_change_rx
        ++ (map event q.events_rx
            ++ (map subscription q.proxy_subscription_notification_rx
                ++ map received_from q.ws_stream)))

-- What is selected stands first, and the others follow.
Selects : Queues → Option (Arm × Queues) → Type 0
Selects q none = by_priority q ≡ []
Selects q (some (arm, rest)) = by_priority q ≡ arm ∷ by_priority rest

select_arm-Selects :
    (r : List ServerMessage) (s : List (List StateUpdate)) (e : List Event)
    (n : List ProxiedSubscriptionNotification) (w : List (Option WsMessage))
    → let q : Queues = record {
      rpc_rx = r;
      state_change_rx = s;
      events_rx = e;
      proxy_subscription_notification_rx = n;
      ws_stream = w;
    } in
      Selects q (select_arm q)
unfolding Selects select_arm by_priority
select_arm-Selects (x ∷ r) s e n w = refl
select_arm-Selects [] (x ∷ s) e n w = refl
select_arm-Selects [] [] (x ∷ e) n w = refl
select_arm-Selects [] [] [] (x ∷ n) w = refl
select_arm-Selects [] [] [] [] (x ∷ w) = refl
select_arm-Selects [] [] [] [] [] = refl

-- If nothing more arrives, the next rounds serve what waits in the order of the queues' priorities,
-- and in each queue from the oldest on: responses, state updates, events, subscriptions, and last
-- the messages of the client.
pub next_arms_lem : (n : ℕ) (q : Queues) → next_arms n q ≡ take n (by_priority q)
unfolding next_arms Selects
next_arms_lem zero q = refl
next_arms_lem (suc n) q =
    go (λ r. next_arms_lem n r) (select_arm q) refl
      (select_arm-Selects q.rpc_rx q.state_change_rx q.events_rx
        q.proxy_subscription_notification_rx q.ws_stream)
  where
    go :
        ((r : Queues) → next_arms n r ≡ take n (by_priority r))
        → (o : Option (Arm × Queues)) → select_arm q ≡ o
        → Selects q o
        → next_arms (suc n) q ≡ take (suc n) (by_priority q)
    go later none e h = rw (next_arms, e, h) refl
    go later (some (arm, rest)) e h = rw (next_arms, e, h, later rest) refl
