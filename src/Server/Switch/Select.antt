-- ===== src/Server/Switch/Select.antt =====
-- The order in which the `select!` of the switch's loop, which is `biased`, serves its two receivers.
use hardlight.Prelude.{ℕ, zero, suc, ◌≡◌, refl, Option, none, some, List, [], ◌∷◌, ◌++◌, map, take}
use hardlight.Wire.{Event}
use hardlight.Channels.{SubscriptionNotification}
use hardlight.Server.Switch.{Input, event, notification, Inbox, select_input}

-- The inputs of the next turns, if nothing more arrives.
unfoldable pub next_inputs : ℕ → Inbox → List Input
next_inputs zero inbox = []
next_inputs (suc n) inbox = elim (select_input inbox) [
  | none ↦ []
  | some (input, rest) ↦ input ∷ next_inputs n rest
]

-- All that waits, the events first.
unfoldable pub by_priority : Inbox → List Input
by_priority inbox =
    map event inbox.new_event_rx ++ map notification inbox.subscription_notification_rx

Selects : Inbox → Option (Input × Inbox) → Type 0
Selects inbox none = by_priority inbox ≡ []
Selects inbox (some (input, rest)) = by_priority inbox ≡ input ∷ by_priority rest

select_input-Selects :
    (e : List Event) (n : List SubscriptionNotification)
    → let inbox : Inbox = record { new_event_rx = e; subscription_notification_rx = n } in
      Selects inbox (select_input inbox)
unfolding Selects select_input by_priority
select_input-Selects (x ∷ e) n = refl
select_input-Selects [] (x ∷ n) = refl
select_input-Selects [] [] = refl

-- If nothing more arrives, the switch routes every event that waits before it learns of any
-- subscription that waits, each from the oldest on.
pub next_inputs_lem : (n : ℕ) (inbox : Inbox) → next_inputs n inbox ≡ take n (by_priority inbox)
unfolding next_inputs Selects
next_inputs_lem zero inbox = refl
next_inputs_lem (suc n) inbox =
    go (λ r. next_inputs_lem n r) (select_input inbox) refl
      (select_input-Selects inbox.new_event_rx inbox.subscription_notification_rx)
  where
    go :
        ((r : Inbox) → next_inputs n r ≡ take n (by_priority r))
        → (o : Option (Input × Inbox)) → select_input inbox ≡ o
        → Selects inbox o
        → next_inputs (suc n) inbox ≡ take (suc n) (by_priority inbox)
    go later none e h = rw (next_inputs, e, h) refl
    go later (some (input, rest)) e h = rw (next_inputs, e, h, later rest) refl
