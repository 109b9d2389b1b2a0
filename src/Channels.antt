-- ===== src/Channels.antt =====
-- The messages of src/server.rs that travel between its tasks over tokio's channels. A sending half
-- is a number; whether its receiver still lives is a parameter of the code that sends.
use hardlight.Prelude.{ℕ, List}
use hardlight.Topic.{Topic}

abbrev pub Sender : Type 0
Sender = ℕ

-- `[u8; 16]`
abbrev pub SubscriptionId : Type 0
SubscriptionId = List ℕ

pub data SubscriptionNotification : Type 0 where
  subscribe : (topic : Topic) → (id : SubscriptionId) → (tx : Sender) → SubscriptionNotification
  unsubscribe : (topic : Topic) → (id : SubscriptionId) → SubscriptionNotification

pub data ProxiedSubscriptionNotification : Type 0 where
  subscribe unsubscribe : Topic → ProxiedSubscriptionNotification

pub data TopicNotification : Type 0 where
  created removed : Topic → TopicNotification
