-- ===== src/Server/Switch/Holdings.antt =====
-- The subscriptions of one connection among the subscribers of a topic.
use hardlight.Prelude.{
  suc, ◌≡◌, ◌≢◌, refl, sym, ◌∙◌, ap, false, some, inl, inr, [], ◌∷◌, arith, ◌==◌, nat_beq,
  nat_beq_iff, lookup, contains_key, IsUnique, lookup-contains_key, Bool-cases, list_eq, nat_eq,
  list_beq_iff, beq_refl,
}
use hardlight.Channels.{Sender, SubscriptionId}
use hardlight.Server.Switch.{Subscribers}
use hardlight.Server.Switch.Delivery.{holdings}

module _ (tx : Sender) where
  -- What the rest of a map holds, the map holds.
  lookup_of_tail :
      (id j : SubscriptionId) (rx : Sender) (m : Subscribers)
      → contains_key id m ≡ false
      → lookup j m ≡ some tx
      → lookup j ((id, rx) ∷ m) ≡ some tx
  unfolding lookup
  lookup_of_tail id j rx m fresh h = elim (Bool-cases (id == j)) [
    | inl hit ↦
        let same : id ≡ j = (list_beq_iff id j).0 hit in
        absurd (ground (arith, h, rw same at (lookup-contains_key id m fresh)))
    | inr miss ↦ rw miss h
  ]

  lookup_head :
      (id : SubscriptionId) (rx : Sender) (m : Subscribers) → lookup id ((id, rx) ∷ m) ≡ some rx
  unfolding lookup
  lookup_head id rx m = rw (beq_refl id) refl

  lookup_in_tail :
      (id j : SubscriptionId) (rx : Sender) (m : Subscribers)
      → nat_beq rx tx ≡ false
      → lookup j ((id, rx) ∷ m) ≡ some tx
      → lookup j m ≡ some tx
  unfolding lookup
  lookup_in_tail id j rx m other h = elim (Bool-cases (id == j)) [
    | inl hit ↦ absurd (ground (arith, h, hit, other))
    | inr miss ↦ rw miss at h
  ]

  pub holdings_none :
      (m : Subscribers)
      → IsUnique m
      → ((j : SubscriptionId) → lookup j m ≢ some tx)
      → holdings tx m ≡ 0
  unfolding holdings
  holdings_none [] u absent = refl
  holdings_none ((id, rx) ∷ m) u absent = elim (Bool-cases (nat_beq rx tx)) [
    | inl hit ↦ absurd (absent id (lookup_head id rx m ∙ ap some ((nat_beq_iff rx tx).0 hit)))
    | inr miss ↦ rw miss (holdings_none m u.1 (λ j h. absent j (lookup_of_tail id j rx m u.0 h)))
  ]

  pub holdings_one :
      (m : Subscribers) (i : SubscriptionId)
      → IsUnique m
      → lookup i m ≡ some tx
      → ((j : SubscriptionId) → lookup j m ≡ some tx → i ≡ j)
      → holdings tx m ≡ 1
  unfolding holdings
  holdings_one [] i u h only = absurd (unfold lookup in ground (arith, h))
  holdings_one ((id, rx) ∷ m) i u h only = elim (Bool-cases (nat_beq rx tx)) [
    | inl hit ↦
        let owner : i ≡ id = only id (lookup_head id rx m ∙ ap some ((nat_beq_iff rx tx).0 hit)) in
        rw hit (
          ap suc (
            holdings_none m u.1 (λ j e.
              let other : i ≡ j = only j (lookup_of_tail id j rx m u.0 e) in
              absurd (
                ground (
                  arith,
                  e,
                  other,
                  owner,
                  rw (sym owner ∙ other) at (lookup-contains_key id m u.0),
                )))))
    | inr miss ↦ rw miss (
        holdings_one m i u.1 (lookup_in_tail id i rx m miss h)
          (λ j e. only j (lookup_of_tail id j rx m u.0 e)))
  ]
