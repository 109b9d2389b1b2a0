-- ===== src/Tests/Topics.antt =====
-- A topic as it is logged.
use hardlight.Prelude.{◌≡◌, refl, false, [], ◌∷◌}
use hardlight.Decimal.{decimal}
use hardlight.Topic.Shown.{fmt}

-- `[12]`
twelve_shown : fmt (record { inner = 12 ∷ []; is_string = false }) ≡ b'[' ∷ b'1' ∷ b'2' ∷ b']' ∷ []
unfolding fmt decimal
twelve_shown = refl
