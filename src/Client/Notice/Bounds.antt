-- ===== src/Client/Notice/Bounds.antt =====
-- The age that the notice of a queued write shows, against the age itself.
use phantom_skills.Prelude.{ℕ, ◌+◌, ◌*◌, ◌≤◌, ◌<◌, ◌⊎◌}
use phantom_skills.Client.Notice.{second}

-- `n` is an age of `d` in the unit, rounded down; it is less than 60, and is 0 only below a second.
abbrev pub Rounded : ℕ → ℕ → ℕ → Type 0
Rounded d n unit = (n * unit ≤ d) × (d < (n + 1) * unit) × (n < 60) × ((1 ≤ n) ⊎ (d < second))
