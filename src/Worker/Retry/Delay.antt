-- ===== src/Worker/Retry/Delay.antt =====
-- How the delay grows.
use ufo_observation_command.Base.{ℕ, zero, suc, ◌+◌, ◌≤◌, ℤ, pos, ◌≡◌, ◌⊎◌}

-- A number doubled some times.
abbrev pub doubled : ℕ → ℕ → ℕ
doubled zero d = d
doubled (suc n) d = doubled n (d + d)

-- The base doubled so many times, or the bound, when the doubled base comes within one of it.
abbrev pub Grows : ℕ → ℕ → ℕ → ℤ → Type 0
Grows n base max d =
    ((d ≡ pos (doubled n base)) × (doubled n base ≤ max))
    ⊎ ((d ≡ pos max) × (max ≤ doubled n base + 1))
