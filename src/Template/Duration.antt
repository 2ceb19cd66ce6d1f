-- ===== src/Template/Duration.antt =====
-- A duration that is written denotes the seconds that it was written for.
use easysub.Prelude.{ℕ, ◌*◌, ◌+◌, ◌-◌, ◌==◌, [], ◌∷◌, if◌then◌else◌}
use easysub.Text.{Str}

-- The seconds of a unit, by its letter.
unfoldable pub unit_seconds : ℕ → ℕ
unit_seconds c =
    if c == b'd' then 86400 else if c == b'h' then 3600 else if c == b'm' then 60 else 1

-- The digits of a number behind `n`, and the letter of a unit.
unfoldable pub read_duration : Str → ℕ → ℕ
unfolding unit_seconds
read_duration [] n = n
read_duration (c ∷ []) n = n * unit_seconds c
read_duration (c ∷ d ∷ s) n = read_duration (d ∷ s) (n * 10 + (c - b'0'))
