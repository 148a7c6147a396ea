-- ===== src/Clock.antt =====
-- Time as the stores read it: an instant is a number of nanoseconds on the process's clock, and a
-- duration a signed number of them.
use solvela_go.Base.{ℕ, ℤ, Bool, sub_ℕ, ltb_ℤ}

abbrev pub Time : Type 0
Time = ℕ

-- `time.Since(t) > d`, read at `now`
unfoldable pub is_older : Time → Time → ℤ → Bool
is_older now t d = ltb_ℤ d (sub_ℕ now t)

-- `time.Since(t) < d`, read at `now`
unfoldable pub is_younger : Time → Time → ℤ → Bool
is_younger now t d = ltb_ℤ (sub_ℕ now t) d
