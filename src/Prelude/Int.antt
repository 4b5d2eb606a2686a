-- ===== src/Prelude/Int.antt =====
-- Signed integers over the native numbers, for durations: a time.Duration is a count of
-- nanoseconds that may be negative. `negsuc n` is -(n + 1).
use Prim.Native.Nat.{ℕ, zero, suc, ◌+◌}
use mathlib.Core.Bool.{Bool, true, false}
use statsd_bridge.Prelude.Tests.{ltb}

pub data ℤ : Type 0 where
  pos : ℕ → ℤ
  negsuc : ℕ → ℤ

-- d == 0
abbrev pub is_zero : ℤ → Bool
is_zero (pos zero) = true
is_zero (pos (suc n)) = false
is_zero (negsuc n) = false

-- d > 0
abbrev pub is_positive : ℤ → Bool
is_positive (pos zero) = false
is_positive (pos (suc n)) = true
is_positive (negsuc n) = false

-- t.Add(d).Before(now), for times that count from one origin
abbrev pub added_before : ℕ → ℤ → ℕ → Bool
added_before t (pos d) now = ltb (t + d) now
added_before t (negsuc d) now = ltb t (now + suc d)
