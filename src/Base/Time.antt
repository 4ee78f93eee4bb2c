-- ===== src/Base/Time.antt =====
-- Instants and durations are counted in microseconds, as Python's `datetime` does.
use Prim.Native.Nat.{ℕ, ◌*◌}

-- `timedelta(seconds=n)`.
abbrev pub seconds : ℕ → ℕ
seconds n = n * 1000000
