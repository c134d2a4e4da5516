-- ===== src/Prelude/Words.antt =====
-- Counters of a fixed width.
use Prim.Native.Nat.{ℕ, ◌+◌, ◌%◌, ◌^◌}

-- `n++` on a 64-bit integer, as its bit pattern.
abbrev pub inc64 : ℕ → ℕ
inc64 n = (n + 1) % 2 ^ 64
