-- ===== src/Prelude/Words.antt =====
-- Counters of 32 bits.
use Prim.Native.Nat.{ℕ, ◌+◌, ◌-◌, ◌%◌, ◌^◌}

-- `++` and `--` of an `unsigned` of 32 bits.
abbrev pub inc : ℕ → ℕ
inc n = (n + 1) % 2 ^ 32

abbrev pub dec : ℕ → ℕ
dec n = (n + 2 ^ 32 - 1) % 2 ^ 32
