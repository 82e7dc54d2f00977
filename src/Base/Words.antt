-- ===== src/Base/Words.antt =====
-- Machine words as native numbers: the wrap is written out, shifts and masks are `/` and `%`.
use Prim.Native.Nat.{ℕ, ◌+◌, ◌-◌, ◌/◌, ◌%◌, ◌^◌}
use mathlib.Core.Bool.{Bool}
use zynq_lwip_frtos.Base.Tests.{◌==◌}

-- x & (1 << k), read as a truth value.
abbrev pub bit : ℕ → ℕ → Bool
bit x k = x / 2 ^ k % 2 == 1

-- size_t and uint32_t have 32 bits on the Cortex-A9.
abbrev pub wrap32 : ℕ → ℕ
wrap32 n = n % 2 ^ 32

-- a - b in 32 bits.
abbrev pub sub32 : ℕ → ℕ → ℕ
sub32 a b = (a + 2 ^ 32 - b) % 2 ^ 32

abbrev pub wrap16 : ℕ → ℕ
wrap16 n = n % 2 ^ 16

abbrev pub wrap8 : ℕ → ℕ
wrap8 n = n % 2 ^ 8
