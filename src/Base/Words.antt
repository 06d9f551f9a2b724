-- ===== src/Base/Words.antt =====
-- 32-bit machine words as native numbers, with their wrap-around.
use Prim.Native.Nat.{ℕ, ◌+◌, ◌-◌, ◌%◌, ◌^◌}
use tbs_kernel.Base.Tests.{ltb, if◌then◌else◌}
use tbs_kernel.Base.Int.{ℤ, pos, negsuc}

abbrev pub add32 : ℕ → ℕ → ℕ
add32 a b = (a + b) % 2 ^ 32

abbrev pub sub32 : ℕ → ℕ → ℕ
sub32 a b = (a + 2 ^ 32 - b) % 2 ^ 32

-- The `int8_t` that a byte stands for.
abbrev pub signed8 : ℕ → ℤ
signed8 b = if ltb b 128 then pos b else negsuc (255 - b)

-- The `int32_t` that a word stands for.
abbrev pub signed32 : ℕ → ℤ
signed32 w = if ltb w (2 ^ 31) then pos w else negsuc (2 ^ 32 - 1 - w)
