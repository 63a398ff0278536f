-- ===== src/Prelude/Words.antt =====
-- uint32_t arithmetic: a value is a number below 2^32, and each operation keeps its wrap-around.
use Prim.Native.Nat.{ℕ, ◌+◌, ◌-◌, ◌%◌}

-- `std::numeric_limits<uint32_t>::max()`.
abbrev pub u32_max : ℕ
u32_max = 4294967295

abbrev pub u32 : ℕ → ℕ
u32 n = n % 4294967296

-- a - b on uint32_t.
abbrev pub sub32 : ℕ → ℕ → ℕ
sub32 a b = (a + 4294967296 - b) % 4294967296
