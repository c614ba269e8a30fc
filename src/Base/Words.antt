-- ===== src/Base/Words.antt =====
-- Unsigned machine words: a `w`-bit value is a number below `2 ^ w`, and arithmetic wraps.
use Prim.Native.Nat.{ℕ, ◌+◌, ◌-◌, ◌%◌, ◌^◌}

-- size_t and uint64_t
abbrev pub add64 : ℕ → ℕ → ℕ
add64 a b = (a + b) % 2 ^ 64

abbrev pub sub64 : ℕ → ℕ → ℕ
sub64 a b = (a + 2 ^ 64 - b % 2 ^ 64) % 2 ^ 64

-- static_cast<uint32_t>
abbrev pub to_u32 : ℕ → ℕ
to_u32 a = a % 2 ^ 32
