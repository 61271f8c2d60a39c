-- ===== src/Prelude/Words.antt =====
-- Machine words: the arithmetic of uint64_t, uint32_t and size_t, wrap-around written out.
use Prim.Native.Nat.{ℕ, ◌+◌, ◌*◌, ◌%◌, ◌^◌}

abbrev pub u64 : ℕ
u64 = 2 ^ 64

abbrev pub u32 : ℕ
u32 = 2 ^ 32

abbrev pub add_u64 : ℕ → ℕ → ℕ
add_u64 a b = (a + b) % u64

abbrev pub mul_u64 : ℕ → ℕ → ℕ
mul_u64 a b = a * b % u64

abbrev pub mul_u32 : ℕ → ℕ → ℕ
mul_u32 a b = a * b % u32

abbrev pub add_u32 : ℕ → ℕ → ℕ
add_u32 a b = (a + b) % u32
