-- ===== src/Base/Word.antt =====
-- The fixed-width integers of the sources: casts and shifts over native numbers.
use Prim.Native.Nat.{ℕ, ◌*◌, ◌/◌, ◌%◌, ◌^◌}

abbrev pub u8 : ℕ → ℕ
u8 n = n % 2 ^ 8

abbrev pub u16 : ℕ → ℕ
u16 n = n % 2 ^ 16

abbrev pub u32 : ℕ → ℕ
u32 n = n % 2 ^ 32

infixl 75 ◌<<◌ ◌>>◌
abbrev pub ◌<<◌ : ℕ → ℕ → ℕ
x << k = x * 2 ^ k

abbrev pub ◌>>◌ : ℕ → ℕ → ℕ
x >> k = x / 2 ^ k

abbrev pub u64 : ℕ → ℕ
u64 n = n % 2 ^ 64
