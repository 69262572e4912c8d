-- ===== src/Base/Word.antt =====
-- Machine integers as native numbers, with their wrap-around written out.
use Prim.Native.Nat.{ℕ, ◌%◌, ◌^◌, ◌<◌}

abbrev pub u8 : ℕ → ℕ
u8 n = n % 2 ^ 8

abbrev pub u16 : ℕ → ℕ
u16 n = n % 2 ^ 16

abbrev pub u32 : ℕ → ℕ
u32 n = n % 2 ^ 32

abbrev pub u64 : ℕ → ℕ
u64 n = n % 2 ^ 64

abbrev pub IsU64 : ℕ → Type 0
IsU64 n = n < 2 ^ 64
