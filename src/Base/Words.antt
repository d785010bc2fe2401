-- ===== src/Base/Words.antt =====
-- Unsigned machine words as native numbers: `common/types.h` and the wrap-around of `uint64_t`.
use Prim.Native.Nat.{ℕ, ◌+◌, ◌-◌, ◌%◌, ◌<◌}

abbrev pub u64_mod : ℕ
u64_mod = 0x1_0000_0000_0000_0000

-- `Address` and `FileOffset`.
abbrev pub Address : Type 0
Address = ℕ

abbrev pub instruction_size : ℕ
instruction_size = 4

abbrev pub invalid_address : Address
invalid_address = 0xffff_ffff_ffff_ffff

abbrev pub IsU64 : ℕ → Type 0
IsU64 v = v < u64_mod

abbrev pub IsByte : ℕ → Type 0
IsByte b = b < 256

-- `a + b` and `a - b` of two `uint64_t`.
abbrev pub add64 : ℕ → ℕ → ℕ
add64 a b = (a + b) % u64_mod

abbrev pub sub64 : ℕ → ℕ → ℕ
sub64 a b = (a + u64_mod - b) % u64_mod
