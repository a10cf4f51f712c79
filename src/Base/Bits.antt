-- ===== src/Base/Bits.antt =====
-- Flag words: numbers read by binary digits, and the C idioms on them.
use Prim.Native.Nat.{ℕ, zero, suc, ◌+◌, ◌-◌, ◌/◌, ◌%◌, ◌^◌, bit_and, bit_or}
use mathlib.Core.Bool.{Bool, not}
use spacemit_xenomai.Base.Tests.{◌==◌}

-- Digit `k` of `x`, 0 or 1.
abbrev pub bit : ℕ → ℕ → ℕ
bit x zero = x % 2
bit x (suc k) = bit (x / 2) k

-- `(x & m) != 0`
abbrev pub test_flags : ℕ → ℕ → Bool
test_flags x m = not (bit_and x m == 0)

-- `x |= m`
abbrev pub set_flags : ℕ → ℕ → ℕ
set_flags x m = bit_or x m

-- `x &= ~m` on a word of `w` bits
abbrev pub clear_flags : ℕ → ℕ → ℕ → ℕ
clear_flags w x m = bit_and x (2 ^ w - 1 - m)

-- `int`, `__u32` and `unsigned long` values are bit patterns.
abbrev pub u32 : ℕ → ℕ
u32 n = n % 2 ^ 32

abbrev pub u64 : ℕ → ℕ
u64 n = n % 2 ^ 64

-- The order of two's complement: adding half the modulus makes it the order of the patterns.
abbrev pub signed32 : ℕ → ℕ
signed32 n = (n + 2 ^ 31) % 2 ^ 32

abbrev pub signed64 : ℕ → ℕ
signed64 n = (n + 2 ^ 63) % 2 ^ 64

-- `-n` as an `int`, for 0 < n; the kernel returns its error codes this way.
abbrev pub neg32 : ℕ → ℕ
neg32 n = (2 ^ 32 - n) % 2 ^ 32
