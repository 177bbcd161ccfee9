-- ===== src/Common/Words.antt =====
-- C integers as native numbers. An `int` is its 32-bit two's complement pattern, so `++`, `--`,
-- `==` and the conversion to `unsigned int` are those of the pattern.
use Prim.Native.Nat.{ℕ, ◌+◌, ◌-◌, ◌%◌, ◌^◌}

-- conversion to u32
abbrev pub u32 : ℕ → ℕ
u32 x = x % 2 ^ 32

abbrev pub inc32 : ℕ → ℕ
inc32 x = (x + 1) % 2 ^ 32

abbrev pub dec32 : ℕ → ℕ
dec32 x = (x + 2 ^ 32 - 1) % 2 ^ 32

-- a - b on `unsigned long`
abbrev pub sub64 : ℕ → ℕ → ℕ
sub64 a b = (a % 2 ^ 64 + 2 ^ 64 - b % 2 ^ 64) % 2 ^ 64
