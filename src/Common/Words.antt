-- ===== src/Common/Words.antt =====
-- C's unsigned machine integers as native numbers: a conversion to w bits is `% 2 ^ w`, a shift
-- to the right is `/ 2 ^ k`, and a mask by 2 ^ k - 1 is `% 2 ^ k`.
use Prim.Native.Nat.{ℕ, ◌+◌, ◌*◌, ◌/◌, ◌%◌, ◌^◌}

abbrev pub u8 : ℕ → ℕ
u8 n = n % 256

abbrev pub u16 : ℕ → ℕ
u16 n = n % 65536

abbrev pub u32 : ℕ → ℕ
u32 n = n % 4294967296

-- x >> k
abbrev pub shr : ℕ → ℕ → ℕ
shr x k = x / 2 ^ k

-- x & (2 ^ k - 1)
abbrev pub low_bits : ℕ → ℕ → ℕ
low_bits x k = x % 2 ^ k

-- `(uint16_t) ((higher8Bits << 8) + lower8Bits)`
abbrev pub all_16_bits : ℕ → ℕ → ℕ
all_16_bits higher_8_bits lower_8_bits = u16 (higher_8_bits * 256 + lower_8_bits)
