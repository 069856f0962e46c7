-- ===== src/Base/Words.antt =====
-- Machine-width counters.
use Prim.Native.Nat.{ℕ, ◌+◌, ◌%◌, min}

abbrev pub u32_max : ℕ
u32_max = 4294967295

abbrev pub u64_max : ℕ
u64_max = 18446744073709551615

-- `u32::saturating_add`
abbrev pub saturating_add_u32 : ℕ → ℕ → ℕ
saturating_add_u32 a b = min (a + b) u32_max

-- `u64::saturating_add`
abbrev pub saturating_add_u64 : ℕ → ℕ → ℕ
saturating_add_u64 a b = min (a + b) u64_max

-- `+= 1` on a u64, which wraps in a release build
abbrev pub increment_u64 : ℕ → ℕ
increment_u64 a = (a + 1) % (u64_max + 1)

-- An i64; `negsuc n` is -(n + 1).
pub data ℤ : Type 0 where
  pos : ℕ → ℤ
  negsuc : ℕ → ℤ

-- `fetch_sub(1)` on a 64-bit counter, which wraps
abbrev pub decrement_u64 : ℕ → ℕ
decrement_u64 a = (a + u64_max) % (u64_max + 1)
