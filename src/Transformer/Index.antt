-- ===== src/Transformer/Index.antt =====
-- The index that `setup` stores: `get<int>()` of an unsigned number, assigned to an `unsigned long`.
use mqttraffic_warden.Common.{
  ℕ, ◌+◌, ◌-◌, ◌%◌, ◌^◌, ◌<◌, ◌≡◌, ltb, if◌then◌else◌, pos, to_signed, arith,
}
use mqttraffic_warden.Transformer.{to_unsigned_long}

-- The low 32 bits, with the sign bit extended to 64 bits.
abbrev pub stored_index : ℕ → ℕ
stored_index n = if ltb (n % 2 ^ 32) (2 ^ 31) then n % 2 ^ 32 else n % 2 ^ 32 + (2 ^ 64 - 2 ^ 32)

pub to_unsigned_long-to_signed : (n : ℕ) → to_unsigned_long (to_signed 32 (pos n)) ≡ stored_index n
to_unsigned_long-to_signed n = ground arith

-- An index below 2^31 is stored as it is.
pub stored_index_small : (n : ℕ) → n < 2 ^ 31 → stored_index n ≡ n
stored_index_small n h = ground arith
