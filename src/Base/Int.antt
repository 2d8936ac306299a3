-- ===== src/Base/Int.antt =====
-- Signed integers over the native numbers: `i64`.
use agent2agent.Base.{ℕ, ◌-◌, ◌%◌, ◌^◌, ltb, if◌then◌else◌, nat_eq, text_eq}

-- `negsuc n` is -(n + 1).
pub data ℤ : Type 0 where
  pos : ℕ → ℤ
  negsuc : ℕ → ℤ

-- `n as i64` of a `u64`
unfoldable pub as_i64 : ℕ → ℤ
as_i64 n = let m = n % 2 ^ 64 in if ltb m (2 ^ 63) then pos m else negsuc (2 ^ 64 - 1 - m)
