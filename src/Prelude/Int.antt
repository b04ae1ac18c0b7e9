-- ===== src/Prelude/Int.antt =====
-- Signed integers over the native numbers, and the C++ types `int` and `size_t`.
use Prim.Native.Nat.{ℕ, zero, suc, ◌+◌, ◌-◌, ◌%◌, ◌^◌}
use mathlib.Core.Bool.{Bool, true, false}
use rdma_comm_core.Prelude.Tests.{ltb, if◌then◌else◌}
use rdma_comm_core.Prelude.Faults.{Outcome, ok, fault, undefined}

-- `negsuc n` is -(n + 1).
pub data ℤ : Type 0 where
  pos : ℕ → ℤ
  negsuc : ℕ → ℤ

abbrev pub int_max : ℕ
int_max = 2 ^ 31 - 1

abbrev pub size_mod : ℕ
size_mod = 2 ^ 64

-- ++x on an `int`: overflow is undefined.
unfoldable pub incr_int : ℤ → Outcome ℤ
incr_int (negsuc zero) = ok (pos 0)
incr_int (negsuc (suc n)) = ok (negsuc n)
incr_int (pos n) = if ltb n int_max then ok (pos (n + 1)) else fault undefined

-- The conversion of an `int` to `size_t`, modulo 2^64.
unfoldable pub to_size : ℤ → ℕ
to_size (pos n) = n
to_size (negsuc n) = size_mod - 1 - n

-- The conversions of an `int` to uint8_t and to uint32_t.
abbrev pub to_u8 : ℤ → ℕ
to_u8 (pos n) = n % 2 ^ 8
to_u8 (negsuc n) = 2 ^ 8 - 1 - n % 2 ^ 8

abbrev pub to_u32 : ℤ → ℕ
to_u32 (pos n) = n % 2 ^ 32
to_u32 (negsuc n) = 2 ^ 32 - 1 - n % 2 ^ 32

-- x >= 0
abbrev pub is_nonneg : ℤ → Bool
is_nonneg (pos n) = true
is_nonneg (negsuc n) = false

-- ++ and -- on an int64_t: overflow is undefined.
unfoldable pub incr_int64 : ℤ → Outcome ℤ
incr_int64 (negsuc zero) = ok (pos 0)
incr_int64 (negsuc (suc n)) = ok (negsuc n)
incr_int64 (pos n) = if ltb n (2 ^ 63 - 1) then ok (pos (n + 1)) else fault undefined

unfoldable pub decr_int64 : ℤ → Outcome ℤ
decr_int64 (pos zero) = ok (negsuc 0)
decr_int64 (pos (suc n)) = ok (pos n)
decr_int64 (negsuc n) = if ltb n (2 ^ 63 - 1) then ok (negsuc (n + 1)) else fault undefined
