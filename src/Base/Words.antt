-- ===== src/Base/Words.antt =====
-- Signed 32-bit integers and their two's complement bit patterns.
use Prim.Native.Nat.{ℕ, ◌-◌, ◌%◌, ◌^◌, ◌<◌}
use mathlib.Core.Path.{◌≡◌}
use native.Mathlib.Omega.{arith}
use mathlib.Core.Logic.{inl, inr}
use vulkan_remote.Base.Tests.{ltb, if◌then◌else◌, Bool-cases, tests}

-- `negsuc n` is -(n + 1).
pub data ℤ : Type 0 where
  pos : ℕ → ℤ
  negsuc : ℕ → ℤ

-- `static_cast<uint32_t>` of an `int32_t`, and back.
unfoldable pub to_u32 : ℤ → ℕ
to_u32 (pos n) = n % 2 ^ 32
to_u32 (negsuc n) = 2 ^ 32 - 1 - n % 2 ^ 32

unfoldable pub of_u32 : ℕ → ℤ
of_u32 v = if ltb v (2 ^ 31) then pos v else negsuc (2 ^ 32 - 1 - v)

abbrev pub IsI32 : ℤ → Type 0
IsI32 (pos n) = n < 2 ^ 31
IsI32 (negsuc n) = n < 2 ^ 31

pub to_u32-lt : (z : ℤ) → to_u32 z < 2 ^ 32
unfolding to_u32
to_u32-lt (pos n) = omega arith
to_u32-lt (negsuc n) = omega arith

pub of_u32-to_u32 : (z : ℤ) → IsI32 z → of_u32 (to_u32 z) ≡ z
unfolding of_u32 to_u32
of_u32-to_u32 (pos n) h = ground arith
of_u32-to_u32 (negsuc n) h = ground arith

of_u32-IsI32 : (v : ℕ) → v < 2 ^ 32 → IsI32 (of_u32 v)
unfolding of_u32
of_u32-IsI32 v h = elim (Bool-cases (ltb v (2 ^ 31))) [
  | inl lo ↦ rw lo (omega (tests))
  | inr hi ↦ rw hi (omega (tests))
]

to_u32-of_u32 : (v : ℕ) → v < 2 ^ 32 → to_u32 (of_u32 v) ≡ v
unfolding to_u32 of_u32
to_u32-of_u32 v h = ground arith
