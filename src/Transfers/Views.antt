-- ===== src/Transfers/Views.antt =====
-- server/handlers_memory.cpp: what the uploads rely on of the driver. The host sees the bytes of a
-- memory through the mapped pointer, the device sees its own; a flush and an invalidation of a valid
-- range carry the bytes of the range across.
use vulkan_remote.Base.{ℕ, ◌+◌, ◌≤◌, ◌≡◌, true, false, List}
use vulkan_remote.Base.Lists.{length}
use vulkan_remote.Objects.Teardown.{ServerMemory}
use vulkan_remote.Mapped.{write_at}
use vulkan_remote.Mapped.Writes.{slice}
use vulkan_remote.Transfers.{NativeRange, Driver, is_coherent, is_zero}
use vulkan_remote.Transfers.Alignment.{actual_size, IsValidRange}

-- The bytes that the host and the device see, and what the calls do to them.
pub record Views {S : Type 0} (driver : Driver S) (m : ServerMemory) : Type 0 where
  pub host : S → List ℕ
  pub device : S → List ℕ
  pub length_host : (s : S) → length (host s) ≡ m.size
  pub length_device : (s : S) → length (device s) ≡ m.size
  pub coherent : (s : S) → is_coherent m ≡ true → device s ≡ host s
  pub stores :
      (s : S) (position : ℕ) (bytes : List ℕ)
      → position + length bytes ≤ m.size
      → host (driver.store s m position bytes) ≡ write_at position bytes (host s)
  pub store_keeps :
      (s : S) (position : ℕ) (bytes : List ℕ)
      → is_coherent m ≡ false
      → device (driver.store s m position bytes) ≡ device s
  pub loads :
      (s : S) (position size : ℕ) → driver.load s m position size ≡ slice position size (host s)
  pub flushes :
      (s : S) (r : NativeRange)
      → IsValidRange m r
      → is_zero (driver.flush_ranges s m r).0 ≡ true
      → (host (driver.flush_ranges s m r).1 ≡ host s)
        × (device (driver.flush_ranges s m r).1
            ≡ write_at r.offset (slice r.offset (actual_size m r) (host s)) (device s))
  pub invalidates :
      (s : S) (r : NativeRange)
      → IsValidRange m r
      → is_zero (driver.invalidate_ranges s m r).0 ≡ true
      → (device (driver.invalidate_ranges s m r).1 ≡ device s)
        × (host (driver.invalidate_ranges s m r).1
            ≡ write_at r.offset (slice r.offset (actual_size m r) (device s)) (host s))
