-- ===== src/Mapped/Tests.antt =====
-- client/memory.cpp and client/remote_objects.cpp: the theorems at a device with one allocation.
use vulkan_remote.Base.{ℕ, ◌≡◌, refl, true, false, Option, some, List, [], ◌∷◌, arith}
use vulkan_remote.Base.Tests.{◌==◌, if◌then◌else◌}
use vulkan_remote.Base.Lists.{get_or, take, drop, All}
use vulkan_remote.Base.Maps.{find}
use vulkan_remote.Mapped.{
  MemoryAllocation, MappedRange, Device, RangeRequest, VkResult, success, Transfer, Downloaded,
  downloaded, chunk_of, flush_from, flush_range, resolve_allocation_range,
}
use vulkan_remote.Mapped.Chunks.{joined, Consecutive, flush_range_lem}
use vulkan_remote.Mapped.Ranges.{Flushable, validate_explicit_ranges-Flushable}
use vulkan_remote.Mapped.Memory.{map_memory, validate_explicit_ranges}
use vulkan_remote.Mapped.Acquire.{acquire}
use vulkan_remote.Mapped.Acquire.Merged.{acquire_lem}
use vulkan_remote.Mapped.Keeps.{WellMapped}
use vulkan_remote.Mapped.Owners.{maps, Step-WellMapped}

abbrev allocation : MemoryAllocation
allocation = record {
  size = 8;
  memory_type_index = 0;
  property_flags = 6;
  non_coherent_atom_size = 4;
  emulated_coherent = false;
}

abbrev range : MappedRange
range = record {
  memory_id = 3;
  offset = 2;
  size = 4;
  shadow = 10 ∷ 11 ∷ 12 ∷ 13 ∷ [];
  emulated_coherent = false;
  transfer_ready = true;
  baseline = [];
}

abbrev accepts : Transfer → VkResult
accepts t = success

flush_range_lem_example :
    ((v : VkResult) × ((flush_range accepts ((3, allocation) ∷ []) range 3 2).0 ≡ some v))
    × ((flush_range accepts ((3, allocation) ∷ []) range 3 2).0 ≡ some success
        → joined (flush_range accepts ((3, allocation) ∷ []) range 3 2).1
          ≡ take 2 (drop 1 range.shadow))
    × Consecutive 3 3 (flush_range accepts ((3, allocation) ∷ []) range 3 2).1
flush_range_lem_example = flush_range_lem accepts ((3, allocation) ∷ []) range 3 2 (omega arith)

-- Two bytes in one message.
flushed_bytes :
    (flush_range accepts ((3, allocation) ∷ []) range 3 2).1
    ≡ record { memory = 3; offset = 3; bytes = 11 ∷ 12 ∷ [] } ∷ []
unfolding flush_from chunk_of
flushed_bytes = refl

abbrev part : RangeRequest
part = record { memory = 3; offset = 4; size = 4 }

abbrev inside : RangeRequest
inside = record { memory = 3; offset = 3; size = 2 }

validate_explicit_ranges-Flushable_example : All (Flushable ((3, allocation) ∷ [])) (part ∷ [])
unfolding validate_explicit_ranges find resolve_allocation_range
validate_explicit_ranges-Flushable_example =
    validate_explicit_ranges-Flushable ((3, allocation) ∷ []) (part ∷ []) refl

abbrev device : Device
device = record { mapped = []; memories = (3, allocation) ∷ []; map_alignment = 64 }

abbrev zeros : ℕ → ℕ → ℕ → Downloaded
zeros memory offset size = downloaded []

Step-WellMapped_example :
    WellMapped (map_memory zeros (some (0 ∷ 0 ∷ 0 ∷ 0 ∷ [])) true device 3 2 4).1
Step-WellMapped_example =
    Step-WellMapped device (map_memory zeros (some (0 ∷ 0 ∷ 0 ∷ 0 ∷ [])) true device 3 2 4).1
      (record { fits = tt; once = tt }) (maps zeros (some (0 ∷ 0 ∷ 0 ∷ 0 ∷ [])) true 3 2 4)

-- The mapping that this makes.
mapped_part : (map_memory zeros (some (0 ∷ 0 ∷ 0 ∷ 0 ∷ [])) true device 3 2 4).0 ≡ success
unfolding map_memory find resolve_allocation_range
mapped_part = refl

-- The host wrote the second byte.
abbrev written : MappedRange
written = record {
  memory_id = 3;
  offset = 1;
  size = 2;
  shadow = 5 ∷ 60 ∷ [];
  emulated_coherent = true;
  transfer_ready = true;
  baseline = 5 ∷ 6 ∷ [];
}

abbrev device_memory : List ℕ
device_memory = 0 ∷ 7 ∷ 8 ∷ []

abbrev reads : ℕ → ℕ → Option (List ℕ)
reads o n = some (take n (drop o device_memory))

acquire_lem_example :
    ((acquire reads written).0 ≡ some true)
    × (get_or (acquire reads written).1.shadow 1 0 ≡ (
        if get_or written.shadow 1 0 == get_or written.baseline 1 0
        then get_or (drop 1 device_memory) 1 0
        else get_or written.shadow 1 0))
    × (get_or (acquire reads written).1.baseline 1 0 ≡ get_or (drop 1 device_memory) 1 0)
acquire_lem_example =
    acquire_lem device_memory reads written 1 (λ o n h. refl) (refl, refl) (omega arith)
      (refl, refl) (omega arith)
