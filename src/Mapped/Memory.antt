-- ===== src/Mapped/Memory.antt =====
-- client/memory.cpp: allocating, freeing, mapping and unmapping device memory. Pointers that a caller
-- has to pass are there. Arguments stand for what the server answers and for malloc: the address of a
-- block, if there is one, the bytes that it holds, and whether the second vector could be sized.
use vulkan_remote.Base.{
  ℕ, ◌+◌, ◌-◌, ◌%◌, ◌^◌, Bool, true, false, not, ◌&&◌, ◌||◌, Option, none, some, List, [], ◌∷◌,
  ◌++◌,
}
use Prim.Native.Nat.{bit_and}
use vulkan_remote.Base.Tests.{ltb, ◌==◌, if◌then◌else◌}
use vulkan_remote.Base.Lists.{replicate}
use vulkan_remote.Base.Maps.{find, insert, erase}
use vulkan_remote.Mapped.{
  MemoryAllocation, MappedRange, Device, RangeRequest, VkResult, success, device_lost,
  memory_map_failed, out_of_host_memory, out_of_device_memory, Transfer, Downloaded, find_mapped,
  erase_mapped, resolve_in, resolve_allocation_range, is_success, flush_range, flush_from,
  download_range, download_from,
}

-- `public_memory_property_flags`: bits 6 and 7 are hidden, and bit 2, HOST_COHERENT, unless the server
-- has the capability.
unfoldable pub public_memory_property_flags : ℕ → ℕ → ℕ
public_memory_property_flags flags capabilities =
    bit_and flags (2 ^ 32 - 1 - (if bit_and capabilities 1 == 0 then 196 else 192))

-- The fields of the reply to vkAllocateMemory, if all of them could be read.
pub record AllocateReply : Type 0 where
  pub result : VkResult
  pub id : ℕ
  pub flags : ℕ
  pub alignment : ℕ
  pub atom_size : ℕ

abbrev pub allocation_of : ℕ → ℕ → ℕ → AllocateReply → MemoryAllocation
allocation_of size type_index capabilities r =
    let flags = public_memory_property_flags r.flags capabilities in
    record {
      size = size;
      memory_type_index = type_index;
      property_flags = flags;
      non_coherent_atom_size = r.atom_size;
      emulated_coherent = not (bit_and flags 4 == 0);
    }

abbrev pub allocated : Device → ℕ → ℕ → ℕ → AllocateReply → Device
allocated d size type_index capabilities r = record d {
  memories = insert r.id (allocation_of size type_index capabilities r) d.memories;
  map_alignment = (if r.alignment == 0 then d.map_alignment else r.alignment);
}

unfoldable pub allocate_memory : Device → ℕ → ℕ → ℕ → Option AllocateReply → VkResult × Device
unfolding insert public_memory_property_flags
allocate_memory d size type_index capabilities none = (out_of_device_memory, d)
allocate_memory d size type_index capabilities (some r) =
    if r.atom_size == 0
    then (out_of_device_memory, d)
    else if is_success r.result
    then (r.result, allocated d size type_index capabilities r)
    else (r.result, d)

abbrev pub freed : Device → ℕ → Device
freed d memory = record d {
  mapped = erase_mapped memory d.mapped;
  memories = erase memory d.memories;
}

unfoldable pub free_memory : Device → ℕ → Device
unfolding erase erase_mapped
free_memory d memory = if memory == 0 then d else freed d memory

-- The first mapping of the memory, replaced.
unfoldable pub update_mapped : ℕ → MappedRange → List MappedRange → List MappedRange
update_mapped id n [] = []
update_mapped id n (m ∷ ms) =
    let rest = update_mapped id n ms in if m.memory_id == id then n ∷ ms else m ∷ rest

-- `none` stands for a loop that ran out of rounds; it has a round more than there are bytes.
abbrev pub or_lost : Option VkResult → VkResult
or_lost none = device_lost
or_lost (some v) = v

abbrev pub download_resolved :
    (ℕ → ℕ → ℕ → Downloaded) → Device → RangeRequest → MappedRange → Option ℕ → VkResult × Device
download_resolved answer d r m none = (device_lost, d)
download_resolved answer d r m (some size) =
    let (result, n) = download_range answer d.memories r.offset size m in
    (or_lost result, record d { mapped = update_mapped r.memory n d.mapped })

abbrev pub download_found :
    (ℕ → ℕ → ℕ → Downloaded) → Device → RangeRequest → Option MappedRange → VkResult × Device
download_found answer d r none = (device_lost, d)
download_found answer d r (some m) = download_resolved answer d r m (resolve_in r m)

-- `download_mapped` for one range.
unfoldable pub download_mapped :
    (ℕ → ℕ → ℕ → Downloaded) → Device → RangeRequest → VkResult × Device
unfolding find_mapped resolve_in download_from update_mapped
download_mapped answer d r = download_found answer d r (find_mapped r.memory d.mapped)

abbrev pub flush_resolved :
    (Transfer → VkResult)
    → Device
    → RangeRequest
    → MappedRange
    → Option ℕ
    → VkResult × List Transfer
flush_resolved answer d r m none = (device_lost, [])
flush_resolved answer d r m (some size) =
    let (result, ts) = flush_range answer d.memories m r.offset size in (or_lost result, ts)

abbrev pub flush_found :
    (Transfer → VkResult) → Device → RangeRequest → Option MappedRange → VkResult × List Transfer
flush_found answer d r none = (device_lost, [])
flush_found answer d r (some m) = flush_resolved answer d r m (resolve_in r m)

-- `flush_mapped` over all ranges: it stops at the first that fails.
unfoldable pub flush_mapped :
    (Transfer → VkResult) → Device → List RangeRequest → VkResult × List Transfer
unfolding find_mapped resolve_in flush_from
flush_mapped answer d [] = (success, [])
flush_mapped answer d (r ∷ rs) =
    let (result, ts) = flush_found answer d r (find_mapped r.memory d.mapped) in
    let (later, us) = flush_mapped answer d rs in
    if is_success result then (later, ts ++ us) else (result, ts)

-- Whether the range, once it is resolved to a size, can be flushed.
abbrev pub is_aligned_in : RangeRequest → MemoryAllocation → Option ℕ → Bool
is_aligned_in r a none = false
is_aligned_in r a (some size) =
    let atom = a.non_coherent_atom_size in
    a.emulated_coherent
    || ((not (atom == 0) && r.offset % atom == 0)
        && (r.offset + size == a.size || size % atom == 0))

abbrev pub is_valid_in : RangeRequest → Option MemoryAllocation → Bool
is_valid_in r none = false
is_valid_in r (some a) = is_aligned_in r a (resolve_allocation_range a.size r.offset r.size)

unfoldable pub validate_explicit_ranges : List (ℕ × MemoryAllocation) → List RangeRequest → Bool
unfolding find resolve_allocation_range
validate_explicit_ranges memories [] = true
validate_explicit_ranges memories (r ∷ rs) =
    let rest = validate_explicit_ranges memories rs in
    if is_valid_in r (find r.memory memories) then rest else false

-- The checks of `MapMemory`: the size and whether the memory is coherent.
abbrev pub mappable_in : MemoryAllocation → Option ℕ → Option MappedRange → Option (ℕ × Bool)
mappable_in a none m = none
mappable_in a (some real_size) none =
    if bit_and a.property_flags 2 == 0 then none else some (real_size, a.emulated_coherent)
mappable_in a (some real_size) (some m) = none

abbrev pub mappable : Device → ℕ → ℕ → ℕ → Option MemoryAllocation → Option (ℕ × Bool)
mappable d memory offset size none = none
mappable d memory offset size (some a) =
    mappable_in a (resolve_allocation_range a.size offset size) (find_mapped memory d.mapped)

-- `alignof(void*)` is 8.
abbrev pub shadow_alignment : Device → ℕ
shadow_alignment d = if ltb 8 d.map_alignment then d.map_alignment else 8

abbrev pub new_range : ℕ → ℕ → ℕ → List ℕ → Bool → MappedRange
new_range memory offset size fresh emulated = record {
  memory_id = memory;
  offset = offset;
  size = size;
  shadow = fresh;
  emulated_coherent = emulated;
  transfer_ready = not emulated;
  baseline = (if emulated then replicate size 0 else []);
}

-- The first mapping of the memory becomes ready, with the shadow as its baseline.
unfoldable pub make_ready : ℕ → List MappedRange → List MappedRange
make_ready id [] = []
make_ready id (m ∷ ms) =
    let rest = make_ready id ms in
    if m.memory_id == id
    then record m { baseline = m.shadow; transfer_ready = true } ∷ ms
    else m ∷ rest

abbrev pub after_download : ℕ → VkResult × Device → VkResult × Device
after_download memory (result, d) =
    if is_success result
    then (success, record d { mapped = make_ready memory d.mapped })
    else (memory_map_failed, record d { mapped = erase_mapped memory d.mapped })

-- `MapMemory` behind the checks; `block` are the bytes of the new block, `none` if malloc fails, and
-- `sized` says whether the baseline could be allocated.
abbrev pub map_checked :
    (ℕ → ℕ → ℕ → Downloaded)
    → Option (List ℕ)
    → Bool
    → Device
    → ℕ
    → ℕ
    → Option (ℕ × Bool)
    → VkResult × Device
map_checked answer block sized d memory offset none = (memory_map_failed, d)
map_checked answer none sized d memory offset (some (real_size, emulated)) = (out_of_host_memory, d)
map_checked answer (some fresh) sized d memory offset (some (real_size, emulated)) =
    let d' : Device = record d {
      mapped = d.mapped ++ (new_range memory offset real_size fresh emulated ∷ []);
    } in
    let request : RangeRequest = record { memory = memory; offset = offset; size = real_size } in
    if ltb (2 ^ 64 - 1 - (shadow_alignment d - 1)) real_size
    then (out_of_host_memory, d)
    else if not emulated
    then (success, d')
    else if not sized
    then (out_of_host_memory, d)
    else after_download memory (download_mapped answer d' request)

unfoldable pub map_memory :
    (ℕ → ℕ → ℕ → Downloaded) → Option (List ℕ) → Bool → Device → ℕ → ℕ → ℕ → VkResult × Device
unfolding resolve_allocation_range find_mapped find download_mapped make_ready erase_mapped
map_memory answer block sized d memory offset size =
    if memory == 0
    then (memory_map_failed, d)
    else map_checked answer block sized d memory offset
        (mappable d memory offset size (find memory d.memories))

-- The range that is written back: the first coherent mapping of the memory.
unfoldable pub coherent_range : ℕ → List MappedRange → List RangeRequest
coherent_range memory [] = []
coherent_range memory (m ∷ ms) =
    let rest = coherent_range memory ms in
    if m.memory_id == memory && m.emulated_coherent
    then (if memory == 0
        then []
        else record { memory = memory; offset = m.offset; size = m.size } ∷ [])
    else rest

-- The device, and the transfers of a coherent mapping.
unfoldable pub unmap_memory : (Transfer → VkResult) → Device → ℕ → Device × List Transfer
unfolding coherent_range erase_mapped flush_mapped
unmap_memory answer d memory = (
  record d { mapped = erase_mapped memory d.mapped },
  (flush_mapped answer d (coherent_range memory d.mapped)).1,
)
