-- ===== src/Mapped.antt =====
-- client/memory.cpp and the mapped ranges of client/remote_objects.cpp: host memory that stands for
-- mapped device memory. The host copy, the `shadow`, is a list of bytes; its address is the subject
-- of Mapped.Address. What the server answers to a request is an argument.
pub mod Chunks
pub mod Ranges
pub mod Memory
pub mod Keeps
pub mod Once
pub mod Acquire
pub mod Owners
pub mod Writes
pub mod Publish
mod Tests
use vulkan_remote.Base.{
  ℕ, zero, suc, ◌+◌, ◌-◌, ◌%◌, ◌^◌, min, Bool, true, false, not, ◌&&◌, ◌||◌, Option, none, some,
  List, [], ◌∷◌, ◌++◌,
}
use vulkan_remote.Base.Tests.{ltb, leb, ◌==◌, if◌then◌else◌}
use vulkan_remote.Base.Lists.{length, take, drop}
use vulkan_remote.Base.Maps.{find, insert, erase}

pub record MemoryAllocation : Type 0 where
  pub size : ℕ
  pub memory_type_index : ℕ
  pub property_flags : ℕ
  pub non_coherent_atom_size : ℕ
  pub emulated_coherent : Bool

pub record MappedRange : Type 0 where
  pub memory_id : ℕ
  pub offset : ℕ
  pub size : ℕ
  pub shadow : List ℕ
  pub emulated_coherent : Bool
  pub transfer_ready : Bool
  pub baseline : List ℕ

pub record Device : Type 0 where
  pub mapped : List MappedRange
  pub memories : List (ℕ × MemoryAllocation)
  pub map_alignment : ℕ

-- VkMappedMemoryRange.
pub record RangeRequest : Type 0 where
  pub memory : ℕ
  pub offset : ℕ
  pub size : ℕ

pub data VkResult : Type 0 where
  success device_lost memory_map_failed out_of_host_memory out_of_device_memory : VkResult
  vk_error : ℕ → VkResult

-- One message of bytes to or from the server.
pub record Transfer : Type 0 where
  pub memory : ℕ
  pub offset : ℕ
  pub bytes : List ℕ

-- VK_WHOLE_SIZE.
abbrev pub whole_size : ℕ
whole_size = 2 ^ 64 - 1

abbrev pub max_mapped_chunk : ℕ
max_mapped_chunk = 67108800

unfoldable pub find_mapped : ℕ → List MappedRange → Option MappedRange
find_mapped id [] = none
find_mapped id (m ∷ ms) = let rest = find_mapped id ms in if m.memory_id == id then some m else rest

-- The first mapping of the memory goes.
unfoldable pub erase_mapped : ℕ → List MappedRange → List MappedRange
erase_mapped id [] = []
erase_mapped id (m ∷ ms) =
    let rest = erase_mapped id ms in if m.memory_id == id then ms else m ∷ rest

-- `resolve_range` once the mapping is found: the size.
unfoldable pub resolve_in : RangeRequest → MappedRange → Option ℕ
resolve_in r m =
    let available = m.size - (r.offset - m.offset) in
    let resolved = if r.size == whole_size then available else r.size in
    if ltb r.offset m.offset || (ltb m.size (r.offset - m.offset) || ltb available resolved)
    then none
    else some resolved

unfoldable pub resolve_allocation_range : ℕ → ℕ → ℕ → Option ℕ
resolve_allocation_range allocation_size offset requested =
    let available = allocation_size - offset in
    if leb allocation_size offset
    then none
    else if requested == whole_size
    then some available
    else if requested == 0 || ltb available requested
    then none
    else some requested

-- The size of the next message, where `left` bytes are left.
abbrev pub round_chunk : ℕ → Option MemoryAllocation → Option ℕ
round_chunk chunk none = none
round_chunk chunk (some a) =
    let whole = chunk - chunk % a.non_coherent_atom_size in if whole == 0 then none else some whole

unfoldable pub chunk_of : List (ℕ × MemoryAllocation) → ℕ → ℕ → Option ℕ
unfolding find
chunk_of memories memory_id left =
    let chunk = min max_mapped_chunk left in
    if ltb chunk left then round_chunk chunk (find memory_id memories) else some chunk

abbrev pub is_success : VkResult → Bool
is_success success = true
is_success _ = false

-- One round of `flush_mapped`: `rest` is the loop from a later `done` on.
abbrev pub send_chunk :
    (Transfer → VkResult)
    → MappedRange
    → ℕ
    → ℕ
    → (ℕ → Option VkResult × List Transfer)
    → Option ℕ
    → Option VkResult × List Transfer
send_chunk answer m offset done rest none = (some device_lost, [])
send_chunk answer m offset done rest (some chunk) =
    let t : Transfer = record {
      memory = m.memory_id;
      offset = offset + done;
      bytes = take chunk (drop (offset - m.offset + done) m.shadow);
    } in
    let (result, ts) = rest (done + chunk) in
    if is_success (answer t) then (result, t ∷ ts) else (some (answer t), t ∷ [])

-- The loop of `flush_mapped` over one range, at most `rounds` rounds from `done` on, and the
-- transfers that it makes. `none` if more rounds are needed.
unfoldable pub flush_from :
    (Transfer → VkResult)
    → ℕ
    → List (ℕ × MemoryAllocation)
    → MappedRange
    → ℕ
    → ℕ
    → ℕ
    → Option VkResult × List Transfer
unfolding chunk_of
flush_from answer zero memories m offset size done = (none, [])
flush_from answer (suc rounds) memories m offset size done =
    let sent =
      send_chunk answer m offset done (λ d. flush_from answer rounds memories m offset size d)
        (chunk_of memories m.memory_id (size - done)) in
    if ltb done size then sent else (some success, [])

-- `flush_mapped` for one range, once it is resolved.
abbrev pub flush_range :
    (Transfer → VkResult)
    → List (ℕ × MemoryAllocation)
    → MappedRange
    → ℕ
    → ℕ
    → Option VkResult × List Transfer
flush_range answer memories m offset size = flush_from answer (suc size) memories m offset size 0

-- What a download is answered with.
pub data Downloaded : Type 0 where
  refused : VkResult → Downloaded
  downloaded : List ℕ → Downloaded

-- `memcpy(p + position, bytes)`.
unfoldable pub write_at : ℕ → List ℕ → List ℕ → List ℕ
write_at position bytes xs = take position xs ++ (bytes ++ drop (position + length bytes) xs)

abbrev pub store_bytes : MappedRange → ℕ → List ℕ → MappedRange
store_bytes m position bytes = record m {
  shadow = write_at position bytes m.shadow;
  baseline =
      (if m.emulated_coherent && length m.baseline == m.size
        then write_at position bytes m.baseline
        else m.baseline);
}

-- A reply with another number of bytes than was asked for is refused.
abbrev pub take_download :
    MappedRange
    → ℕ
    → ℕ
    → (MappedRange → ℕ → Option VkResult × MappedRange)
    → ℕ
    → Downloaded
    → Option VkResult × MappedRange
take_download m position done rest chunk (refused result) = (some result, m)
take_download m position done rest chunk (downloaded bytes) =
    let next = rest (store_bytes m position bytes) (done + chunk) in
    if length bytes == chunk then next else (some device_lost, m)

abbrev pub receive_chunk :
    (ℕ → ℕ → ℕ → Downloaded)
    → MappedRange
    → ℕ
    → ℕ
    → (MappedRange → ℕ → Option VkResult × MappedRange)
    → Option ℕ
    → Option VkResult × MappedRange
receive_chunk answer m offset done rest none = (some device_lost, m)
receive_chunk answer m offset done rest (some chunk) =
    take_download m (offset - m.offset + done) done rest chunk
      (answer m.memory_id (offset + done) chunk)

-- The loop of `download_mapped` over one range.
unfoldable pub download_from :
    (ℕ → ℕ → ℕ → Downloaded)
    → ℕ
    → List (ℕ × MemoryAllocation)
    → ℕ
    → ℕ
    → MappedRange
    → ℕ
    → Option VkResult × MappedRange
unfolding chunk_of write_at
download_from answer zero memories offset size m done = (none, m)
download_from answer (suc rounds) memories offset size m done =
    let received =
      receive_chunk answer m offset done
        (λ n d. download_from answer rounds memories offset size n d)
        (chunk_of memories m.memory_id (size - done)) in
    if ltb done size then received else (some success, m)

abbrev pub download_range :
    (ℕ → ℕ → ℕ → Downloaded)
    → List (ℕ × MemoryAllocation)
    → ℕ
    → ℕ
    → MappedRange
    → Option VkResult × MappedRange
download_range answer memories offset size m =
    download_from answer (suc size) memories offset size m 0
