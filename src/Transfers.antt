-- ===== src/Transfers.antt =====
-- server/handlers_memory.cpp: the server's side of device memory. The Vulkan driver is an argument,
-- a `Driver` whose state has a type of its own. A handler of a request returns the bytes of its one
-- reply. The tables are those of server/objects.hpp.
pub mod Alignment
pub mod Requests
pub mod Views
pub mod Uploads
pub mod Written
pub mod Flushes
pub mod Downloads
pub mod Freeing
mod Tests
use vulkan_remote.Base.{
  ℕ, ◌+◌, ◌-◌, ◌^◌, ◌%◌, Bool, true, false, not, ◌&&◌, ◌||◌, Option, none, some, List, [], ◌∷◌,
}
use Prim.Native.Nat.{bit_and}
use vulkan_remote.Base.Tests.{ltb, ◌==◌, if◌then◌else◌}
use vulkan_remote.Base.Lists.{length}
use vulkan_remote.Base.Maps.{find, erase}
use vulkan_remote.Base.Words.{ℤ, pos, negsuc}
use vulkan_remote.Framing.{
  Status, status_code, Writer, new_writer, put_u32, put_u64, put_i32, put_handle, put_bytes, Reader,
  new_reader, is_ok, remaining, get_u64, get_handle, get_bytes,
}
use vulkan_remote.Objects.{get, take}
use vulkan_remote.Objects.Teardown.{ServerMemory, ObjectTables}
use vulkan_remote.Mapped.{whole_size, max_mapped_chunk}

-- The offset and size of a VkMappedMemoryRange.
pub record NativeRange : Type 0 where
  pub offset : ℕ
  pub size : ℕ

-- What the handlers call of the driver. `store` and `load` are the reads and writes through the
-- pointer that vkMapMemory returned, by the position in the memory.
pub record Driver (S : Type 0) : Type 0 where
  pub map_memory : S → ServerMemory → ℕ → ℤ
  pub store : S → ServerMemory → ℕ → List ℕ → S
  pub load : S → ServerMemory → ℕ → ℕ → List ℕ
  pub flush_ranges : S → ServerMemory → NativeRange → ℤ × S
  pub invalidate_ranges : S → ServerMemory → NativeRange → ℤ × S

-- `~(alignment - 1)` on 64 bits.
abbrev pub align_down : ℕ → ℕ → ℕ
align_down value alignment = bit_and value (2 ^ 64 - 1 - (alignment + (2 ^ 64 - 1)) % 2 ^ 64)

abbrev pub native_alignment : ServerMemory → ℕ
native_alignment m =
    if ltb m.non_coherent_atom_size m.map_alignment
    then m.map_alignment
    else m.non_coherent_atom_size

abbrev pub is_coherent : ServerMemory → Bool
is_coherent m = not (bit_and m.property_flags 4 == 0)

-- The range that is flushed or invalidated for a transfer.
unfoldable pub native_range : ServerMemory → ℕ → ℕ → NativeRange
native_range m offset size =
    let atom = m.non_coherent_atom_size in
    let start = align_down offset atom in
    let requested_end = (offset + size) % 2 ^ 64 in
    let rounded = align_down ((requested_end + atom + (2 ^ 64 - 1)) % 2 ^ 64) atom in
    record {
      offset = start;
      size =
          (if requested_end == m.size then whole_size else (rounded + (2 ^ 64 - start)) % 2 ^ 64);
    }

abbrev pub transfer_fits : ServerMemory → ℕ → ℕ → Bool
transfer_fits m offset size =
    not (bit_and m.property_flags 2 == 0)
    && (not (size == 0)
        && (not (ltb max_mapped_chunk size)
            && (not (ltb m.size offset) && not (ltb (m.size - offset) size))))

abbrev pub validate_in : ℕ → ℕ → ℕ → Option ServerMemory → Option ServerMemory
validate_in device offset size none = none
validate_in device offset size (some m) =
    if not (device == 0) && (m.owner == device && transfer_fits m offset size) then some m else none

unfoldable pub validate_transfer : ObjectTables → ℕ → ℕ → ℕ → ℕ → Option ServerMemory
unfolding get find
validate_transfer t device_id memory_id offset size =
    validate_in (get t.devices device_id) offset size (find memory_id t.memory_metadata)

abbrev pub is_zero : ℤ → Bool
is_zero (pos n) = n == 0
is_zero (negsuc n) = false

module _ {S : Type 0} (driver : Driver S) where
  -- `map_transfer` with an upload: the result, and the driver afterwards. vkUnmapMemory has no result
  -- and no effect on the bytes.
  unfoldable pub map_upload : S → ServerMemory → ℕ → ℕ → List ℕ → ℤ × S
  unfolding native_range
  map_upload s m offset size upload =
      let mapped = driver.map_memory s m (align_down offset (native_alignment m)) in
      let stored = driver.store s m offset upload in
      if not (is_zero mapped)
      then (mapped, s)
      else if is_coherent m
      then (pos 0, stored)
      else driver.flush_ranges stored m (native_range m offset size)

  -- The second part of a download: nothing is read if the range could not be invalidated.
  abbrev pub load_invalidated : ServerMemory → ℕ → ℕ → ℤ × S → ℤ × List ℕ × S
  load_invalidated m offset size (result, s) =
      (result, if is_zero result then driver.load s m offset size else [], s)

  -- `map_transfer` with a download: the result, the bytes, and the driver afterwards.
  unfoldable pub map_download : S → ServerMemory → ℕ → ℕ → ℤ × List ℕ × S
  unfolding native_range
  map_download s m offset size =
      let mapped = driver.map_memory s m (align_down offset (native_alignment m)) in
      if not (is_zero mapped)
      then (mapped, [], s)
      else load_invalidated m offset size (
          if is_coherent m
          then (pos 0, s)
          else driver.invalidate_ranges s m (native_range m offset size))

abbrev pub status_reply : Status → List ℕ
status_reply status = (put_u32 new_writer (status_code status)).m_data

-- The reply of a handler that ran: the status Ok and a VkResult.
abbrev pub result_writer : ℤ → Writer
result_writer result = put_i32 (put_u32 new_writer (status_code Status.ok)) result

-- The head of both transfer requests.
pub record TransferHead : Type 0 where
  pub device_id : ℕ
  pub memory_id : ℕ
  pub offset : ℕ
  pub size : ℕ

abbrev pub read_head : Reader → TransferHead × Reader
read_head r =
    let (device_id, r₁) = get_handle r in
    let (memory_id, r₂) = get_handle r₁ in
    let (offset, r₃) = get_u64 r₂ in
    let (size, r₄) = get_u64 r₃ in
    (record { device_id = device_id; memory_id = memory_id; offset = offset; size = size }, r₄)

abbrev pub validate_head : ObjectTables → TransferHead → Option ServerMemory
validate_head t h = validate_transfer t h.device_id h.memory_id h.offset h.size

module _ {S : Type 0} (driver : Driver S) where
  abbrev pub flush_validated : S → TransferHead → List ℕ → Option ServerMemory → List ℕ × S
  flush_validated s h bytes none = (status_reply Status.decode_error, s)
  flush_validated s h bytes (some m) =
      let (result, s') = map_upload driver s m h.offset h.size bytes in
      ((result_writer result).m_data, s')

  abbrev pub flush_read : ObjectTables → S → TransferHead → Option (List ℕ) × Reader → List ℕ × S
  flush_read t s h (none, r) = (status_reply Status.decode_error, s)
  flush_read t s h (some bytes, r) =
      if length bytes == h.size && is_ok r
      then flush_validated s h bytes (validate_head t h)
      else (status_reply Status.decode_error, s)

  -- The bytes of the reply, and the driver afterwards.
  unfoldable pub handle_FlushMappedMemory : ObjectTables → S → List ℕ → List ℕ × S
  unfolding get_handle get_u64 get_bytes validate_transfer map_upload
  handle_FlushMappedMemory t s payload =
      let (h, r) = read_head (new_reader payload (length payload)) in
      flush_read t s h (get_bytes max_mapped_chunk r)

  abbrev pub download_validated : S → TransferHead → Option ServerMemory → List ℕ × S
  download_validated s h none = (status_reply Status.decode_error, s)
  download_validated s h (some m) =
      let (result, loaded, s') = map_download driver s m h.offset h.size in
      ((put_bytes (result_writer result) loaded (length loaded)).m_data, s')

  unfoldable pub handle_DownloadMappedMemory : ObjectTables → S → List ℕ → List ℕ × S
  unfolding get_handle get_u64 validate_transfer map_download
  handle_DownloadMappedMemory t s payload =
      let (h, r) = read_head (new_reader payload (length payload)) in
      if is_ok r
      then download_validated s h (validate_head t h)
      else (status_reply Status.decode_error, s)

-- What vkFreeMemory is called with: the device and the native memory.
pub record Freed : Type 0 where
  pub tables : ObjectTables
  pub oneway_errors : ℕ
  pub freed : Option (ℕ × ℕ)

abbrev pub free_found : ObjectTables → ℕ → ℕ → ℕ → Bool → Option ServerMemory → Freed
free_found t errors device id ok none = record {
  tables = t;
  oneway_errors = errors + 1;
  freed = none;
}
free_found t errors device id ok (some m) =
    let (memories, memory) = take t.memories id in
    if ok && (not (device == 0) && m.owner == device)
    then record {
      tables = record t { memories = memories; memory_metadata = erase id t.memory_metadata };
      oneway_errors = errors;
      freed = some (device, memory);
    }
    else record { tables = t; oneway_errors = errors + 1; freed = none }

-- vkFreeMemory is a message without a reply: what is wrong is counted.
unfoldable pub handle_FreeMemory : ObjectTables → ℕ → List ℕ → Freed
unfolding get_handle get find erase take
handle_FreeMemory t errors payload =
    let (device_id, r) = get_handle (new_reader payload (length payload)) in
    let (id, r') = get_handle r in
    free_found t errors (get t.devices device_id) id (is_ok r') (find id t.memory_metadata)
