-- ===== src/Transfers/Tests.antt =====
-- server/handlers_memory.cpp: uploads and downloads run on a memory of four bytes whose driver keeps
-- the bytes of the host and of the device apart.
use vulkan_remote.Base.{
  ℕ, ◌+◌, ◌≤◌, ◌≡◌, refl, sym, ◌∙◌, inl, inr, true, false, none, some, List, [], ◌∷◌, ◌++◌, arith,
}
use vulkan_remote.Base.Tests.{◌==◌, if_true, equal_or_not}
use vulkan_remote.Base.Lists.{length, drop, get_or, length-take, length-drop}
use vulkan_remote.Base.Maps.{find}
use vulkan_remote.Base.Bytes.{le_bytes, of_le}
use vulkan_remote.Base.Words.{pos, to_u32, of_u32}
use vulkan_remote.Framing.{
  get_u32, get_i32, get_handle, put_handle, put_u32, put_u64, put_i32, put_bytes,
}
use vulkan_remote.Objects.{get}
use vulkan_remote.Objects.Samples
use vulkan_remote.Objects.Teardown.{ServerMemory, ObjectTables}
use vulkan_remote.Mapped.{
  Transfer, success, MappedRange, flush_range, flush_from, write_at, chunk_of,
}
use vulkan_remote.Transfers.{
  NativeRange, Driver, native_range, is_coherent, map_upload, map_download, validate_transfer,
  handle_FreeMemory, handle_FlushMappedMemory,
}
use vulkan_remote.Transfers.Alignment.{
  actual_size, IsValidRange, Covers, IsTransfer, native_range-Covers,
}
use vulkan_remote.Transfers.Requests.{
  IsRequest, flush_request, read_flush_reply, flush_request-round_trip,
}
use vulkan_remote.Mapped.Writes.{slice, length-write_at}
use vulkan_remote.Transfers.Views.{Views}
use vulkan_remote.Transfers.Uploads.{Uploaded, map_upload-Uploaded}
use vulkan_remote.Transfers.Flushes.{
  serve_flushes, IsUploadTarget, serve_flushes-device, flush_range-device,
}
use vulkan_remote.Transfers.Downloads.{map_download-device}
use vulkan_remote.Transfers.Freeing.{
  IsMatched, FreeOutcome, freed_id, handle_FreeMemory-FreeOutcome, handle_FreeMemory-IsMatched,
}

-- Four bytes.
record Page : Type 0 where
  a : ℕ
  b : ℕ
  c : ℕ
  d : ℕ

record Pages : Type 0 where
  host : Page
  device : Page

abbrev bytes_of : Page → List ℕ
bytes_of p = p.a ∷ p.b ∷ p.c ∷ p.d ∷ []

abbrev page_of : List ℕ → Page
page_of l = record { a = get_or l 0 0; b = get_or l 1 0; c = get_or l 2 0; d = get_or l 3 0 }

bytes_of-page_of : (l : List ℕ) → length l ≡ 4 → bytes_of (page_of l) ≡ l
bytes_of-page_of [] e = absurd (omega (arith, e))
bytes_of-page_of (x ∷ []) e = absurd (omega (arith, e))
bytes_of-page_of (x ∷ y ∷ []) e = absurd (omega (arith, e))
bytes_of-page_of (x ∷ y ∷ z ∷ []) e = absurd (omega (arith, e))
bytes_of-page_of (x ∷ y ∷ z ∷ w ∷ []) e = refl
bytes_of-page_of (x ∷ y ∷ z ∷ w ∷ v ∷ l) e = absurd (omega (arith, e))

abbrev written : ℕ → List ℕ → Page → Page
written p bytes page = page_of (write_at p bytes (bytes_of page))

abbrev paged : Driver Pages
paged = record {
  map_memory = λ s m offset. pos 0;
  store = λ s m p bytes. record s { host = written p bytes s.host };
  load = λ s m p size. slice p size (bytes_of s.host);
  flush_ranges = λ s m r. (
    pos 0,
    record s {
      device = written r.offset (slice r.offset (actual_size m r) (bytes_of s.host)) s.device;
    },
  );
  invalidate_ranges = λ s m r. (
    pos 0,
    record s {
      host = written r.offset (slice r.offset (actual_size m r) (bytes_of s.device)) s.host;
    },
  );
}

-- Visible to the host, not coherent, in atoms of two bytes.
abbrev memory : ServerMemory
memory = record {
  handle = 50;
  owner = 7;
  size = 4;
  property_flags = 2;
  map_alignment = 4;
  non_coherent_atom_size = 2;
}

copied :
    (r : NativeRange) (from to : Page)
    → IsValidRange memory r
    → bytes_of (written r.offset (slice r.offset (actual_size memory r) (bytes_of from)) to)
      ≡ write_at r.offset (slice r.offset (actual_size memory r) (bytes_of from)) (bytes_of to)
copied r from to valid =
    let piece = slice r.offset (actual_size memory r) (bytes_of from) in
    let fits : r.offset + length piece ≤ 4 = omega (
      arith,
      valid.inside,
      length-take (actual_size memory r) (drop r.offset (bytes_of from)),
      length-drop r.offset (bytes_of from),
    ) in
    bytes_of-page_of (write_at r.offset piece (bytes_of to))
      (length-write_at r.offset piece (bytes_of to) fits)

memory_incoherent : ¬ (is_coherent memory ≡ true)
memory_incoherent c = ground (arith, c)

abbrev paged-Views : Views paged memory
paged-Views = record {
  host = λ s. bytes_of s.host;
  device = λ s. bytes_of s.device;
  length_host = λ s. refl;
  length_device = λ s. refl;
  coherent = λ s c. absurd (memory_incoherent c);
  stores = λ s p bytes h.
      bytes_of-page_of (write_at p bytes (bytes_of s.host))
        (length-write_at p bytes (bytes_of s.host) h);
  store_keeps = λ s p bytes c. refl;
  loads = λ s p size. refl;
  flushes = λ s r valid z. (refl, copied r s.host s.device valid);
  invalidates = λ s r valid z. (refl, copied r s.device s.host valid);
}

abbrev blank : Pages
blank = record {
  host = record { a = 0; b = 0; c = 0; d = 0 };
  device = record { a = 9; b = 9; c = 9; d = 9 };
}

abbrev tables : ObjectTables
tables = record Samples.tables { memory_metadata = (1, memory) ∷ [] }

middle-IsTransfer : IsTransfer memory 1 2
middle-IsTransfer = record {
  atom = (1, omega arith, refl);
  small = omega arith;
  some_bytes = omega arith;
  within = omega arith;
  rounds = inl refl;
}

native_range-Covers_example :
    IsValidRange memory (native_range memory 1 2) × Covers memory 1 2 (native_range memory 1 2)
native_range-Covers_example = native_range-Covers memory 1 2 middle-IsTransfer

map_upload-Uploaded_example :
    Uploaded paged memory paged-Views blank
      (map_upload paged blank memory 1 2 (5 ∷ 6 ∷ [])).1
      1
      (5 ∷ 6 ∷ [])
unfolding map_upload native_range
map_upload-Uploaded_example =
    map_upload-Uploaded paged memory paged-Views blank 1 (5 ∷ 6 ∷ []) middle-IsTransfer refl

map_download-device_example :
    let (result, bytes, s') = map_download paged blank memory 1 2 in
    (bytes ≡ 9 ∷ 9 ∷ []) × (bytes_of s'.device ≡ bytes_of blank.device)
unfolding map_download native_range
map_download-device_example =
    map_download-device paged memory paged-Views blank 1 2 middle-IsTransfer refl

abbrev middle : Transfer
middle = record { memory = 1; offset = 1; bytes = 5 ∷ 6 ∷ [] }

middle-IsRequest : IsRequest 1 middle
middle-IsRequest = record {
  device = omega arith;
  memory = omega arith;
  offset = omega arith;
  chunk = omega arith;
}

flush_request-round_trip_example :
    let (reply, s') = handle_FlushMappedMemory paged tables blank (flush_request 1 middle) in
    (read_flush_reply reply, s') ≡ map_upload paged blank memory 1 2 (5 ∷ 6 ∷ [])
unfolding validate_transfer get find map_upload native_range
flush_request-round_trip_example =
    flush_request-round_trip paged tables blank 1 middle memory middle-IsRequest refl (omega arith)

target : IsUploadTarget paged tables 1 memory
unfolding find map_upload native_range
target = record {
  named = omega arith;
  found = refl;
  atom = (1, omega arith, refl);
  small = omega arith;
  whole = refl;
  results = λ s offset bytes. omega arith;
}

serve_flushes-device_example :
    slice 1 2 (bytes_of (serve_flushes paged tables 1 blank (middle ∷ [])).1.device) ≡ 5 ∷ 6 ∷ []
unfolding serve_flushes handle_FlushMappedMemory flush_request read_flush_reply get_u32 get_i32
    get_handle put_handle put_u32 put_u64 put_bytes get find validate_transfer map_upload
    native_range le_bytes of_le write_at put_i32 of_u32 to_u32
serve_flushes-device_example =
    serve_flushes-device paged tables 1 1 memory paged-Views target blank 1 (middle ∷ [])
      (omega arith) (omega arith) (refl, refl, omega arith, tt) refl

abbrev mapping : MappedRange
mapping = record {
  memory_id = 1;
  offset = 0;
  size = 4;
  shadow = 1 ∷ 2 ∷ 3 ∷ 4 ∷ [];
  emulated_coherent = false;
  transfer_ready = true;
  baseline = [];
}

flush_range-device_example :
    slice 0 4 (
      bytes_of
        (serve_flushes paged tables 1 blank (flush_range (λ t. success) [] mapping 0 4).1).1.device)
    ≡ 1 ∷ 2 ∷ 3 ∷ 4 ∷ []
unfolding serve_flushes handle_FlushMappedMemory flush_request read_flush_reply get_u32 get_i32
    get_handle put_handle put_u32 put_u64 put_bytes get find validate_transfer map_upload
    native_range le_bytes of_le write_at flush_from chunk_of put_i32 of_u32 to_u32
flush_range-device_example =
    flush_range-device paged tables 1 1 memory paged-Views target (λ t. success) [] mapping 0 4
      blank (omega arith) refl (omega arith) (omega arith) refl refl

matched : IsMatched tables
unfolding find get
matched id m e = elim (equal_or_not id 1) [
  | inl one ↦
      let same : some memory ≡ some m =
        sym (if_true {c = 1 == id} (some memory) none (ground (arith, one))) ∙ e in
      ground (arith, one, same)
  | inr other ↦ ground (arith, other, e)
]

abbrev free_first : List ℕ
free_first = le_bytes 8 1 ++ le_bytes 8 1

handle_FreeMemory-FreeOutcome_example :
    FreeOutcome tables 0 (freed_id free_first) (handle_FreeMemory tables 0 free_first)
handle_FreeMemory-FreeOutcome_example = handle_FreeMemory-FreeOutcome tables 0 free_first matched

handle_FreeMemory-IsMatched_example : IsMatched (handle_FreeMemory tables 0 free_first).tables
handle_FreeMemory-IsMatched_example = handle_FreeMemory-IsMatched tables 0 free_first matched
