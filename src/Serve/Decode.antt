-- ===== src/Serve/Decode.antt =====
-- server/session.cpp: the requests that wait, as `Server::serve` decodes them before a worker runs
-- them. The handles are looked up here, in the thread that owns the tables.
use vulkan_remote.Base.{ℕ, zero, suc, ◌/◌, Bool, not, ◌&&◌, Option, none, some, List, [], ◌∷◌}
use vulkan_remote.Base.Tests.{leb, ◌==◌, if◌then◌else◌}
use vulkan_remote.Base.Lists.{length}
use vulkan_remote.Framing.{Reader, new_reader, remaining, is_ok, get_u32, get_u64, get_handle}
use vulkan_remote.Objects.{Table, get}
use vulkan_remote.Objects.Teardown.{ObjectTables}

pub data Opcode : Type 0 where
  handshake ping queue_wait_idle device_wait_idle wait_for_fences wait_semaphores : Opcode
  other : ℕ → Opcode

-- What a worker is given: native handles and values.
pub data Wait : Type 0 where
  -- `idle_queue queue`
  idle_queue : ℕ → Wait
  -- `idle_device device errors`
  idle_device : ℕ → ℕ → Wait
  -- `fences device wait_all handles timeout`
  fences : ℕ → Bool → List ℕ → ℕ → Wait
  -- `semaphores device flags handles_and_values timeout`
  semaphores : ℕ → ℕ → List (ℕ × ℕ) → ℕ → Wait

abbrev pub max_array_elements : ℕ
max_array_elements = 1048576

unfoldable pub count_fits : Reader → ℕ → ℕ → Bool
unfolding remaining
count_fits r count min_wire_bytes =
    leb count (remaining r / (if min_wire_bytes == 0 then 1 else min_wire_bytes))

-- The whole payload was read, without an error.
abbrev pub is_done : Reader → Bool
is_done r = is_ok r && remaining r == 0

unfoldable pub decode_idle_queue : ObjectTables → ℕ → List ℕ → Option Wait
unfolding get_handle get
decode_idle_queue t request_id payload =
    let (id, r) = get_handle (new_reader payload (length payload)) in
    let queue = get t.queues id in
    if not (request_id == 0) && (is_done r && not (queue == 0))
    then some (idle_queue queue)
    else none

unfoldable pub decode_idle_device : ObjectTables → ℕ → ℕ → List ℕ → Option Wait
unfolding get_handle get
decode_idle_device t errors request_id payload =
    let (id, r) = get_handle (new_reader payload (length payload)) in
    let device = get t.devices id in
    if not (request_id == 0) && (is_done r && not (device == 0))
    then some (idle_device device errors)
    else none

-- The loop over the fences: it ends at the first id that names none.
unfoldable pub read_fences : Table → ℕ → Reader → Option (List ℕ) × Reader
unfolding get_handle get
read_fences t zero r = (some [], r)
read_fences t (suc count) r =
    let (id, r') = get_handle r in
    let fence = get t id in
    let (rest, r'') = read_fences t count r' in
    elim rest [
      | some fs ↦ if fence == 0 then (none, r') else (some (fence ∷ fs), r'')
      | none ↦ if fence == 0 then (none, r') else (none, r'')
    ]

abbrev pub fences_of : ℕ → Bool → Option (List ℕ) × Reader → Option Wait
fences_of device wait_all (none, r) = none
fences_of device wait_all (some fs, r) =
    let (timeout, r') = get_u64 r in
    if is_done r' then some (fences device wait_all fs timeout) else none

unfoldable pub decode_fences : ObjectTables → ℕ → List ℕ → Option Wait
unfolding get_handle get_u32 get count_fits read_fences
decode_fences t request_id payload =
    let (id, r₁) = get_handle (new_reader payload (length payload)) in
    let device = get t.devices id in
    let (all, r₂) = get_u32 r₁ in
    let (count, r₃) = get_u32 r₂ in
    if (not (request_id == 0) && not (device == 0))
      && ((not (count == 0) && leb count max_array_elements) && count_fits r₃ count 8)
    then fences_of device (not (all == 0)) (read_fences t.fences count r₃)
    else none

-- The loop over the semaphores and their values.
unfoldable pub read_semaphores : Table → ℕ → Reader → Option (List (ℕ × ℕ)) × Reader
unfolding get_handle get_u64 get
read_semaphores t zero r = (some [], r)
read_semaphores t (suc count) r =
    let (id, r') = get_handle r in
    let (value, r'') = get_u64 r' in
    let semaphore = get t id in
    let (rest, r₃) = read_semaphores t count r'' in
    elim rest [
      | some ss ↦ if semaphore == 0 then (none, r'') else (some ((semaphore, value) ∷ ss), r₃)
      | none ↦ if semaphore == 0 then (none, r'') else (none, r₃)
    ]

abbrev pub semaphores_of : ℕ → ℕ → Option (List (ℕ × ℕ)) × Reader → Option Wait
semaphores_of device flags (none, r) = none
semaphores_of device flags (some ss, r) =
    let (timeout, r') = get_u64 r in
    if is_done r' then some (semaphores device flags ss timeout) else none

unfoldable pub decode_semaphores : ObjectTables → ℕ → List ℕ → Option Wait
unfolding get_handle get_u32 get count_fits read_semaphores
decode_semaphores t request_id payload =
    let (id, r₁) = get_handle (new_reader payload (length payload)) in
    let device = get t.devices id in
    let (flags, r₂) = get_u32 r₁ in
    let (count, r₃) = get_u32 r₂ in
    if not (request_id == 0)
      && (not (device == 0) && (leb count max_array_elements && count_fits r₃ count 16))
    then semaphores_of device flags (read_semaphores t.semaphores count r₃)
    else none

abbrev pub wait_lane : Wait → ℕ
wait_lane (idle_queue queue) = queue
wait_lane _ = 0
