-- ===== src/Serve/Refusals.antt =====
-- server/session.cpp: what a request that waits is decoded to, if it is not refused.
use vulkan_remote.Base.{ℕ, ◌≡◌, ◌≢◌, some, List, arith}
use vulkan_remote.Objects.Teardown.{ObjectTables}
use vulkan_remote.Serve.Decode.{
  Wait, decode_idle_queue, decode_idle_device, decode_fences, decode_semaphores,
}

pub decode_idle_queue_id :
    (t : ObjectTables) (id : ℕ) (payload : List ℕ) (w : Wait)
    → decode_idle_queue t id payload ≡ some w
    → id ≢ 0
unfolding decode_idle_queue
decode_idle_queue_id t id payload w e = ground (arith, e)

pub decode_idle_device_id :
    (t : ObjectTables) (errors id : ℕ) (payload : List ℕ) (w : Wait)
    → decode_idle_device t errors id payload ≡ some w
    → id ≢ 0
unfolding decode_idle_device
decode_idle_device_id t errors id payload w e = ground (arith, e)

pub decode_fences_id :
    (t : ObjectTables) (id : ℕ) (payload : List ℕ) (w : Wait)
    → decode_fences t id payload ≡ some w
    → id ≢ 0
unfolding decode_fences
decode_fences_id t id payload w e = ground (arith, e)

pub decode_semaphores_id :
    (t : ObjectTables) (id : ℕ) (payload : List ℕ) (w : Wait)
    → decode_semaphores t id payload ≡ some w
    → id ≢ 0
unfolding decode_semaphores
decode_semaphores_id t id payload w e = ground (arith, e)
