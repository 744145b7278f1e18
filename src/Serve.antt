-- ===== src/Serve.antt =====
-- server/session.cpp: `Server::serve`, the loop that reads the messages of one client. One message is
-- one call of `serve_message`. The table of handlers, what a handler does, and whether the driver has
-- vkWaitSemaphores are arguments. A reply is a request id with the bytes that are sent. What a
-- worker runs is returned as a `Wait`.
pub mod Decode
pub mod Refusals
pub mod Answers
pub mod Gate
pub mod Waiting
mod Tests
use vulkan_remote.Base.{
  ℕ, zero, suc, ◌+◌, ◌/◌, ◌≡◌, Bool, true, false, not, ◌&&◌, ◌||◌, Option, none, some, List, [],
  ◌∷◌, ◌++◌,
}
use vulkan_remote.Base.Tests.{ltb, leb, ◌==◌, if◌then◌else◌}
use vulkan_remote.Base.Lists.{length}
use vulkan_remote.Framing.{Status, status_code, new_writer, put_u32}
use vulkan_remote.Objects.Teardown.{ObjectTables}
use vulkan_remote.Workers.{Job, Workers, submit}
use vulkan_remote.Serve.Decode.{
  Opcode, handshake, ping, queue_wait_idle, device_wait_idle, wait_for_fences, wait_semaphores,
  other, Wait, fences, semaphores, decode_idle_queue, decode_idle_device, decode_fences,
  decode_semaphores, wait_lane,
}

pub record Message : Type 0 where
  pub opcode : Opcode
  pub request_id : ℕ
  pub payload : List ℕ

pub record ServeState : Type 0 where
  pub tables : ObjectTables
  pub oneway_errors : ℕ
  pub workers : Workers
  pub handshake_complete : Bool

-- What a handler leaves behind: the first call of `reply`, if there was one.
pub record Handled : Type 0 where
  pub tables : ObjectTables
  pub oneway_errors : ℕ
  pub replied : Option (List ℕ)
  pub close_connection : Bool

-- The bytes of a reply that is a status only.
abbrev pub status_bytes : Status → List ℕ
status_bytes status = (put_u32 new_writer (status_code status)).m_data

-- `Session::reply`: a message without a request id is not answered.
abbrev pub reply : ℕ → Option (List ℕ) → List (ℕ × List ℕ)
reply request_id none = []
reply request_id (some bytes) = if request_id == 0 then [] else (request_id, bytes) ∷ []

abbrev pub reply_status : ℕ → Status → List (ℕ × List ℕ)
reply_status request_id status = reply request_id (some (status_bytes status))

pub data Served : Type 0 where
  closes : List (ℕ × List ℕ) → Served
  continues : ServeState → List (ℕ × List ℕ) → Option Wait → Served

-- The three tests at the head of the loop.
abbrev pub is_handshake : Opcode → Bool
is_handshake handshake = true
is_handshake _ = false

abbrev pub breaks : ServeState → Message → Bool
breaks s m =
    let h = is_handshake m.opcode in
    (not s.handshake_complete && not h) || ((s.handshake_complete && h) || (h && m.request_id == 0))

abbrev pub is_empty : List ℕ → Bool
is_empty [] = true
is_empty (b ∷ bs) = false

abbrev pub pong : Message → Status
pong m = if not (m.request_id == 0) && is_empty m.payload then Status.ok else Status.decode_error

abbrev pub is_device_idle : Opcode → Bool
is_device_idle device_wait_idle = true
is_device_idle _ = false

-- What is left of a wait once it was handed to the workers.
abbrev pub after_submit : ServeState → Message → Wait → Bool × Workers → Served
after_submit s m w (accepted, workers) =
    continues
      (record s {
        workers = workers;
        oneway_errors = (if is_device_idle m.opcode then 0 else s.oneway_errors);
      })
      (if accepted then [] else (m.request_id, status_bytes Status.decode_error) ∷ [])
      (if accepted then some w else none)

-- The wait messages, decoded or refused.
abbrev pub serve_wait : ServeState → Message → Status → Option Wait → Served
serve_wait s m refusal none = continues s (reply_status m.request_id refusal) none
serve_wait s m refusal (some w) = after_submit s m w (
    submit s.workers (record { request_id = m.request_id; lane = wait_lane w; run = m.request_id }))

abbrev pub after_handler : ServeState → Message → Handled → Served
after_handler s m h =
    if h.close_connection
    then closes (reply m.request_id h.replied)
    else continues
        (record s {
          tables = h.tables;
          oneway_errors = h.oneway_errors;
          handshake_complete = is_handshake m.opcode || s.handshake_complete;
        })
        (reply m.request_id h.replied) none

-- `vkWaitSemaphores`, where the driver may not have the function.
abbrev pub serve_semaphores : (ℕ → Bool) → ServeState → Message → Option Wait → Served
serve_semaphores has s m (some (semaphores device flags handles timeout)) =
    serve_wait s m Status.unsupported_command
      (if has device then some (semaphores device flags handles timeout) else none)
serve_semaphores has s m _ = serve_wait s m Status.decode_error none

module _ (find_handler : Opcode → Bool) (handler : Message → ObjectTables → ℕ → Handled)
    (has_wait_semaphores : ℕ → Bool) where
  -- A message whose opcode has a handler.
  abbrev pub serve_known : ServeState → Message → Opcode → Served
  serve_known s m queue_wait_idle =
      serve_wait s m Status.decode_error (decode_idle_queue s.tables m.request_id m.payload)
  serve_known s m device_wait_idle =
      serve_wait s m Status.decode_error
        (decode_idle_device s.tables s.oneway_errors m.request_id m.payload)
  serve_known s m wait_for_fences =
      serve_wait s m Status.decode_error (decode_fences s.tables m.request_id m.payload)
  serve_known s m wait_semaphores =
      serve_semaphores has_wait_semaphores s m (decode_semaphores s.tables m.request_id m.payload)
  serve_known s m _ = after_handler s m (handler m s.tables s.oneway_errors)

  abbrev pub dispatch : ServeState → Message → Opcode → Served
  dispatch s m ping = continues s (reply_status m.request_id (pong m)) none
  dispatch s m opcode =
      if find_handler opcode
      then serve_known s m opcode
      else continues s (reply_status m.request_id Status.unsupported_command) none

  -- One round of the loop.
  unfoldable pub serve_message : ServeState → Message → Served
  unfolding put_u32 submit decode_idle_queue decode_idle_device decode_fences decode_semaphores
  serve_message s m = if breaks s m then closes [] else dispatch s m m.opcode
