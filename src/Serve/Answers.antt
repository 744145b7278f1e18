-- ===== src/Serve/Answers.antt =====
-- server/session.cpp: what `Server::serve` answers, and when it handles a message at all.
use vulkan_remote.Base.{
  ℕ, ◌≤◌, ◌≡◌, ◌≢◌, Bool, true, false, ◌||◌, Option, none, some, List, [], ◌∷◌, arith,
}
use vulkan_remote.Base.Lists.{length}
use vulkan_remote.Framing.{Status}
use vulkan_remote.Objects.Teardown.{ObjectTables}
use vulkan_remote.Workers.{Workers}
use vulkan_remote.Serve.Decode.{
  Opcode, ping, queue_wait_idle, device_wait_idle, wait_for_fences, wait_semaphores,
}
use vulkan_remote.Serve.{
  Message, ServeState, Handled, status_bytes, reply, Served, closes, continues, is_handshake,
}

-- A message with a request id that does not end the connection has one answer: either one reply with
-- that id is sent, or a worker has it. A message without a request id has no reply.
abbrev pub Answered : ℕ → Served → Type 0
Answered id (closes replies) = length replies ≤ 1
Answered id (continues s replies none) =
    (id ≡ 0 → replies ≡ []) × (id ≢ 0 → (bytes : List ℕ) × (replies ≡ (id, bytes) ∷ []))
Answered id (continues s replies (some w)) = (id ≢ 0) × (replies ≡ [])

reply-short : (id : ℕ) (o : Option (List ℕ)) → length (reply id o) ≤ 1
reply-short id none = omega arith
reply-short id (some bytes) = ground arith

-- The state once a handler is done and the connection stays open.
abbrev handled : ServeState → Message → Handled → ServeState
handled s m h = record s {
  tables = h.tables;
  oneway_errors = h.oneway_errors;
  handshake_complete = is_handshake m.opcode || s.handshake_complete;
}

-- There is the reply that a handler gives, if the message has an id, and no other.
abbrev pub IsReply : ℕ → Option (List ℕ) → List (ℕ × List ℕ) → Type 0
IsReply id replied replies =
    (id ≡ 0 → replies ≡ [])
    × (replied ≡ none → replies ≡ [])
    × ((bytes : List ℕ) → id ≢ 0 → replied ≡ some bytes → replies ≡ (id, bytes) ∷ [])

abbrev pub FromHandler : ℕ → Option (List ℕ) → Served → Type 0
FromHandler id replied (closes replies) = IsReply id replied replies
FromHandler id replied (continues s replies none) = IsReply id replied replies
FromHandler id replied (continues s replies (some w)) = ⊥

-- The messages that `serve` answers itself.
abbrev pub is_own : Opcode → Bool
is_own ping = true
is_own queue_wait_idle = true
is_own device_wait_idle = true
is_own wait_for_fences = true
is_own wait_semaphores = true
is_own _ = false

-- One that another handler gets, and one that `serve` answers.
abbrev pub Replied : Bool → ℕ → Option (List ℕ) → Served → Type 0
Replied true id replied served = FromHandler id replied served
Replied false id replied served = Answered id served

module _ (find_handler : Opcode → Bool) (handler : Message → ObjectTables → ℕ → Handled)
    (has_wait_semaphores : ℕ → Bool) where
  -- The unknown opcodes are refused.
  abbrev refused : ServeState → Message → Served
  refused s m =
      continues s (reply m.request_id (some (status_bytes Status.unsupported_command))) none
