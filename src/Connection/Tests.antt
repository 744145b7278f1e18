-- ===== src/Connection/Tests.antt =====
-- client/remote_objects.cpp: a run of a connection, and the theorems at it.
use vulkan_remote.Base.{
  ℕ, ◌+◌, ◌-◌, ◌^◌, ◌≤◌, ◌<◌, ◌≡◌, ◌≢◌, refl, true, false, none, some, [], ◌∷◌, arith,
}
use vulkan_remote.Base.Lists.{length}
use vulkan_remote.Base.Maps.{find, insert, erase}
use vulkan_remote.Connection.{
  Pending, Connection, max_pending, next_id, enroll, begin_request, begin_ping, receive, waiters,
  Run, begin, enables, requests, pings,
}
use vulkan_remote.Connection.Entries.{IsMap, occurrences}
use vulkan_remote.Connection.RequestIds.{next_id_total}
use vulkan_remote.Connection.State.{heartbeats}
use vulkan_remote.Connection.InFlight.{pending_bounded, waiters_accounted}

abbrev draw : Pending
draw = record { opcode = 40; waiter = 100 }

abbrev ping : Pending
ping = record { opcode = 2; waiter = 101 }

-- One request and one heartbeat are pending.
abbrev asked : Connection
asked = record {
  pending = (2, ping) ∷ (1, draw) ∷ [];
  next_request_id = 3;
  failed = false;
  stopping = false;
  heartbeat_enabled = true;
  application_pending = 1;
  heartbeat_id = 2;
}

asked-Run : Run asked (101 ∷ 100 ∷ []) []
unfolding begin_request begin_ping enroll next_id find insert erase
asked-Run = pings ping 2 (requests draw 1 (enables begin) refl) refl

pending_bounded_example :
    (2 ≤ max_pending + heartbeats asked)
    × IsMap asked.pending
    × (asked.failed ≡ true
        → (asked.pending ≡ []) × (asked.application_pending ≡ 0) × (asked.heartbeat_id ≡ 0))
pending_bounded_example = pending_bounded asked (101 ∷ 100 ∷ []) [] asked-Run

waiters_accounted_example :
    (occurrences 100 (101 ∷ 100 ∷ [])
      ≡ occurrences 100 (waiters asked.pending) + occurrences 100 [])
    × (asked.failed ≡ true → occurrences 100 (101 ∷ 100 ∷ []) ≡ occurrences 100 [])
waiters_accounted_example = waiters_accounted asked (101 ∷ 100 ∷ []) [] 100 asked-Run

next_id_total_example :
    (id : ℕ) × (next' : ℕ) × (next_id (length asked.pending + 2) (2 ^ 64 - 1) asked.pending
      ≡ some (id, next'))
    × (id ≢ 0)
    × (find id asked.pending ≡ none)
    × (id < 2 ^ 64)
    × (next' < 2 ^ 64)
next_id_total_example = next_id_total (2 ^ 64 - 1) asked.pending (omega arith) (omega arith)

-- The counter passes 0 and the ids that are in use.
wraps : next_id 4 0 asked.pending ≡ some (3, 4)
unfolding next_id find
wraps = refl

-- A reply with another opcode ends the receiver.
mismatch : receive asked 1 41 ≡ none
unfolding receive find
mismatch = refl
