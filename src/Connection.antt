-- ===== src/Connection.antt =====
-- client/remote_objects.cpp: the requests in flight of one `Connection`. The state holds what
-- `pending_mutex` protects; a step is one critical section. A waiter, the shared `Pending` of a
-- call, is known by a number. Sockets, threads and clocks are not modelled: a send that fails, a reply
-- of any content and a heartbeat that times out are steps that may come at any time.
pub mod RequestIds
pub mod Entries
pub mod State
pub mod Enter
pub mod Leave
pub mod InFlight
mod Tests
use vulkan_remote.Base.{
  ℕ, zero, suc, ◌+◌, ◌-◌, ◌%◌, ◌^◌, ◌≡◌, ◌≢◌, Bool, true, false, not, ◌&&◌, ◌||◌, Option, none,
  some, List, [], ◌∷◌, ◌++◌, map,
}
use vulkan_remote.Base.Tests.{leb, ◌==◌, if◌then◌else◌}
use vulkan_remote.Base.Lists.{length}
use vulkan_remote.Base.Maps.{find, insert, erase}

pub record Pending : Type 0 where
  pub opcode : ℕ
  pub waiter : ℕ

pub record Connection : Type 0 where
  pub pending : List (ℕ × Pending)
  pub next_request_id : ℕ
  pub failed : Bool
  pub stopping : Bool
  pub heartbeat_enabled : Bool
  pub application_pending : ℕ
  pub heartbeat_id : ℕ

abbrev pub new_connection : Connection
new_connection = record {
  pending = [];
  next_request_id = 1;
  failed = false;
  stopping = false;
  heartbeat_enabled = false;
  application_pending = 0;
  heartbeat_id = 0;
}

abbrev pub max_pending : ℕ
max_pending = 1024

abbrev pub is_some {ℓ} : {A : Type ℓ} → Option A → Bool
is_some none = false
is_some (some a) = true

abbrev pub enable_heartbeat : Connection → Connection
enable_heartbeat c = record c { heartbeat_enabled = true }

-- `do { id = next_request_id++; } while (id == 0 || pending.count(id));`, at most `rounds` rounds:
-- the id, and the counter afterwards.
unfoldable pub next_id : ℕ → ℕ → List (ℕ × Pending) → Option (ℕ × ℕ)
unfolding find
next_id zero next pending = none
next_id (suc rounds) next pending =
    let again = next_id rounds ((next + 1) % 2 ^ 64) pending in
    if next == 0 || is_some (find next pending) then again else some (next, (next + 1) % 2 ^ 64)

-- One entry more, under the id that the loop found.
abbrev pub add_pending : Connection → Pending → Option (ℕ × ℕ) → Option (ℕ × Connection)
add_pending c p none = none
add_pending c p (some (id, next)) =
    some (id, record c { pending = insert id p c.pending; next_request_id = next })

unfoldable pub enroll : Connection → Pending → Option (ℕ × Connection)
unfolding next_id insert
enroll c p = add_pending c p (next_id (length c.pending + 2) c.next_request_id c.pending)

abbrev pub count_request : Option (ℕ × Connection) → Option (ℕ × Connection)
count_request none = none
count_request (some (id, c)) =
    some (id, record c { application_pending = c.application_pending + 1 })

-- The first critical section of `round_trip` and `try_round_trip`.
unfoldable pub begin_request : Connection → Pending → Option (ℕ × Connection)
unfolding enroll
begin_request c p =
    if c.failed || leb max_pending (length c.pending) then none else count_request (enroll c p)

abbrev pub mark_heartbeat : Option (ℕ × Connection) → Option (ℕ × Connection)
mark_heartbeat none = none
mark_heartbeat (some (id, c)) = some (id, record c { heartbeat_id = id })

-- `watchdog_loop` once the interval has passed.
unfoldable pub begin_ping : Connection → Pending → Option (ℕ × Connection)
unfolding enroll
begin_ping c p =
    if (c.stopping || c.failed) || (not (c.heartbeat_id == 0) || c.application_pending == 0)
    then none
    else mark_heartbeat (enroll c p)

-- `if (application_pending != 0) --application_pending;`
abbrev pub less_one : ℕ → ℕ
less_one n = if n == 0 then 0 else n - 1

-- `try_round_trip` where the send mutex was taken: the request was not sent.
unfoldable pub withdraw : Connection → ℕ → Connection
unfolding erase
withdraw c id = record c {
  pending = erase id c.pending;
  application_pending = less_one c.application_pending;
}

-- The state once an entry is answered.
abbrev pub replied : Connection → ℕ → Connection
replied c id = record c {
  heartbeat_id = (if id == c.heartbeat_id then 0 else c.heartbeat_id);
  application_pending =
      (if id == c.heartbeat_id then c.application_pending else less_one c.application_pending);
  pending = erase id c.pending;
}

-- `receive_loop` once a message has come: the waiter whose reply it is. There is none if the message
-- answers nothing, which ends the loop.
abbrev pub take_reply : Connection → ℕ → ℕ → Option Pending → Option (Pending × Connection)
take_reply c id opcode none = none
take_reply c id opcode (some p) =
    if id == 0 || not (opcode == p.opcode) then none else some (p, replied c id)

unfoldable pub receive : Connection → ℕ → ℕ → Option (Pending × Connection)
unfolding find erase
receive c id opcode = take_reply c id opcode (find id c.pending)

-- The waiters of a map of pending requests.
abbrev pub waiters : List (ℕ × Pending) → List ℕ
waiters [] = []
waiters ((id, p) ∷ m) = p.waiter ∷ waiters m

-- The connection, and the waiters that are woken without a reply.
unfoldable pub fail_all : Connection → Connection × List ℕ
fail_all c = if c.failed then (c, []) else (
  record c {
    failed = true;
    stopping = true;
    application_pending = 0;
    heartbeat_id = 0;
    pending = [];
  },
  waiters c.pending,
)

-- The waiter that a withdrawal takes out of the map.
abbrev pub taken_out : Option Pending → List ℕ
taken_out none = []
taken_out (some p) = p.waiter ∷ []

-- `Run c enrolled ended`: a connection came to the state `c`; the waiters `enrolled` were entered,
-- and the waiters `ended` were woken or taken out by a withdrawal.
pub data Run : Connection → List ℕ → List ℕ → Type 0 where
  begin : Run new_connection [] []
  enables : {c : Connection} {e d : List ℕ} → Run c e d → Run (enable_heartbeat c) e d
  requests :
      {c c' : Connection} {e d : List ℕ} (p : Pending) (id : ℕ)
      → Run c e d
      → begin_request c p ≡ some (id, c')
      → Run c' (p.waiter ∷ e) d
  pings :
      {c c' : Connection} {e d : List ℕ} (p : Pending) (id : ℕ)
      → Run c e d
      → begin_ping c p ≡ some (id, c')
      → Run c' (p.waiter ∷ e) d
  -- The caller does not look whether its request is still there: it is not if the connection has failed
  -- or a reply has come already.
  withdraws :
      {c : Connection} {e d : List ℕ} (id : ℕ)
      → Run c e d
      → Run (withdraw c id) e (taken_out (find id c.pending) ++ d)
  receives :
      {c c' : Connection} {e d : List ℕ} (p : Pending) (id opcode : ℕ)
      → Run c e d
      → receive c id opcode ≡ some (p, c')
      → Run c' e (p.waiter ∷ d)
  fails : {c : Connection} {e d : List ℕ} → Run c e d → Run (fail_all c).0 e ((fail_all c).1 ++ d)
