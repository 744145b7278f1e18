-- ===== src/Connection/Leave.antt =====
-- client/remote_objects.cpp: the critical sections that take an entry out.
use vulkan_remote.Base.{ℕ, ◌+◌, ◌≤◌, ◌≡◌, ◌≢◌, ap, inl, inr, true, Option, none, some, List, arith}
use vulkan_remote.Base.Tests.{◌==◌, if◌then◌else◌, equal_or_not, Option-cases}
use vulkan_remote.Base.Lists.{length}
use vulkan_remote.Base.Maps.{find, erase, find-erase, erase-none, length-erase-le}
use vulkan_remote.Connection.{
  Pending, Connection, max_pending, less_one, withdraw, replied, take_reply, waiters, taken_out,
}
use vulkan_remote.Connection.Entries.{IsMap, erase-IsMap, length-erase, occurrences, waiters-erase}
use vulkan_remote.Connection.State.{Consistent}

-- The waiters that a withdrawal takes out, and those that stay.
pub erased-waiters :
    (t id : ℕ) (m : List (ℕ × Pending))
    → IsMap m
    → occurrences t (waiters m)
      ≡ occurrences t (taken_out (find id m)) + occurrences t (waiters (erase id m))
erased-waiters t id m h = elim (Option-cases (find id m)) [
  | inl f ↦ rw f (omega (arith, ap (λ n. occurrences t (waiters n)) (erase-none id m f)))
  | inr (p, f) ↦ rw f (omega (arith, waiters-erase t id p m h f))
]

-- Without the entry `id`, with `less` application requests.
erased-Consistent :
    (c : Connection) (id less beat : ℕ)
    → Consistent c
    → length (erase id c.pending) ≤ max_pending + (if beat == 0 then 0 else 1)
    → (c.failed ≡ true → (less ≡ 0) × (beat ≡ 0))
    → Consistent
        (record c { pending = erase id c.pending; application_pending = less; heartbeat_id = beat })
unfolding erase
erased-Consistent c id less beat h n q = record {
  counter = h.counter;
  keys = erase-IsMap id c.pending h.keys;
  no_zero = ground (arith, find-erase 0 id c.pending, h.no_zero);
  bounded = n;
  closed = λ e. ap (erase id) (h.closed e);
  quiet = q;
  both = h.both;
}

pub withdraw-Consistent : (c : Connection) (id : ℕ) → Consistent c → Consistent (withdraw c id)
unfolding withdraw
withdraw-Consistent c id h =
    erased-Consistent c id (less_one c.application_pending) c.heartbeat_id h
      (omega (arith, h.bounded, length-erase-le id c.pending))
      (λ e. let (z, b) = h.quiet e in (ground (arith, z), b))

pub replied-Consistent :
    (c : Connection) (p : Pending) (id : ℕ)
    → Consistent c
    → find id c.pending ≡ some p
    → id ≢ 0
    → Consistent (replied c id)
replied-Consistent c p id h f nz =
    let shorter = length-erase id p c.pending h.keys f in
    erased-Consistent c id
      (if id == c.heartbeat_id then c.application_pending else less_one c.application_pending)
      (if id == c.heartbeat_id then 0 else c.heartbeat_id) h
      (elim (equal_or_not id c.heartbeat_id) [
        | inl same ↦ ground (arith, h.bounded, shorter, same, nz)
        | inr other ↦ ground (arith, h.bounded, shorter, other)
      ])
      (λ e. let (z, b) = h.quiet e in (ground (arith, z), ground (arith, b)))

pub receive-cases :
    (c c' : Connection) (p : Pending) (id opcode : ℕ) (o : Option Pending)
    → take_reply c id opcode o ≡ some (p, c')
    → (o ≡ some p) × (id ≢ 0) × (opcode ≡ p.opcode) × (replied c id ≡ c')
receive-cases c c' p id opcode none e = ground (arith, e)
receive-cases c c' p id opcode (some q) e = ground (arith, e)
