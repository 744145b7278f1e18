-- ===== src/Connection/InFlight.antt =====
-- client/remote_objects.cpp: what holds of a `Connection` in every state that it comes to.
use vulkan_remote.Base.{
  ℕ, ◌+◌, ◌≤◌, ◌≡◌, ◌≢◌, sym, ap, ◌∙◌, subst, true, none, some, List, [], arith,
}
use vulkan_remote.Base.Tests.{◌==◌, if◌then◌else◌}
use vulkan_remote.Base.Lists.{length}
use vulkan_remote.Base.Maps.{find, find-erase}
use vulkan_remote.Connection.{
  Pending, Connection, max_pending, withdraw, receive, waiters, fail_all, taken_out, Run, begin,
  enables, requests, pings, withdraws, receives, fails,
}
use vulkan_remote.Connection.Entries.{IsMap, occurrences, occurrences-append, waiters-erase}
use vulkan_remote.Connection.State.{heartbeats, Consistent, begin-Consistent, fail_all-Consistent}
use vulkan_remote.Connection.Enter.{request-Consistent, ping-Consistent}
use vulkan_remote.Connection.Leave.{
  withdraw-Consistent, erased-waiters, replied-Consistent, receive-cases,
}

-- In every state the entries are accounted for.
abbrev Accounted : Connection → List ℕ → List ℕ → Type 0
Accounted c e d = (t : ℕ) → occurrences t e ≡ occurrences t (waiters c.pending) + occurrences t d

received-Kept :
    (c c' : Connection) (p : Pending) (id opcode : ℕ)
    → Consistent c
    → receive c id opcode ≡ some (p, c')
    → Consistent c'
      × ((t : ℕ)
          → occurrences t (waiters c.pending)
            ≡ (if t == p.waiter then 1 else 0) + occurrences t (waiters c'.pending))
unfolding receive
received-Kept c c' p id opcode h e =
    let (f, nz, _, same) = receive-cases c c' p id opcode (find id c.pending) e in
    (
      subst Consistent same (replied-Consistent c p id h f nz),
      λ t.
          waiters-erase t id p c.pending h.keys f
          ∙ ap (λ u. (if t == p.waiter then 1 else 0) + occurrences t (waiters u.pending)) same,
    )

failed-waiters :
    (c : Connection) (t : ℕ)
    → occurrences t (waiters (fail_all c).0.pending) + occurrences t (fail_all c).1
      ≡ occurrences t (waiters c.pending)
unfolding fail_all
failed-waiters c t = ground arith

run : (c : Connection) (e d : List ℕ) → Run c e d → Consistent c × Accounted c e d
unfolding withdraw
run _ _ _ begin = (begin-Consistent, λ t. omega arith)
run _ _ _ (enables {c} {e} {d} r) =
    let (h, k) = run c e d r in
    (
      record {
        counter = h.counter;
        keys = h.keys;
        no_zero = h.no_zero;
        bounded = h.bounded;
        closed = h.closed;
        quiet = h.quiet;
        both = h.both;
      },
      k,
    )
run _ _ _ (requests {c} {c'} {e} {d} p id r q) =
    let (h, k) = run c e d r in
    let (h', w) = request-Consistent c c' p id h q in (h', λ t. omega (arith, k t, w t))
run _ _ _ (pings {c} {c'} {e} {d} p id r q) =
    let (h, k) = run c e d r in
    let (h', w) = ping-Consistent c c' p id h q in (h', λ t. omega (arith, k t, w t))
run _ _ _ (withdraws {c} {e} {d} id r) =
    let (h, k) = run c e d r in
    (
      withdraw-Consistent c id h,
      λ t. omega (
        arith,
        k t,
        erased-waiters t id c.pending h.keys,
        occurrences-append t (taken_out (find id c.pending)) d,
      ),
    )
run _ _ _ (receives {c} {c'} {e} {d} p id opcode r q) =
    let (h, k) = run c e d r in
    let (h', w) = received-Kept c c' p id opcode h q in (h', λ t. omega (arith, k t, w t))
run _ _ _ (fails {c} {e} {d} r) =
    let (h, k) = run c e d r in
    (
      fail_all-Consistent c h,
      λ t. omega (arith, k t, failed-waiters c t, occurrences-append t (fail_all c).1 d),
    )

-- In every state that a connection comes to, at most 1024 requests and the heartbeat are pending, no two
-- under one id; and after a failure nothing is pending, counted or awaited any more.
pub pending_bounded :
    (c : Connection) (e d : List ℕ)
    → Run c e d
    → (length c.pending ≤ max_pending + heartbeats c)
      × IsMap c.pending
      × (c.failed ≡ true → (c.pending ≡ []) × (c.application_pending ≡ 0) × (c.heartbeat_id ≡ 0))
pending_bounded c e d r =
    let (h, k) = run c e d r in
    (h.bounded, h.keys, λ f. let (z, b) = h.quiet f in (h.closed f, z, b))

-- No caller is lost and none is woken twice: a waiter that was entered is still pending or has been
-- woken or taken out by a withdrawal, as often as it was entered. After a failure all have been.
pub waiters_accounted :
    (c : Connection) (e d : List ℕ) (t : ℕ)
    → Run c e d
    → (occurrences t e ≡ occurrences t (waiters c.pending) + occurrences t d)
      × (c.failed ≡ true → occurrences t e ≡ occurrences t d)
waiters_accounted c e d t r =
    let (h, k) = run c e d r in
    (k t, λ f. omega (arith, k t, ap (λ m. occurrences t (waiters m)) (h.closed f)))

-- A reply goes to the waiter that was entered under its id, only if it has the opcode of that
-- request, and no other entry is touched.
receive_lem :
    (c c' : Connection) (p : Pending) (id opcode j : ℕ)
    → receive c id opcode ≡ some (p, c')
    → (find id c.pending ≡ some p)
      × (id ≢ 0)
      × (opcode ≡ p.opcode)
      × (find j c'.pending ≡ (if j == id then none else find j c.pending))
unfolding receive
receive_lem c c' p id opcode j e =
    let (f, nz, same_opcode, same) = receive-cases c c' p id opcode (find id c.pending) e in
    (f, nz, same_opcode, ap (λ u. find j u.pending) (sym same) ∙ find-erase j id c.pending)
