-- ===== src/Connection/Enter.antt =====
-- client/remote_objects.cpp: the critical sections that enter a request or a heartbeat.
use vulkan_remote.Base.{
  ℕ, ◌+◌, ◌^◌, ◌<◌, ◌≡◌, ◌≢◌, sym, ap, ◌∙◌, subst, inl, inr, true, false, not, ◌||◌, Option, none,
  some, List, arith,
}
use vulkan_remote.Base.Tests.{leb, ◌==◌, if◌then◌else◌, Bool-cases, if_true, if_false}
use vulkan_remote.Base.Lists.{length}
use vulkan_remote.Base.Maps.{find, insert, find-insert, erase-none}
use vulkan_remote.Connection.{
  Pending, Connection, max_pending, add_pending, enroll, count_request, begin_request,
  mark_heartbeat, begin_ping, waiters,
}
use vulkan_remote.Connection.Entries.{IsMap, occurrences}
use vulkan_remote.Connection.RequestIds.{next_id_total}
use vulkan_remote.Connection.State.{Consistent}

-- An entry more, under an id that is free.
added-IsMap :
    (id : ℕ) (p : Pending) (m : List (ℕ × Pending))
    → find id m ≡ none
    → IsMap m
    → IsMap (insert id p m)
unfolding insert IsMap
added-IsMap id p m f h = rw (erase-none id m f) (f, h)

added-length :
    (id : ℕ) (p : Pending) (m : List (ℕ × Pending))
    → find id m ≡ none
    → length (insert id p m) ≡ length m + 1
unfolding insert
added-length id p m f = omega (arith, ap length (erase-none id m f))

added-waiters :
    (t id : ℕ) (p : Pending) (m : List (ℕ × Pending))
    → find id m ≡ none
    → occurrences t (waiters (insert id p m))
      ≡ (if t == p.waiter then 1 else 0) + occurrences t (waiters m)
unfolding insert
added-waiters t id p m f = omega (arith, ap (λ n. occurrences t (waiters n)) (erase-none id m f))

-- What the state is after an entry was added under a free id.
abbrev pub entered : Connection → Pending → ℕ → ℕ → Connection
entered c p id next = record c { pending = insert id p c.pending; next_request_id = next }

pub record Entry (c : Connection) (p : Pending) (id next : ℕ) : Type 0 where
  pub fits : next < 2 ^ 64
  pub nonzero : id ≢ 0
  pub free : find id c.pending ≡ none

enroll-Entry :
    (c : Connection) (p : Pending)
    → Consistent c
    → (id : ℕ) × (next : ℕ) × (enroll c p ≡ some (id, entered c p id next)) × Entry c p id next
unfolding enroll
enroll-Entry c p h =
    let (id, next, found, nz, free, small, fits) =
      next_id_total c.next_request_id c.pending h.counter (ground (arith, h.bounded)) in
    (id, next, ap (add_pending c p) found, record { fits = fits; nonzero = nz; free = free })

some_pair :
    (k id : ℕ) (a b : Connection)
    → ◌≡◌ {A = Option (ℕ × Connection)} (some (k, a)) (some (id, b))
    → (k ≡ id) × (a ≡ b)
some_pair k id a b e = (ground (arith, e), ground (arith, e))

begin_request-open :
    (c : Connection) (p : Pending)
    → (c.failed || leb max_pending (length c.pending)) ≡ false
    → begin_request c p ≡ count_request (enroll c p)
unfolding begin_request
begin_request-open c p g = if_false _ _ g

begin_request-shut :
    (c : Connection) (p : Pending)
    → (c.failed || leb max_pending (length c.pending)) ≡ true
    → begin_request c p ≡ none
unfolding begin_request
begin_request-shut c p g = if_true _ _ g

request_entered-Consistent :
    (c : Connection) (p : Pending) (id next : ℕ)
    → Consistent c
    → (c.failed || leb max_pending (length c.pending)) ≡ false
    → Entry c p id next
    → Consistent (record (entered c p id next) { application_pending = c.application_pending + 1 })
request_entered-Consistent c p id next h g en = record {
  counter = en.fits;
  keys = added-IsMap id p c.pending en.free h.keys;
  no_zero = ground (arith, find-insert 0 id p c.pending, en.nonzero, h.no_zero);
  bounded = ground (arith, added-length id p c.pending en.free, g);
  closed = λ e. ground (arith, e, g);
  quiet = λ e. ground (arith, e, g);
  both = h.both;
}

pub request-Consistent :
    (c c' : Connection) (p : Pending) (id : ℕ)
    → Consistent c
    → begin_request c p ≡ some (id, c')
    → Consistent c'
      × ((t : ℕ)
          → occurrences t (waiters c'.pending)
            ≡ (if t == p.waiter then 1 else 0) + occurrences t (waiters c.pending))
request-Consistent c c' p id h e =
    let (k, next, r, en) = enroll-Entry c p h in
    elim (Bool-cases (c.failed || leb max_pending (length c.pending))) [
      | inl g ↦ ground (arith, sym (begin_request-shut c p g) ∙ e)
      | inr g ↦
          let d : Connection = record (entered c p k next) {
            application_pending = c.application_pending + 1;
          } in
          let q = sym (begin_request-open c p g ∙ ap count_request r) ∙ e in
          let same = (some_pair k id d c' q).1 in
          (
            subst Consistent same (request_entered-Consistent c p k next h g en),
            λ t.
                ap (λ u. occurrences t (waiters u.pending)) (sym same)
                ∙ added-waiters t k p c.pending en.free,
          )
    ]

begin_ping-open :
    (c : Connection) (p : Pending)
    → ((c.stopping || c.failed) || (not (c.heartbeat_id == 0) || c.application_pending == 0))
      ≡ false
    → begin_ping c p ≡ mark_heartbeat (enroll c p)
unfolding begin_ping
begin_ping-open c p g = if_false _ _ g

begin_ping-shut :
    (c : Connection) (p : Pending)
    → ((c.stopping || c.failed) || (not (c.heartbeat_id == 0) || c.application_pending == 0)) ≡ true
    → begin_ping c p ≡ none
unfolding begin_ping
begin_ping-shut c p g = if_true _ _ g

ping_entered-Consistent :
    (c : Connection) (p : Pending) (id next : ℕ)
    → Consistent c
    → ((c.stopping || c.failed) || (not (c.heartbeat_id == 0) || c.application_pending == 0))
      ≡ false
    → Entry c p id next
    → Consistent (record (entered c p id next) { heartbeat_id = id })
ping_entered-Consistent c p id next h g en = record {
  counter = en.fits;
  keys = added-IsMap id p c.pending en.free h.keys;
  no_zero = ground (arith, find-insert 0 id p c.pending, en.nonzero, h.no_zero);
  bounded = ground (arith, added-length id p c.pending en.free, h.bounded, g, en.nonzero);
  closed = λ e. ground (arith, e, g);
  quiet = λ e. ground (arith, e, g);
  both = h.both;
}

pub ping-Consistent :
    (c c' : Connection) (p : Pending) (id : ℕ)
    → Consistent c
    → begin_ping c p ≡ some (id, c')
    → Consistent c'
      × ((t : ℕ)
          → occurrences t (waiters c'.pending)
            ≡ (if t == p.waiter then 1 else 0) + occurrences t (waiters c.pending))
ping-Consistent c c' p id h e =
    let (k, next, r, en) = enroll-Entry c p h in
    elim (Bool-cases
      ((c.stopping || c.failed) || (not (c.heartbeat_id == 0) || c.application_pending == 0))) [
        | inl g ↦ ground (arith, sym (begin_ping-shut c p g) ∙ e)
        | inr g ↦
            let d : Connection = record (entered c p k next) { heartbeat_id = k } in
            let q = sym (begin_ping-open c p g ∙ ap mark_heartbeat r) ∙ e in
            let same = (some_pair k id d c' q).1 in
            (
              subst Consistent same (ping_entered-Consistent c p k next h g en),
              λ t.
                  ap (λ u. occurrences t (waiters u.pending)) (sym same)
                  ∙ added-waiters t k p c.pending en.free,
            )
      ]
