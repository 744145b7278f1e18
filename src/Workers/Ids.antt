-- ===== src/Workers/Ids.antt =====
-- server/session.cpp, `RequestWorkers`: the ids of the requests in flight, and how many there are.
use vulkan_remote.Base.{
  ℕ, ◌+◌, ◌≤◌, ◌≡◌, refl, ◌⊎◌, inl, inr, true, false, some, List, [], ◌∷◌, ◌++◌, arith,
}
use vulkan_remote.Base.Tests.{◌==◌, if◌then◌else◌, Bool-cases}
use vulkan_remote.Base.Lists.{length}
use vulkan_remote.Workers.{
  Job, Workers, max_jobs, member, remove, queue_job, refuses, admitted, submit, start, finish,
  take_front, next_in_lane, queue_of, stop, Run, begin, submits, starts, finishes, stops,
}
use vulkan_remote.Workers.Queues.{member-remove}
use vulkan_remote.Workers.Submit.{submit_refused, submit_accepts}
use vulkan_remote.Workers.Weights.{
  held, weight, waiting, held-queue_job, held-start, held-finish, held-stop,
}

abbrev pub has_id : ℕ → Job → ℕ
has_id i job = if job.request_id == i then 1 else 0

abbrev pub one_each : Job → ℕ
one_each job = 1

abbrev is_taken : ℕ → List ℕ → ℕ
is_taken i ids = if member i ids then 1 else 0

length-remove : (i : ℕ) (ids : List ℕ) → length (remove i ids) ≤ length ids
unfolding remove
length-remove i [] = omega arith
length-remove i (x ∷ ids) = ground (arith, length-remove i ids)

-- No id is in the list twice.
abbrev IsDistinct : List ℕ → Type 0
IsDistinct [] = Unit
IsDistinct (x ∷ ids) = (member x ids ≡ false) × IsDistinct ids

remove-none : (i : ℕ) (ids : List ℕ) → member i ids ≡ false → length (remove i ids) ≡ length ids
unfolding remove member
remove-none i [] h = refl
remove-none i (x ∷ ids) h = ground (arith, remove-none i ids)

length-remove_distinct :
    (i : ℕ) (ids : List ℕ) → IsDistinct ids → length ids ≤ length (remove i ids) + 1
unfolding remove member
length-remove_distinct i [] d = omega arith
length-remove_distinct i (x ∷ ids) d =
    ground (arith, d, length-remove_distinct i ids d.1, remove-none i ids, remove-none x ids)

remove-IsDistinct : (i : ℕ) (ids : List ℕ) → IsDistinct ids → IsDistinct (remove i ids)
unfolding remove
remove-IsDistinct i [] d = tt
remove-IsDistinct i (x ∷ ids) (n, d) =
    ground (arith, n, member-remove x i ids, remove-IsDistinct i ids d)

record Tracked (w : Workers) : Type 0 where
  once : (i : ℕ) → held (has_id i) w ≤ is_taken i w.active_ids
  total : held one_each w ≤ length w.active_ids
  capacity : length w.active_ids ≤ max_jobs
  distinct : IsDistinct w.active_ids

queue_job-ids : (w : Workers) (job : Job) → (queue_job w job).active_ids ≡ w.active_ids
unfolding queue_job
queue_job-ids w job = ground arith

submit-Tracked : (w : Workers) (job : Job) → Tracked w → Tracked (submit w job).1
unfolding member
submit-Tracked w job h = elim (Bool-cases (refuses w job)) [
  | inl e ↦ rw (submit_refused w job e) h
  | inr e ↦
      let u = admitted w job in
      let ids = queue_job-ids u job in
      rw (submit_accepts w job e) (record {
        once = λ i. rw ids (ground (arith, h.once i, held-queue_job (has_id i) u job, e));
        total = rw ids (omega (arith, h.total, held-queue_job one_each u job));
        capacity = rw ids (ground (arith, e));
        distinct = rw ids (ground (arith, e), h.distinct);
      })
]

next_in_lane-ids :
    (w : Workers) (l : ℕ) (queue : List Job) → (next_in_lane w l queue).active_ids ≡ w.active_ids
next_in_lane-ids w l [] = refl
next_in_lane-ids w l (x ∷ []) = refl
next_in_lane-ids w l (x ∷ y ∷ queue) = refl

finish-ids :
    (w : Workers) (job : Job) (others : List Job)
    → (finish w job others).active_ids ≡ remove job.request_id w.active_ids
unfolding finish
finish-ids w job others =
    let u : Workers = record w {
      active_ids = remove job.request_id w.active_ids;
      running = others;
    } in
    ground (arith, next_in_lane-ids u job.lane (queue_of job.lane w.lane_jobs))

finish-Tracked :
    (w : Workers) (before after : List Job) (job : Job)
    → w.running ≡ before ++ (job ∷ after)
    → Tracked w
    → Tracked (finish w job (before ++ after))
finish-Tracked w before after job r h =
    let ids = finish-ids w job (before ++ after) in
    record {
      once = λ i. rw ids (
          ground (
            arith,
            h.once i,
            held-finish (has_id i) w before after job r,
            member-remove i job.request_id w.active_ids,
          ));
      total = rw ids (
          omega (
            arith,
            h.total,
            held-finish one_each w before after job r,
            length-remove_distinct job.request_id w.active_ids h.distinct,
          ));
      capacity = rw ids (omega (arith, h.capacity, length-remove job.request_id w.active_ids));
      distinct = rw ids (remove-IsDistinct job.request_id w.active_ids h.distinct);
    }

take_front-ids :
    (w w' : Workers) (jobs : List Job) (job : Job)
    → take_front w jobs ≡ some (job, w')
    → w'.active_ids ≡ w.active_ids
take_front-ids w w' [] job q = ground (arith, q)
take_front-ids w w' (x ∷ jobs) job q = ground (arith, q)

start-ids : (w w' : Workers) (job : Job) → start w ≡ some (job, w') → w'.active_ids ≡ w.active_ids
unfolding start
start-ids w w' job q = ground (arith, q, take_front-ids w w' w.jobs job)

start-Tracked : (w w' : Workers) (job : Job) → Tracked w → start w ≡ some (job, w') → Tracked w'
start-Tracked w w' job h q =
    let ids = start-ids w w' job q in
    record {
      once = λ i. rw (ids, held-start (has_id i) w w' job q) (h.once i);
      total = rw (ids, held-start one_each w w' job q) h.total;
      capacity = rw ids h.capacity;
      distinct = rw ids h.distinct;
    }

stop-ids : (w : Workers) → (stop w).active_ids ≡ w.active_ids
unfolding stop
stop-ids w = ground arith

stop-Tracked : (w : Workers) → Tracked w → Tracked (stop w)
stop-Tracked w h =
    let ids = stop-ids w in
    record {
      once = λ i. rw ids (omega (arith, h.once i, held-stop (has_id i) w));
      total = rw ids (omega (arith, h.total, held-stop one_each w));
      capacity = rw ids h.capacity;
      distinct = rw ids h.distinct;
    }

Run-Tracked : (n : ℕ) (w : Workers) (a s : List Job) → Run n w a s → Tracked w
unfolding member weight waiting
Run-Tracked n _ _ _ begin = record {
  once = λ i. omega arith;
  total = omega arith;
  capacity = omega arith;
  distinct = tt;
}
Run-Tracked n _ _ _ (submits {w} {a} {s} job r) = submit-Tracked w job (Run-Tracked n w a s r)
Run-Tracked n _ _ _ (starts {w} {w'} {a} {s} {job} r e) =
    start-Tracked w w' job (Run-Tracked n w a s r) e
Run-Tracked n _ _ _ (finishes {w} {a} {s} before job after r e) =
    finish-Tracked w before after job e (Run-Tracked n w a s r)
Run-Tracked n _ _ _ (stops {w} {a} {s} r) = stop-Tracked w (Run-Tracked n w a s r)

-- At most 64 jobs are held at a time, whether they run, are ready or wait, and no two of them have
-- the same request id, in every state that the pool comes to.
pub held_ids :
    (n : ℕ) (w : Workers) (a s : List Job) (i : ℕ)
    → Run n w a s
    → (held one_each w ≤ max_jobs) × (held (has_id i) w ≤ 1)
held_ids n w a s i r =
    let h = Run-Tracked n w a s r in (omega (arith, h.total, h.capacity), ground (arith, h.once i))

-- A request that is refused leaves the pool as it was, and a pool that was not stopped refuses one
-- only if its id is in use or 64 ids are.
submit_refuses :
    (w : Workers) (job : Job)
    → (submit w job).0 ≡ false
    → ((submit w job).1 ≡ w)
      × (w.stopping ≡ false
          → (member job.request_id w.active_ids ≡ true) ⊎ (max_jobs ≤ length w.active_ids))
unfolding submit
submit_refuses w job e = ground (arith, e)
