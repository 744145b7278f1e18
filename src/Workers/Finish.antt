-- ===== src/Workers/Finish.antt =====
-- server/session.cpp, `RequestWorkers`: the end of a job keeps a lane's invariant.
use vulkan_remote.Base.{
  ℕ, ◌+◌, ◌≡◌, ◌≢◌, refl, sym, ap, ◌∙◌, inl, inr, true, false, List, [], ◌∷◌, ◌++◌, arith,
}
use vulkan_remote.Base.Tests.{◌==◌, equal_or_not, if_true, if_false}
use vulkan_remote.Base.Lists.{All}
use vulkan_remote.Base.Maps.{insert, erase}
use vulkan_remote.Workers.{Job, Workers, member, remove, queue_of, next_in_lane, finish}
use vulkan_remote.Workers.Queues.{
  of_lane, count, count-append, count-cons, member-remove, queue_of-insert, queue_of-erase,
  queue_of-insert_self, of_lane_other, next_order, count_end,
}
use vulkan_remote.Workers.Lane.{Lane, Same, Same-Lane}

-- A job of another lane ends.
next_in_lane-Same :
    (l : ℕ) (w : Workers) (a s queue : List Job) (k : ℕ)
    → k ≢ l
    → All (λ j. j.lane ≡ k) queue
    → Same l w (next_in_lane w k queue) a a s s
next_in_lane-Same l w a s [] k ne h = record {
  running = refl;
  jobs = refl;
  active = ground (arith, member-remove l k w.active_lanes);
  queue = refl;
  accepted = refl;
  started = refl;
  stopping = refl;
}
next_in_lane-Same l w a s (x ∷ []) k ne (e, h) = record {
  running = refl;
  jobs = of_lane_other l w.jobs x (λ u. ne (sym e ∙ u));
  active = refl;
  queue = ground (arith, queue_of-erase l k w.lane_jobs);
  accepted = refl;
  started = refl;
  stopping = refl;
}
next_in_lane-Same l w a s (x ∷ y ∷ queue) k ne (e, h) = record {
  running = refl;
  jobs = of_lane_other l w.jobs x (λ u. ne (sym e ∙ u));
  active = refl;
  queue = ground (arith, queue_of-insert l k (y ∷ queue) w.lane_jobs);
  accepted = refl;
  started = refl;
  stopping = refl;
}

-- A state in which the thread that ran a job of lane `l` has not looked at the lane yet.
pub record Between (l : ℕ) (w : Workers) (a s queue : List Job) : Type 0 where
  pub one : count l w.running + count l w.jobs ≡ 0
  pub on : member l w.active_lanes ≡ true
  pub waits : queue_of l w.lane_jobs ≡ queue
  pub homed : All (λ j. j.lane ≡ l) queue
  pub dropped : List Job
  pub order : of_lane l a ≡ of_lane l s ++ (of_lane l w.jobs ++ (queue ++ dropped))
  pub kept : w.stopping ≡ false → dropped ≡ []

next_in_lane-Lane :
    (l : ℕ) (w : Workers) (a s queue : List Job)
    → Between l w a s queue
    → Lane l (next_in_lane w l queue) a s
unfolding member
next_in_lane-Lane l w a s [] h = record {
  one = ground (arith, h.one, member-remove l l w.active_lanes);
  busy = λ u. ground (arith, h.one, member-remove l l w.active_lanes);
  idle = λ u. h.waits;
  homed = rw h.waits tt;
  dropped = h.dropped;
  order = rw h.waits h.order;
  kept = h.kept;
}
next_in_lane-Lane l w a s (x ∷ []) h =
    let empty : queue_of l (erase l w.lane_jobs) ≡ [] =
      ground (arith, queue_of-erase l l w.lane_jobs) in
    record {
      one = ground (arith, h.one, count_end l w.jobs x, h.on, h.homed);
      busy = λ u. ground (arith, h.one, count_end l w.jobs x, h.on, h.homed);
      idle = λ u. empty;
      homed = rw empty tt;
      dropped = h.dropped;
      order = rw empty (next_order l a w.jobs _ [] h.dropped x h.order h.homed.0);
      kept = h.kept;
    }
next_in_lane-Lane l w a s (x ∷ y ∷ queue) h =
    let rest : queue_of l (insert l (y ∷ queue) w.lane_jobs) ≡ y ∷ queue =
      queue_of-insert_self l (y ∷ queue) w.lane_jobs in
    record {
      one = ground (arith, h.one, count_end l w.jobs x, h.on, h.homed);
      busy = λ u. ground (arith, h.one, count_end l w.jobs x, h.on, h.homed);
      idle = λ u. ground (arith, h.on, u);
      homed = rw rest h.homed.1;
      dropped = h.dropped;
      order = rw rest (next_order l a w.jobs _ (y ∷ queue) h.dropped x h.order h.homed.0);
      kept = h.kept;
    }

lane-Between :
    (l : ℕ) (w : Workers) (a s before after : List Job) (job : Job)
    → job.lane ≡ l
    → w.running ≡ before ++ (job ∷ after)
    → Lane l w a s
    → (ids : List ℕ)
    → Between l
        (record w { active_ids = ids; running = before ++ after })
        a
        s
        (queue_of l w.lane_jobs)
lane-Between l w a s before after job e r h ids =
    let all : count l w.running ≡ count l before + (1 + count l after) =
      ground (arith, ap (count l) r, count-append l before (job ∷ after), count-cons l job after) in
    let fewer = count-append l before after in
    record {
      one = ground (arith, h.one);
      on = ground (arith, h.one);
      waits = refl;
      homed = h.homed;
      dropped = h.dropped;
      order = h.order;
      kept = h.kept;
    }

pub finish_cases :
    (w : Workers) (job : Job) (others : List Job)
    → job.lane ≢ 0
    → finish w job others
      ≡ next_in_lane
          (record w { active_ids = remove job.request_id w.active_ids; running = others })
          job.lane
          (queue_of job.lane w.lane_jobs)
unfolding finish
finish_cases w job others nz = if_false {c = job.lane == 0} _ _ (ground arith)

pub finish_free :
    (w : Workers) (job : Job) (others : List Job)
    → job.lane ≡ 0
    → finish w job others
      ≡ record w { active_ids = remove job.request_id w.active_ids; running = others }
unfolding finish
finish_free w job others z = if_true {c = job.lane == 0} _ _ (ground (arith, z))

removed-Same :
    (l : ℕ) (w : Workers) (a s before after : List Job) (job : Job) (ids : List ℕ)
    → job.lane ≢ l
    → w.running ≡ before ++ (job ∷ after)
    → Same l w (record w { active_ids = ids; running = before ++ after }) a a s s
removed-Same l w a s before after job ids ne r = record {
  running = ground (
    arith,
    ap (count l) r,
    count-append l before (job ∷ after),
    count-cons l job after,
    count-append l before after,
  );
  jobs = refl;
  active = refl;
  queue = refl;
  accepted = refl;
  started = refl;
  stopping = refl;
}

pub finish-Lane :
    (w : Workers) (a s before after : List Job) (job : Job)
    → w.running ≡ before ++ (job ∷ after)
    → ((l : ℕ) → l ≢ 0 → Lane l w a s)
    → (l : ℕ) → l ≢ 0
    → Lane l (finish w job (before ++ after)) a s
finish-Lane w a s before after job r h l nz =
    let ids = remove job.request_id w.active_ids in
    let u : Workers = record w { active_ids = ids; running = before ++ after } in
    elim (equal_or_not job.lane 0) [
      | inl z ↦ rw (finish_free w job (before ++ after) z) (
          Same-Lane l w u a a s s
            (removed-Same l w a s before after job ids (λ e. nz (sym e ∙ z)) r) (h l nz))
      | inr jz ↦ rw (finish_cases w job (before ++ after) jz) (elim (equal_or_not job.lane l) [
        | inl e ↦ rw e (
            next_in_lane-Lane l u a s (queue_of l w.lane_jobs)
              (lane-Between l w a s before after job e r (h l nz) ids))
        | inr ne ↦
            Same-Lane l u _ a a s s
              (next_in_lane-Same l u a s (queue_of job.lane w.lane_jobs) job.lane ne
                (h job.lane jz).homed)
              (Same-Lane l w u a a s s (removed-Same l w a s before after job ids ne r) (h l nz))
      ])
    ]
