-- ===== src/Workers/Submit.antt =====
-- server/session.cpp, `RequestWorkers`: `submit` and the start of a job keep a lane's invariant.
use vulkan_remote.Base.{
  ℕ, ◌≡◌, ◌≢◌, refl, sym, ap, ◌∙◌, subst, inl, inr, true, false, ◌||◌, some, List, [], ◌∷◌, ◌++◌,
  arith,
}
use vulkan_remote.Base.Tests.{leb, if◌then◌else◌, Bool-cases, equal_or_not, if_true, if_false}
use vulkan_remote.Base.Lists.{length, All-append}
use vulkan_remote.Base.Maps.{insert}
use vulkan_remote.Workers.{
  Job, Workers, member, queue_of, queue_job, refuses, admitted, submit, take_front, start,
}
use vulkan_remote.Workers.Queues.{
  of_lane, count, count-cons, queue_of-insert, queue_of-insert_self, of_lane_other, ready_order,
  waiting_order, of_lane_one, count_end, start_order,
}
use vulkan_remote.Workers.Lane.{Lane, Same, Same-Lane}

ready-Lane :
    (l : ℕ) (w : Workers) (a s : List Job) (job : Job)
    → w.stopping ≡ false
    → Lane l w a s
    → job.lane ≡ l
    → member l w.active_lanes ≡ false
    → Lane l
        (record w { active_lanes = l ∷ w.active_lanes; jobs = w.jobs ++ (job ∷ []) })
        (a ++ (job ∷ []))
        s
unfolding member
ready-Lane l w a s job live h e off = record {
  one = ground (arith, count_end l w.jobs job, h.one);
  busy = λ _. ground (arith, count_end l w.jobs job);
  idle = λ u. ground (arith, u);
  homed = h.homed;
  dropped = h.dropped;
  order = ready_order l a w.jobs (job ∷ []) _ _ h.dropped h.order (h.idle off) (h.kept live);
  kept = h.kept;
}

waiting-Lane :
    (l : ℕ) (w : Workers) (a s : List Job) (job : Job)
    → w.stopping ≡ false
    → Lane l w a s
    → job.lane ≡ l
    → member l w.active_lanes ≡ true
    → Lane l
        (record w { lane_jobs = insert l (queue_of l w.lane_jobs ++ (job ∷ [])) w.lane_jobs })
        (a ++ (job ∷ []))
        s
waiting-Lane l w a s job live h e on = record {
  one = h.one;
  busy = h.busy;
  idle = λ u. ground (arith, u, on);
  homed =
      rw (queue_of-insert_self l (queue_of l w.lane_jobs ++ (job ∷ [])) w.lane_jobs)
        (All-append _ (queue_of l w.lane_jobs) (job ∷ []) h.homed (e, tt));
  dropped = h.dropped;
  order = rw (queue_of-insert_self l (queue_of l w.lane_jobs ++ (job ∷ [])) w.lane_jobs) (
      waiting_order l a (job ∷ []) (of_lane l s) (of_lane l w.jobs) (queue_of l w.lane_jobs)
        h.dropped h.order (of_lane_one l job e) (h.kept live));
  kept = h.kept;
}

queue_job-ready :
    (w : Workers) (job : Job)
    → job.lane ≢ 0
    → member job.lane w.active_lanes ≡ false
    → queue_job w job
      ≡ record w { active_lanes = job.lane ∷ w.active_lanes; jobs = w.jobs ++ (job ∷ []) }
unfolding queue_job
queue_job-ready w job nz off = ground (arith, off)

queue_job-waiting :
    (w : Workers) (job : Job)
    → job.lane ≢ 0
    → member job.lane w.active_lanes ≡ true
    → queue_job w job ≡ record w {
      lane_jobs = insert job.lane (queue_of job.lane w.lane_jobs ++ (job ∷ [])) w.lane_jobs;
    }
unfolding queue_job
queue_job-waiting w job nz on = ground (arith, on)

queue_job-Lane_own :
    (w : Workers) (a s : List Job) (job : Job)
    → job.lane ≢ 0
    → w.stopping ≡ false
    → Lane job.lane w a s
    → Lane job.lane (queue_job w job) (a ++ (job ∷ [])) s
queue_job-Lane_own w a s job nz live h = elim (Bool-cases (member job.lane w.active_lanes)) [
  | inl on ↦ rw (queue_job-waiting w job nz on) (waiting-Lane job.lane w a s job live h refl on)
  | inr off ↦ rw (queue_job-ready w job nz off) (ready-Lane job.lane w a s job live h refl off)
]

queue_job-Same :
    (l : ℕ) (w : Workers) (a s : List Job) (job : Job)
    → job.lane ≢ l
    → Same l w (queue_job w job) a (a ++ (job ∷ [])) s s
unfolding queue_job member
queue_job-Same l w a s job ne = record {
  running = ground arith;
  jobs = ground (arith, of_lane_other l w.jobs job ne);
  active = ground arith;
  queue =
      ground (
        arith,
        queue_of-insert l job.lane (queue_of job.lane w.lane_jobs ++ (job ∷ [])) w.lane_jobs,
      );
  accepted = of_lane_other l a job ne;
  started = refl;
  stopping = ground arith;
}

queue_job-Lane :
    (l : ℕ) (w : Workers) (a s : List Job) (job : Job)
    → l ≢ 0
    → w.stopping ≡ false
    → Lane l w a s
    → Lane l (queue_job w job) (a ++ (job ∷ [])) s
queue_job-Lane l w a s job nz live h = elim (equal_or_not job.lane l) [
  | inl e ↦
      subst (λ k. k ≢ 0 → Lane k w a s → Lane k (queue_job w job) (a ++ (job ∷ [])) s) e
        (λ nk hk. queue_job-Lane_own w a s job nk live hk) nz h
  | inr ne ↦ Same-Lane l w _ a _ s s (queue_job-Same l w a s job ne) h
]

pub submit_refused : (w : Workers) (job : Job) → refuses w job ≡ true → submit w job ≡ (false, w)
unfolding submit
submit_refused w job e = if_true _ _ e

pub submit_accepts :
    (w : Workers) (job : Job)
    → refuses w job ≡ false
    → submit w job ≡ (true, queue_job (admitted w job) job)
unfolding submit
submit_accepts w job e = if_false _ _ e

pub submit-Lane :
    (l : ℕ) (w : Workers) (a s : List Job) (job : Job)
    → l ≢ 0
    → Lane l w a s
    → Lane l (submit w job).1 (if (submit w job).0 then a ++ (job ∷ []) else a) s
submit-Lane l w a s job nz h = elim (Bool-cases (refuses w job)) [
  | inl e ↦ rw (submit_refused w job e) h
  | inr e ↦ rw (submit_accepts w job e) (
      queue_job-Lane l (admitted w job) a s job nz (ground (arith, e)) (
        Same-Lane l w _ a a s s
          (record {
            running = refl;
            jobs = refl;
            active = refl;
            queue = refl;
            accepted = refl;
            started = refl;
            stopping = refl;
          })
          h))
]

take_front-Lane :
    (l : ℕ) (w w' : Workers) (a s jobs : List Job) (job : Job)
    → w.jobs ≡ jobs
    → Lane l w a s
    → take_front w jobs ≡ some (job, w')
    → Lane l w' a (s ++ (job ∷ []))
take_front-Lane l w w' a s [] job e h q = ground (arith, q)
take_front-Lane l w w' a s (x ∷ jobs) job e h q =
    let same : x ≡ job = ground (arith, q) in
    let after : record w { jobs = jobs; running = x ∷ w.running } ≡ w' = ground (arith, q) in
    subst (λ u. Lane l u a (s ++ (job ∷ []))) after
      (rw (← same) (record {
        one = ground (arith, h.one, count-cons l x w.running, count-cons l x jobs, ap (count l) e);
        busy = λ u.
            ground (arith, h.busy u, count-cons l x w.running, count-cons l x jobs, ap (count l) e);
        idle = h.idle;
        homed = h.homed;
        dropped = h.dropped;
        order =
            h.order
            ∙ (ap (λ j. of_lane l s ++ (of_lane l j ++ (queue_of l w.lane_jobs ++ h.dropped))) e
                ∙ start_order l jobs s x (queue_of l w.lane_jobs ++ h.dropped));
        kept = h.kept;
      }))

pub start-Lane :
    (l : ℕ) (w w' : Workers) (a s : List Job) (job : Job)
    → Lane l w a s
    → start w ≡ some (job, w')
    → Lane l w' a (s ++ (job ∷ []))
unfolding start
start-Lane l w w' a s job h q = elim (Bool-cases (w.stopping || leb w.threads (length w.running))) [
  | inl e ↦ ground (arith, e, q)
  | inr e ↦ take_front-Lane l w w' a s w.jobs job refl h (sym (if_false _ _ e) ∙ q)
]
