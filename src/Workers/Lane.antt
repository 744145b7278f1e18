-- ===== src/Workers/Lane.antt =====
-- server/session.cpp, `RequestWorkers`: the invariant of one lane, and `stop`.
use vulkan_remote.Base.{
  ℕ, ◌+◌, ◌≤◌, ◌≡◌, refl, sym, ◌∙◌, inl, inr, true, false, List, [], ◌++◌, arith,
}
use vulkan_remote.Base.Tests.{if◌then◌else◌, Bool-cases, if_true, if_false}
use vulkan_remote.Base.Lists.{All}
use vulkan_remote.Base.Maps.{find}
use vulkan_remote.Workers.{Job, Workers, member, queue_of, stop, new_workers}
use vulkan_remote.Workers.Queues.{of_lane, count}

abbrev pub is_active : ℕ → Workers → ℕ
is_active l w = if member l w.active_lanes then 1 else 0

-- What holds of a lane in every state: `dropped` are its jobs that `stop` threw away.
pub record Lane (l : ℕ) (w : Workers) (a s : List Job) : Type 0 where
  pub one : count l w.running + count l w.jobs ≤ is_active l w
  pub busy : w.stopping ≡ false → is_active l w ≤ count l w.running + count l w.jobs
  pub idle : member l w.active_lanes ≡ false → queue_of l w.lane_jobs ≡ []
  pub homed : All (λ j. j.lane ≡ l) (queue_of l w.lane_jobs)
  pub dropped : List Job
  pub order : of_lane l a ≡ of_lane l s ++ (of_lane l w.jobs ++ (queue_of l w.lane_jobs ++ dropped))
  pub kept : w.stopping ≡ false → dropped ≡ []

pub new_workers-Lane : (l count : ℕ) → Lane l (new_workers count) [] []
unfolding count of_lane find member
new_workers-Lane l count = record {
  one = omega arith;
  busy = λ e. omega arith;
  idle = λ e. refl;
  homed = tt;
  dropped = [];
  order = refl;
  kept = λ e. refl;
}

stopping-Lane :
    (l : ℕ) (w : Workers) (a s : List Job)
    → Lane l w a s
    → Lane l (record w { stopping = true; jobs = []; lane_jobs = [] }) a s
unfolding count of_lane find
stopping-Lane l w a s h = record {
  one = omega (arith, h.one);
  busy = λ e. ground (arith, e);
  idle = λ e. refl;
  homed = tt;
  dropped = of_lane l w.jobs ++ (queue_of l w.lane_jobs ++ h.dropped);
  order = h.order;
  kept = λ e. ground (arith, e);
}

pub stop-Lane : (l : ℕ) (w : Workers) (a s : List Job) → Lane l w a s → Lane l (stop w) a s
unfolding stop
stop-Lane l w a s h = elim (Bool-cases w.stopping) [
  | inl e ↦ rw (if_true _ _ e) h
  | inr e ↦ rw (if_false _ _ e) (stopping-Lane l w a s h)
]

-- A step that leaves alone what concerns the lane.
pub record Same (l : ℕ) (w w' : Workers) (a a' s s' : List Job) : Type 0 where
  pub running : count l w'.running ≡ count l w.running
  pub jobs : of_lane l w'.jobs ≡ of_lane l w.jobs
  pub active : member l w'.active_lanes ≡ member l w.active_lanes
  pub queue : queue_of l w'.lane_jobs ≡ queue_of l w.lane_jobs
  pub accepted : of_lane l a' ≡ of_lane l a
  pub started : of_lane l s' ≡ of_lane l s
  pub stopping : w'.stopping ≡ w.stopping

pub Same-Lane :
    (l : ℕ) (w w' : Workers) (a a' s s' : List Job)
    → Same l w w' a a' s s'
    → Lane l w a s
    → Lane l w' a' s'
unfolding count
Same-Lane l w w' a a' s s' e h = record {
  one = rw (e.running, e.jobs, e.active) h.one;
  busy = λ u. rw (e.running, e.jobs, e.active) (h.busy (sym e.stopping ∙ u));
  idle = λ u. e.queue ∙ h.idle (sym e.active ∙ u);
  homed = rw e.queue h.homed;
  dropped = h.dropped;
  order = rw (e.jobs, e.queue, e.accepted, e.started) h.order;
  kept = λ u. h.kept (sym e.stopping ∙ u);
}
