-- ===== src/Workers/Lanes.antt =====
-- server/session.cpp, `RequestWorkers`: what holds of a lane in every state that the pool comes to.
use vulkan_remote.Base.{ℕ, ◌+◌, ◌≤◌, ◌≡◌, ◌≢◌, inl, inr, false, List, [], ◌++◌, arith}
use vulkan_remote.Base.Tests.{Bool-cases}
use vulkan_remote.Workers.{
  Job, Workers, member, queue_of, Run, begin, submits, starts, finishes, stops,
}
use vulkan_remote.Workers.Queues.{of_lane, count}
use vulkan_remote.Workers.Lane.{Lane, new_workers-Lane, stop-Lane}
use vulkan_remote.Workers.Submit.{submit-Lane, start-Lane}
use vulkan_remote.Workers.Finish.{finish-Lane}

Run-Lane : (n : ℕ) (w : Workers) (a s : List Job) → Run n w a s → (l : ℕ) → l ≢ 0 → Lane l w a s
Run-Lane n _ _ _ begin l nz = new_workers-Lane l n
Run-Lane n _ _ _ (submits {w} {a} {s} job r) l nz =
    submit-Lane l w a s job nz (Run-Lane n w a s r l nz)
Run-Lane n _ _ _ (starts {w} {w'} {a} {s} {job} r e) l nz =
    start-Lane l w w' a s job (Run-Lane n w a s r l nz) e
Run-Lane n _ _ _ (finishes {w} {a} {s} before job after r e) l nz =
    finish-Lane w a s before after job e (λ k kz. Run-Lane n w a s r k kz) l nz
Run-Lane n _ _ _ (stops {w} {a} {s} r) l nz = stop-Lane l w a s (Run-Lane n w a s r l nz)

-- Two jobs of one lane never run at the same time, and the next one is not even ready while one
-- runs, in every state that the pool comes to.
pub lane_exclusive :
    (n : ℕ) (w : Workers) (a s : List Job) (l : ℕ)
    → Run n w a s
    → l ≢ 0
    → count l w.running + count l w.jobs ≤ 1
lane_exclusive n w a s l r nz = ground (arith, (Run-Lane n w a s r l nz).one)

-- The jobs of a lane are started in the order in which they were submitted and none is skipped: the
-- jobs that were accepted are those that were started, then those that are ready, then those that
-- wait, then those that were dropped, and none is dropped before `stop`.
pub lane_in_order :
    (n : ℕ) (w : Workers) (a s : List Job) (l : ℕ)
    → Run n w a s
    → l ≢ 0
    → (dropped : List Job) × (of_lane l a
        ≡ of_lane l s ++ (of_lane l w.jobs ++ (queue_of l w.lane_jobs ++ dropped)))
      × (w.stopping ≡ false → dropped ≡ [])
lane_in_order n w a s l r nz = let h = Run-Lane n w a s r l nz in (h.dropped, h.order, h.kept)

-- A lane that has waiting jobs has a job that runs or is ready, unless the pool was stopped: no job
-- is left behind.
pub lane_progress :
    (n : ℕ) (w : Workers) (a s : List Job) (l : ℕ)
    → Run n w a s
    → l ≢ 0
    → w.stopping ≡ false
    → queue_of l w.lane_jobs ≢ []
    → count l w.running + count l w.jobs ≡ 1
lane_progress n w a s l r nz live some_wait =
    let h = Run-Lane n w a s r l nz in
    elim (Bool-cases (member l w.active_lanes)) [
      | inl on ↦ ground (arith, h.one, h.busy live, on)
      | inr off ↦ absurd (some_wait (h.idle off))
    ]
