-- ===== src/Workers.antt =====
-- server/session.cpp: `RequestWorkers`, the pool of threads that runs requests. Each lane is served
-- in order, one request at a time; lane 0 is no lane. The state holds what `mutex_` protects, the
-- number of threads and the jobs that threads have taken and not finished. A step is one critical
-- section. A job's function is known by a number.
pub mod Queues
pub mod Lane
pub mod Submit
pub mod Finish
pub mod Lanes
pub mod Weights
pub mod Ids
mod Tests
use vulkan_remote.Base.{
  ℕ, ◌+◌, ◌<◌, ◌≡◌, Bool, true, false, not, ◌||◌, Option, none, some, List, [], ◌∷◌, ◌++◌,
}
use vulkan_remote.Base.Tests.{ltb, leb, ◌==◌, if◌then◌else◌}
use vulkan_remote.Base.Lists.{length}
use vulkan_remote.Base.Maps.{find, insert, erase}

pub record Job : Type 0 where
  pub request_id : ℕ
  pub lane : ℕ
  pub run : ℕ

pub record Workers : Type 0 where
  pub jobs : List Job
  pub lane_jobs : List (ℕ × List Job)
  pub active_lanes : List ℕ
  pub active_ids : List ℕ
  pub stopping : Bool
  pub threads : ℕ
  pub running : List Job

abbrev pub new_workers : ℕ → Workers
new_workers count = record {
  jobs = [];
  lane_jobs = [];
  active_lanes = [];
  active_ids = [];
  stopping = false;
  threads = count;
  running = [];
}

abbrev pub max_jobs : ℕ
max_jobs = 64

-- Sets of numbers: `count` and `erase` of a `std::unordered_set`.
unfoldable pub member : ℕ → List ℕ → Bool
member x [] = false
member x (y ∷ ys) = let rest = member x ys in if y == x then true else rest

unfoldable pub remove : ℕ → List ℕ → List ℕ
remove x [] = []
remove x (y ∷ ys) = let rest = remove x ys in if y == x then rest else y ∷ rest

abbrev pub or_empty : Option (List Job) → List Job
or_empty none = []
or_empty (some queue) = queue

abbrev pub queue_of : ℕ → List (ℕ × List Job) → List Job
queue_of lane m = or_empty (find lane m)

-- `submit` once the request is admitted.
unfoldable pub queue_job : Workers → Job → Workers
unfolding insert member
queue_job w job =
    if job.lane == 0 || not (member job.lane w.active_lanes)
    then record w {
      active_lanes = (if job.lane == 0 then w.active_lanes else job.lane ∷ w.active_lanes);
      jobs = w.jobs ++ (job ∷ []);
    }
    else record w {
      lane_jobs = insert job.lane (queue_of job.lane w.lane_jobs ++ (job ∷ [])) w.lane_jobs;
    }

abbrev pub refuses : Workers → Job → Bool
refuses w job =
    w.stopping || (member job.request_id w.active_ids || leb max_jobs (length w.active_ids))

abbrev pub admitted : Workers → Job → Workers
admitted w job = record w { active_ids = job.request_id ∷ w.active_ids }

unfoldable pub submit : Workers → Job → Bool × Workers
unfolding queue_job
submit w job = if refuses w job then (false, w) else (true, queue_job (admitted w job) job)

-- The first critical section of `run`: an idle thread takes the front job. There is none if it
-- waits or returns.
abbrev pub take_front : Workers → List Job → Option (Job × Workers)
take_front w [] = none
take_front w (job ∷ jobs) = some (job, record w { jobs = jobs; running = job ∷ w.running })

unfoldable pub start : Workers → Option (Job × Workers)
start w = if w.stopping || leb w.threads (length w.running) then none else take_front w w.jobs

-- What the end of a job makes of its lane, by the jobs that wait there.
abbrev pub next_in_lane : Workers → ℕ → List Job → Workers
next_in_lane w lane [] = record w { active_lanes = remove lane w.active_lanes }
next_in_lane w lane (job ∷ []) = record w {
  jobs = w.jobs ++ (job ∷ []);
  lane_jobs = erase lane w.lane_jobs;
}
next_in_lane w lane (job ∷ next ∷ queue) = record w {
  jobs = w.jobs ++ (job ∷ []);
  lane_jobs = insert lane (next ∷ queue) w.lane_jobs;
}

-- The second critical section of `run`, for the thread that ran `job` while `others` run on.
unfoldable pub finish : Workers → Job → List Job → Workers
unfolding remove insert
finish w job others =
    let w' : Workers = record w {
      active_ids = remove job.request_id w.active_ids;
      running = others;
    } in
    if job.lane == 0 then w' else next_in_lane w' job.lane (queue_of job.lane w.lane_jobs)

-- `stop` up to the join.
unfoldable pub stop : Workers → Workers
stop w = if w.stopping then w else record w { stopping = true; jobs = []; lane_jobs = [] }

-- `Run count w accepted started`: a pool of `count` threads came to the state `w`, the jobs
-- `accepted` were admitted and the jobs `started` were started, each in that order.
pub data Run (count : ℕ) : Workers → List Job → List Job → Type 0 where
  begin : Run count (new_workers count) [] []
  submits :
      {w : Workers} {a s : List Job} (job : Job)
      → Run count w a s
      → Run count (submit w job).1 (if (submit w job).0 then a ++ (job ∷ []) else a) s
  starts :
      {w w' : Workers} {a s : List Job} {job : Job}
      → Run count w a s
      → start w ≡ some (job, w')
      → Run count w' a (s ++ (job ∷ []))
  finishes :
      {w : Workers} {a s : List Job} (before : List Job) (job : Job) (after : List Job)
      → Run count w a s
      → w.running ≡ before ++ (job ∷ after)
      → Run count (finish w job (before ++ after)) a s
  stops : {w : Workers} {a s : List Job} → Run count w a s → Run count (stop w) a s
