-- ===== src/Workers/Tests.antt =====
-- server/session.cpp, `RequestWorkers`: a run of a pool of two threads, and the theorems at it.
use vulkan_remote.Base.{◌+◌, ◌≤◌, ◌≡◌, ◌≢◌, refl, false, List, [], ◌∷◌, ◌++◌, arith}
use vulkan_remote.Base.Maps.{find, insert, erase}
use vulkan_remote.Workers.{
  Job, Workers, member, remove, queue_of, submit, start, finish, queue_job, Run, begin, submits,
  starts,
}
use vulkan_remote.Workers.Queues.{of_lane, count}
use vulkan_remote.Workers.Lanes.{lane_exclusive, lane_in_order, lane_progress}
use vulkan_remote.Workers.Weights.{held}
use vulkan_remote.Workers.Ids.{has_id, one_each, held_ids}

abbrev first : Job
first = record { request_id = 10; lane = 5; run = 1 }

abbrev second : Job
second = record { request_id = 11; lane = 5; run = 2 }

abbrev other : Job
other = record { request_id = 12; lane = 0; run = 3 }

abbrev busy : Workers
busy = record {
  jobs = other ∷ [];
  lane_jobs = (5, second ∷ []) ∷ [];
  active_lanes = 5 ∷ [];
  active_ids = 12 ∷ 11 ∷ 10 ∷ [];
  stopping = false;
  threads = 2;
  running = first ∷ [];
}

busy-Run : Run 2 busy (first ∷ second ∷ other ∷ []) (first ∷ [])
unfolding submit start queue_job member find insert erase
busy-Run = submits other (submits second (starts (submits first begin) refl))

lane_exclusive_example : count 5 busy.running + count 5 busy.jobs ≤ 1
lane_exclusive_example =
    lane_exclusive 2 busy (first ∷ second ∷ other ∷ []) (first ∷ []) 5 busy-Run (omega arith)

lane_in_order_example :
    (dropped : List Job) × (of_lane 5 (first ∷ second ∷ other ∷ [])
      ≡ of_lane 5 (first ∷ []) ++ (of_lane 5 busy.jobs ++ (queue_of 5 busy.lane_jobs ++ dropped)))
    × (busy.stopping ≡ false → dropped ≡ [])
lane_in_order_example =
    lane_in_order 2 busy (first ∷ second ∷ other ∷ []) (first ∷ []) 5 busy-Run (omega arith)

second_waits : queue_of 5 busy.lane_jobs ≢ []
unfolding find
second_waits e = ground (arith, e)

lane_progress_example : count 5 busy.running + count 5 busy.jobs ≡ 1
lane_progress_example =
    lane_progress 2 busy (first ∷ second ∷ other ∷ []) (first ∷ []) 5 busy-Run (omega arith) refl
      second_waits

held_ids_example : (held one_each busy ≤ 64) × (held (has_id 11) busy ≤ 1)
held_ids_example = held_ids 2 busy (first ∷ second ∷ other ∷ []) (first ∷ []) 11 busy-Run

-- The end of the first job makes the second one ready.
second_is_ready : (finish busy first []).jobs ≡ other ∷ second ∷ []
unfolding finish find erase remove
second_is_ready = refl
