-- ===== src/Workers/Weights.antt =====
-- server/session.cpp, `RequestWorkers`: sums over the jobs that the pool holds, under every operation.
use vulkan_remote.Base.{
  ℕ, ◌+◌, ◌≤◌, ◌≡◌, refl, sym, ap, ◌∙◌, inl, inr, ◌||◌, some, List, [], ◌∷◌, ◌++◌, arith,
}
use vulkan_remote.Base.Tests.{leb, Bool-cases, equal_or_not, if_false}
use vulkan_remote.Base.Lists.{length}
use vulkan_remote.Base.Maps.{find, insert, erase}
use vulkan_remote.Workers.{
  Job, Workers, queue_of, queue_job, take_front, start, next_in_lane, finish, stop, remove,
}
use vulkan_remote.Workers.Finish.{finish_cases, finish_free}

module _ (f : Job → ℕ) where
  unfoldable pub weight : List Job → ℕ
  weight [] = 0
  weight (job ∷ jobs) = f job + weight jobs

  weight-append : (xs ys : List Job) → weight (xs ++ ys) ≡ weight xs + weight ys
  unfolding weight
  weight-append [] ys = omega arith
  weight-append (x ∷ xs) ys = omega (arith, weight-append xs ys)

  unfoldable pub waiting : List (ℕ × List Job) → ℕ
  unfolding weight
  waiting [] = 0
  waiting ((k, queue) ∷ m) = weight queue + waiting m

  waiting-erase-le : (k : ℕ) (m : List (ℕ × List Job)) → waiting (erase k m) ≤ waiting m
  unfolding waiting erase
  waiting-erase-le k [] = omega arith
  waiting-erase-le k ((j, q) ∷ m) = ground (arith, waiting-erase-le k m)

  waiting-erase :
      (k : ℕ) (m : List (ℕ × List Job)) → waiting (erase k m) + weight (queue_of k m) ≤ waiting m
  unfolding waiting weight find erase
  waiting-erase k [] = omega arith
  waiting-erase k ((j, q) ∷ m) = ground (arith, waiting-erase k m, waiting-erase-le k m)

  waiting-insert :
      (k : ℕ) (q : List Job) (m : List (ℕ × List Job))
      → waiting (insert k q m) + weight (queue_of k m) ≤ weight q + waiting m
  unfolding waiting insert
  waiting-insert k q m = omega (arith, waiting-erase k m)

  -- All jobs that the pool holds: those that run, are ready or wait.
  abbrev pub held : Workers → ℕ
  held w = weight w.running + weight w.jobs + waiting w.lane_jobs

  weight_end : (xs : List Job) (x : Job) → weight (xs ++ (x ∷ [])) ≡ weight xs + f x
  unfolding weight
  weight_end xs x = omega (arith, weight-append xs (x ∷ []))

  pub held-queue_job : (w : Workers) (job : Job) → held (queue_job w job) ≤ held w + f job
  unfolding queue_job
  held-queue_job w job = ground (
    arith,
    weight_end w.jobs job,
    weight_end (queue_of job.lane w.lane_jobs) job,
    waiting-insert job.lane (queue_of job.lane w.lane_jobs ++ (job ∷ [])) w.lane_jobs,
  )

  held-take_front :
      (w w' : Workers) (jobs : List Job) (job : Job)
      → w.jobs ≡ jobs
      → take_front w jobs ≡ some (job, w')
      → held w' ≡ held w
  unfolding weight
  held-take_front w w' [] job e q = ground (arith, q)
  held-take_front w w' (x ∷ jobs) job e q =
      let after : record w { jobs = jobs; running = x ∷ w.running } ≡ w' = ground (arith, q) in
      omega (arith, ap held after, ap weight e)

  pub held-start : (w w' : Workers) (job : Job) → start w ≡ some (job, w') → held w' ≡ held w
  unfolding start
  held-start w w' job q = elim (Bool-cases (w.stopping || leb w.threads (length w.running))) [
    | inl e ↦ ground (arith, e, q)
    | inr e ↦ held-take_front w w' w.jobs job refl (sym (if_false _ _ e) ∙ q)
  ]

  held-next_in_lane :
      (w : Workers) (l : ℕ) (queue : List Job)
      → queue_of l w.lane_jobs ≡ queue
      → held (next_in_lane w l queue) ≤ held w
  unfolding weight
  held-next_in_lane w l [] e = omega arith
  held-next_in_lane w l (x ∷ []) e =
      omega (arith, weight_end w.jobs x, waiting-erase l w.lane_jobs, ap weight e)
  held-next_in_lane w l (x ∷ y ∷ queue) e =
      omega (arith, weight_end w.jobs x, waiting-insert l (y ∷ queue) w.lane_jobs, ap weight e)

  pub held-finish :
      (w : Workers) (before after : List Job) (job : Job)
      → w.running ≡ before ++ (job ∷ after)
      → held (finish w job (before ++ after)) + f job ≤ held w
  unfolding weight
  held-finish w before after job r =
      let ids = remove job.request_id w.active_ids in
      let u : Workers = record w { active_ids = ids; running = before ++ after } in
      let fewer : weight (before ++ after) + f job ≡ weight w.running =
        omega
          (arith, ap weight r, weight-append before (job ∷ after), weight-append before after) in
      elim (equal_or_not job.lane 0) [
        | inl z ↦ rw (finish_free w job (before ++ after) z) (omega (arith, fewer))
        | inr nz ↦ rw (finish_cases w job (before ++ after) nz) (
            omega (arith, fewer, held-next_in_lane u job.lane (queue_of job.lane w.lane_jobs) refl))
      ]

  pub held-stop : (w : Workers) → held (stop w) ≤ held w
  unfolding stop weight waiting
  held-stop w = ground arith
