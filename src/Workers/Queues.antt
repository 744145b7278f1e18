-- ===== src/Workers/Queues.antt =====
-- server/session.cpp, `RequestWorkers`: the jobs of one lane, counted and in order.
use vulkan_remote.Base.{
  ℕ, ◌+◌, ◌≡◌, ◌≢◌, refl, ap, ◌∙◌, false, List, [], ◌∷◌, ◌++◌, append-nil, append_assoc, arith,
}
use vulkan_remote.Base.Tests.{◌==◌, if◌then◌else◌}
use vulkan_remote.Base.Lists.{length, length-append}
use vulkan_remote.Base.Maps.{insert, erase, find-insert, find-erase}
use vulkan_remote.Workers.{Job, member, remove, or_empty, queue_of}

-- The jobs of one lane, in order.
unfoldable pub of_lane : ℕ → List Job → List Job
of_lane l [] = []
of_lane l (job ∷ jobs) = let rest = of_lane l jobs in if job.lane == l then job ∷ rest else rest

of_lane-append : (l : ℕ) (xs ys : List Job) → of_lane l (xs ++ ys) ≡ of_lane l xs ++ of_lane l ys
unfolding of_lane
of_lane-append l [] ys = refl
of_lane-append l (x ∷ xs) ys = ground (arith, of_lane-append l xs ys)

unfoldable pub count : ℕ → List Job → ℕ
unfolding of_lane
count l jobs = length (of_lane l jobs)

pub count-append : (l : ℕ) (xs ys : List Job) → count l (xs ++ ys) ≡ count l xs + count l ys
unfolding count
count-append l xs ys =
    ap length (of_lane-append l xs ys) ∙ length-append (of_lane l xs) (of_lane l ys)

pub count-cons :
    (l : ℕ) (x : Job) (xs : List Job)
    → count l (x ∷ xs) ≡ (if x.lane == l then 1 else 0) + count l xs
unfolding count of_lane
count-cons l x xs = ground arith

pub member-remove :
    (x y : ℕ) (s : List ℕ) → member x (remove y s) ≡ (if x == y then false else member x s)
unfolding member remove
member-remove x y [] = ground arith
member-remove x y (z ∷ s) = ground (arith, member-remove x y s)

pub queue_of-insert :
    (l k : ℕ) (q : List Job) (m : List (ℕ × List Job))
    → queue_of l (insert k q m) ≡ (if l == k then q else queue_of l m)
queue_of-insert l k q m = ground (arith, ap or_empty (find-insert l k q m))

pub queue_of-erase :
    (l k : ℕ) (m : List (ℕ × List Job))
    → queue_of l (erase k m) ≡ (if l == k then [] else queue_of l m)
queue_of-erase l k m = ground (arith, ap or_empty (find-erase l k m))

pub queue_of-insert_self :
    (l : ℕ) (q : List Job) (m : List (ℕ × List Job)) → queue_of l (insert l q m) ≡ q
queue_of-insert_self l q m = ground (arith, queue_of-insert l l q m)

pub of_lane_other :
    (l : ℕ) (xs : List Job) (x : Job) → x.lane ≢ l → of_lane l (xs ++ (x ∷ [])) ≡ of_lane l xs
unfolding of_lane
of_lane_other l xs x h = ground (arith, of_lane-append l xs (x ∷ []), append-nil (of_lane l xs))

-- A job at the end of a list of jobs that are in order behind the started ones.
pub ready_order :
    (l : ℕ) (a jobs x s q d : List Job)
    → of_lane l a ≡ s ++ (of_lane l jobs ++ (q ++ d))
    → q ≡ []
    → d ≡ []
    → of_lane l (a ++ x) ≡ s ++ (of_lane l (jobs ++ x) ++ (q ++ d))
ready_order l a jobs x s q d e eq ed = simp (of_lane-append, e, eq, ed, append_assoc, append-nil)

pub waiting_order :
    (l : ℕ) (a x s j q d : List Job)
    → of_lane l a ≡ s ++ (j ++ (q ++ d))
    → of_lane l x ≡ x
    → d ≡ []
    → of_lane l (a ++ x) ≡ s ++ (j ++ ((q ++ x) ++ d))
waiting_order l a x s j q d e ex ed = simp (of_lane-append, e, ex, ed, append_assoc, append-nil)

pub of_lane_one : (l : ℕ) (x : Job) → x.lane ≡ l → of_lane l (x ∷ []) ≡ x ∷ []
unfolding of_lane
of_lane_one l x e = ground (arith, e)

pub next_order :
    (l : ℕ) (a jobs s q d : List Job) (x : Job)
    → of_lane l a ≡ s ++ (of_lane l jobs ++ ((x ∷ q) ++ d))
    → x.lane ≡ l
    → of_lane l a ≡ s ++ (of_lane l (jobs ++ (x ∷ [])) ++ (q ++ d))
next_order l a jobs s q d x e el = simp (of_lane-append, e, of_lane_one l x el, append_assoc)

pub count_end :
    (l : ℕ) (xs : List Job) (x : Job)
    → count l (xs ++ (x ∷ [])) ≡ count l xs + (if x.lane == l then 1 else 0)
unfolding count of_lane
count_end l xs x = ground (arith, count-append l xs (x ∷ []))

pub start_order :
    (l : ℕ) (jobs s : List Job) (job : Job) (r : List Job)
    → of_lane l s ++ (of_lane l (job ∷ jobs) ++ r)
      ≡ of_lane l (s ++ (job ∷ [])) ++ (of_lane l jobs ++ r)
unfolding of_lane
start_order l jobs s job r =
    simp (of_lane-append l s (job ∷ []), append_assoc, of_lane-append l (job ∷ []) jobs)
