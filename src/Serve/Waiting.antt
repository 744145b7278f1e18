-- ===== src/Serve/Waiting.antt =====
-- server/session.cpp: the loops in which a worker waits for fences or semaphores, in slices of at
-- most 100 ms so that it sees `closing`. The state of `closing`, the clock and the driver's answer in
-- round `n` are arguments.
use vulkan_remote.Base.{
  ℕ, zero, suc, ◌+◌, ◌-◌, ◌^◌, ◌≤◌, ◌<◌, ◌≡◌, ◌≢◌, refl, ap, ◌∙◌, ◌⊎◌, inl, inr, min, Bool, true,
  false, not, ◌&&◌, Option, none, some, arith,
}
use vulkan_remote.Base.Tests.{leb, ◌==◌, if◌then◌else◌, Bool-cases}

-- The VkResult values that the loop tells apart.
pub data WaitResult : Type 0 where
  vk_timeout vk_device_lost : WaitResult
  vk_result : ℕ → WaitResult

abbrev pub is_timeout : WaitResult → Bool
is_timeout vk_timeout = true
is_timeout _ = false

abbrev pub slice_ns : ℕ
slice_ns = 100000000

-- UINT64_MAX: no timeout.
abbrev pub is_unlimited : ℕ → Bool
is_unlimited timeout = timeout == 2 ^ 64 - 1

abbrev pub slice_of : ℕ → ℕ → ℕ
slice_of timeout spent =
    if is_unlimited timeout
    then slice_ns
    else if leb timeout spent
    then 0
    else min slice_ns (timeout - spent)

ends_if :
    (c t i : Bool) (a b r : WaitResult) (again : Option WaitResult)
    → (x : WaitResult) × (again ≡ some x)
    → (y : WaitResult) × ((if c then some a else if t then some b else if i then again else some r)
        ≡ some y)
ends_if true t i a b r again x = (a, refl)
ends_if false true i a b r again x = (b, refl)
ends_if false false true a b r again x = x
ends_if false false false a b r again x = (r, refl)

timeout_if :
    (c t : Bool) (r : WaitResult) (again : Option WaitResult)
    → (if c
        then some vk_device_lost
        else if t
        then some vk_timeout
        else if is_timeout r
        then again
        else some r)
      ≡ some vk_timeout
    → (t ≡ true) ⊎ (again ≡ some vk_timeout)
timeout_if true t r again e = ground (arith, e)
timeout_if false true r again e = inl refl
timeout_if false false vk_timeout again e = inr e
timeout_if false false vk_device_lost again e = ground (arith, e)
timeout_if false false (vk_result v) again e = ground (arith, e)

module _ (closing : ℕ → Bool) (spent : ℕ → ℕ) (answer : ℕ → ℕ → WaitResult) (timeout : ℕ) where
  -- `wait_loop rounds n first`: at most `rounds` rounds from round `n` on.
  unfoldable pub wait_loop : ℕ → ℕ → Bool → Option WaitResult
  wait_loop zero n first = none
  wait_loop (suc rounds) n first =
      let result = answer n (slice_of timeout (spent n)) in
      let again = wait_loop rounds (n + 1) false in
      if closing n
      then some vk_device_lost
      else if not (is_unlimited timeout) && (not first && leb timeout (spent n))
      then some vk_timeout
      else if is_timeout result
      then again
      else some result

  -- From the second round on.
  wait_loop_later :
      (rounds n : ℕ)
      → ((k : ℕ) → k ≤ spent k)
      → is_unlimited timeout ≡ false
      → timeout < n + rounds
      → 1 ≤ rounds
      → (r : WaitResult) × (wait_loop rounds n false ≡ some r)
  unfolding wait_loop
  wait_loop_later zero n h u l p = absurd (omega (arith, p))
  wait_loop_later (suc zero) n h u l p = elim (Bool-cases (closing n)) [
    | inl c ↦ (vk_device_lost, ground (arith, c))
    | inr c ↦ (vk_timeout, ground (arith, c, h n, l, u))
  ]
  wait_loop_later (suc (suc rounds)) n h u l p =
      ends_if (closing n) (not (is_unlimited timeout) && (not false && leb timeout (spent n)))
        (is_timeout (answer n (slice_of timeout (spent n)))) vk_device_lost vk_timeout
        (answer n (slice_of timeout (spent n))) (wait_loop (suc rounds) (n + 1) false)
        (wait_loop_later (suc rounds) (n + 1) h u (omega (arith, l)) (omega arith))

  -- A wait with a timeout ends, if the clock advances by a nanosecond with every round: two
  -- rounds more than the timeout in nanoseconds are enough.
  pub wait_loop_ends :
      ((k : ℕ) → k ≤ spent k)
      → timeout < 2 ^ 64 - 1
      → (r : WaitResult) × (wait_loop (suc (suc timeout)) 0 true ≡ some r)
  unfolding wait_loop
  wait_loop_ends h u =
      ends_if (closing 0) (not (is_unlimited timeout) && (not true && leb timeout (spent 0)))
        (is_timeout (answer 0 (slice_of timeout (spent 0)))) vk_device_lost vk_timeout
        (answer 0 (slice_of timeout (spent 0))) (wait_loop (suc timeout) 1 false)
        (wait_loop_later (suc timeout) 1 h (ground (arith, u)) (omega arith) (omega arith))

  closing_from :
      (rounds n : ℕ) (first : Bool)
      → closing (n + rounds) ≡ true
      → (r : WaitResult) × (wait_loop (suc rounds) n first ≡ some r)
  unfolding wait_loop
  closing_from zero n first c =
      (vk_device_lost, ground (arith, c, ap closing {x = n + 0} {y = n} (omega arith)))
  closing_from (suc rounds) n first c =
      ends_if (closing n) (not (is_unlimited timeout) && (not first && leb timeout (spent n)))
        (is_timeout (answer n (slice_of timeout (spent n)))) vk_device_lost vk_timeout
        (answer n (slice_of timeout (spent n))) (wait_loop (suc rounds) (n + 1) false)
        (closing_from rounds (n + 1) false
          (ap closing {x = n + 1 + rounds} {y = n + suc rounds} (omega arith) ∙ c))

  -- Every wait ends once the connection closes, also one without a timeout: no later than the first
  -- round that sees `closing`.
  wait_loop_closes :
      (n : ℕ) → closing n ≡ true → (r : WaitResult) × (wait_loop (suc n) 0 true ≡ some r)
  wait_loop_closes n c = closing_from n 0 true (ap closing {x = 0 + n} {y = n} (omega arith) ∙ c)

  timed_out_from :
      (rounds n : ℕ) (first : Bool)
      → (first ≡ false → 1 ≤ n)
      → wait_loop rounds n first ≡ some vk_timeout
      → (k : ℕ) × (1 ≤ k) × (timeout ≤ spent k) × (timeout ≢ 2 ^ 64 - 1)
  unfolding wait_loop
  timed_out_from zero n first p e = ground (arith, e)
  timed_out_from (suc rounds) n first p e =
      elim (timeout_if (closing n)
        (not (is_unlimited timeout) && (not first && leb timeout (spent n)))
        (answer n (slice_of timeout (spent n))) (wait_loop rounds (n + 1) false) e) [
          | inl t ↦ (n, ground (arith, t, p), ground (arith, t), ground (arith, t))
          | inr r ↦ timed_out_from rounds (n + 1) false (λ u. omega arith) r
        ]

  -- A timeout is reported only if the wait has one, after the driver was asked at least once, in a
  -- round whose clock shows that the timeout has passed.
  wait_loop_times_out :
      (rounds : ℕ)
      → wait_loop rounds 0 true ≡ some vk_timeout
      → (k : ℕ) × (1 ≤ k) × (timeout ≤ spent k) × (timeout ≢ 2 ^ 64 - 1)
  wait_loop_times_out rounds e = timed_out_from rounds 0 true (λ u. ground (arith, u)) e
