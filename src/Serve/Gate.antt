-- ===== src/Serve/Gate.antt =====
-- server/session.cpp: the handshake in the rounds of `Server::serve`.
use vulkan_remote.Base.{
  ℕ, ◌≡◌, ◌≢◌, refl, sym, subst, ◌∙◌, inl, inr, Bool, true, false, ◌||◌, Option, none, some, List,
  [], ◌∷◌, arith,
}
use vulkan_remote.Base.Tests.{if◌then◌else◌, Bool-cases, if_true}
use vulkan_remote.Base.Lists.{All}
use vulkan_remote.Framing.{Status}
use vulkan_remote.Objects.Teardown.{ObjectTables}
use vulkan_remote.Workers.{Workers, submit}
use vulkan_remote.Serve.Decode.{
  Opcode, handshake, ping, queue_wait_idle, device_wait_idle, wait_for_fences, wait_semaphores,
  other, Wait, idle_queue, idle_device, fences, semaphores, wait_lane,
}
use vulkan_remote.Serve.{
  Message, ServeState, Handled, Served, closes, continues, is_handshake, breaks, after_submit,
  serve_wait, after_handler, serve_semaphores, dispatch, serve_message,
}

-- The handshake is complete, unless the connection has ended.
abbrev IsShaken : Served → Type 0
IsShaken (closes replies) = Unit
IsShaken (continues s replies w) = s.handshake_complete ≡ true

after_submit-IsShaken :
    (s : ServeState) (m : Message) (w : Wait) (r : Bool × Workers)
    → s.handshake_complete ≡ true
    → IsShaken (after_submit s m w r)
after_submit-IsShaken s m w r h = h

serve_wait-IsShaken :
    (s : ServeState) (m : Message) (refusal : Status) (o : Option Wait)
    → s.handshake_complete ≡ true
    → IsShaken (serve_wait s m refusal o)
serve_wait-IsShaken s m refusal none h = h
serve_wait-IsShaken s m refusal (some w) h =
    after_submit-IsShaken s m w
      (submit s.workers
        (record { request_id = m.request_id; lane = wait_lane w; run = m.request_id }))
      h

serve_semaphores-IsShaken :
    (has : ℕ → Bool) (s : ServeState) (m : Message) (o : Option Wait)
    → s.handshake_complete ≡ true
    → IsShaken (serve_semaphores has s m o)
serve_semaphores-IsShaken has s m none h = h
serve_semaphores-IsShaken has s m (some (idle_queue q)) h = h
serve_semaphores-IsShaken has s m (some (idle_device d e)) h = h
serve_semaphores-IsShaken has s m (some (fences d a fs t)) h = h
serve_semaphores-IsShaken has s m (some (semaphores d f ss t)) h =
    serve_wait-IsShaken s m Status.unsupported_command
      (if has d then some (semaphores d f ss t) else none) h

either-IsShaken :
    (b : Bool) (x y : Served)
    → (b ≡ true → IsShaken x)
    → (b ≡ false → IsShaken y)
    → IsShaken (if b then x else y)
either-IsShaken true x y h k = h refl
either-IsShaken false x y h k = k refl

after_handler-IsShaken :
    (s : ServeState) (m : Message) (r : Handled)
    → is_handshake m.opcode || s.handshake_complete ≡ true
    → IsShaken (after_handler s m r)
after_handler-IsShaken s m r h = either-IsShaken r.close_connection _ _ (λ _. tt) (λ _. h)

module _ (find_handler : Opcode → Bool) (handler : Message → ObjectTables → ℕ → Handled)
    (has_wait_semaphores : ℕ → Bool) where
  -- Rounds in which the connection stays open, one for each message.
  pub data Rounds : ServeState → List Message → ServeState → Type 0 where
    rest : (s : ServeState) → Rounds s [] s
    round :
        {s s' s'' : ServeState} (m : Message) {ms : List Message} (replies : List (ℕ × List ℕ))
        (w : Option Wait)
        → serve_message find_handler handler has_wait_semaphores s m ≡ continues s' replies w
        → Rounds s' ms s''
        → Rounds s (m ∷ ms) s''

  module _ (known : find_handler handshake ≡ true) where
    dispatch-IsShaken :
        (s : ServeState) (m : Message) (o : Opcode)
        → is_handshake m.opcode || s.handshake_complete ≡ true
        → is_handshake o || s.handshake_complete ≡ true
        → IsShaken (dispatch find_handler handler has_wait_semaphores s m o)
    dispatch-IsShaken s m ping h k = k
    dispatch-IsShaken s m handshake h k =
        either-IsShaken (find_handler handshake) _ _ (λ _. after_handler-IsShaken s m _ h)
          (λ e. ground (arith, known, e))
    dispatch-IsShaken s m queue_wait_idle h k =
        either-IsShaken (find_handler queue_wait_idle) _ _
          (λ _. serve_wait-IsShaken s m Status.decode_error _ k) (λ _. k)
    dispatch-IsShaken s m device_wait_idle h k =
        either-IsShaken (find_handler device_wait_idle) _ _
          (λ _. serve_wait-IsShaken s m Status.decode_error _ k) (λ _. k)
    dispatch-IsShaken s m wait_for_fences h k =
        either-IsShaken (find_handler wait_for_fences) _ _
          (λ _. serve_wait-IsShaken s m Status.decode_error _ k) (λ _. k)
    dispatch-IsShaken s m wait_semaphores h k =
        either-IsShaken (find_handler wait_semaphores) _ _
          (λ _. serve_semaphores-IsShaken has_wait_semaphores s m _ k) (λ _. k)
    dispatch-IsShaken s m (other n) h k =
        either-IsShaken (find_handler (other n)) _ _ (λ _. after_handler-IsShaken s m _ h) (λ _. k)

    serve_message-IsShaken :
        (s : ServeState) (m : Message)
        → IsShaken (serve_message find_handler handler has_wait_semaphores s m)
    unfolding serve_message
    serve_message-IsShaken s m =
        either-IsShaken (breaks s m) _ _ (λ _. tt)
          (λ b. dispatch-IsShaken s m m.opcode (ground (arith, b)) (ground (arith, b)))

    -- What a message has to be if the connection stays open.
    admitted :
        (s s' : ServeState) (m : Message) (replies : List (ℕ × List ℕ)) (w : Option Wait)
        → serve_message find_handler handler has_wait_semaphores s m ≡ continues s' replies w
        → (s.handshake_complete ≡ false → (is_handshake m.opcode ≡ true) × (m.request_id ≢ 0))
          × (s.handshake_complete ≡ true → is_handshake m.opcode ≡ false)
    unfolding serve_message
    admitted s s' m replies w e = elim (Bool-cases (breaks s m)) [
      | inl b ↦ ground (arith, sym (if_true _ _ b) ∙ e)
      | inr b ↦ (λ h. (ground (arith, h, b), ground (arith, h, b)), λ h. ground (arith, h, b))
    ]

    later_rounds :
        (s s' : ServeState) (ms : List Message)
        → s.handshake_complete ≡ true
        → Rounds s ms s'
        → All (λ n. is_handshake n.opcode ≡ false) ms
    later_rounds _ _ _ h (rest s) = tt
    later_rounds _ _ _ h (round {s} {s'} {s''} m {ms} replies w e r) = (
      (admitted s s' m replies w e).1 h,
      later_rounds s' s'' ms (subst IsShaken e (serve_message-IsShaken s m)) r,
    )

    -- If the handshake has a handler, then among the messages with which a connection that has not shaken
    -- hands stays open, the first is a handshake with a request id, and no later one is a handshake.
    pub serve_message_gate :
        (s s' : ServeState) (m : Message) (ms : List Message)
        → s.handshake_complete ≡ false
        → Rounds s (m ∷ ms) s'
        → (is_handshake m.opcode ≡ true)
          × (m.request_id ≢ 0)
          × All (λ n. is_handshake n.opcode ≡ false) ms
    serve_message_gate _ _ _ _ h (round {s} {s'} {s''} m {ms} replies w e r) =
        let (hand, nz) = (admitted s s' m replies w e).0 h in
        (hand, nz, later_rounds s' s'' ms (subst IsShaken e (serve_message-IsShaken s m)) r)
