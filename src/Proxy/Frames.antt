-- ===== src/Proxy/Frames.antt =====
-- wayland/proxy_server.cpp: the loop of `pump_link` over the frames that have arrived.
use vulkan_remote.Base.{
  ℕ, zero, suc, ◌<◌, ◌≡◌, refl, sym, subst, ap, ◌∙◌, inl, inr, Bool, true, false, Option, none,
  some, List, [], ◌∷◌, ◌++◌, append_assoc, arith,
}
use vulkan_remote.Base.Tests.{if◌then◌else◌, Bool-cases, if_true, if_false}
use vulkan_remote.Base.Lists.{length, All}
use vulkan_remote.Wayland.{InterfaceSpec}
use vulkan_remote.Wayland.Link.Shorter.{take_link_frame-shorter}
use vulkan_remote.Wayland.Link.{
  LinkFrame, FrameResult, need_more_data, ok, malformed, take_link_frame, write_link_frame,
}
use vulkan_remote.Wayland.Link.RoundTrip.{IsSendable, take_link_frame-write_link_frame}
use vulkan_remote.Proxy.{ObjectEntry, Marshal, Applied, handle_request_frame}

-- Whether the link was dropped, `none` if more rounds are needed, with the objects, the bytes that are
-- left and the calls that were made.
pub record Pumped : Type 0 where
  pub dropped : Option Bool
  pub objects : List (ℕ × ObjectEntry)
  pub rx_buf : List ℕ
  pub calls : List Marshal

abbrev pub call_list : Option Marshal → List Marshal
call_list none = []
call_list (some c) = c ∷ []

-- One frame: a request that could not be applied drops the link and what has arrived.
abbrev pub apply_frame : Applied → Pumped → Pumped
apply_frame r p =
    if r.applied
    then record p { calls = call_list r.call ++ p.calls }
    else record { dropped = some true; objects = r.objects; rx_buf = []; calls = call_list r.call }

abbrev pub idle_link : List (ℕ × ObjectEntry) → List ℕ → Pumped
idle_link objects buffer = record {
  dropped = some false;
  objects = objects;
  rx_buf = buffer;
  calls = [];
}

module _ (table : List InterfaceSpec) (known : List ℕ → Bool) (version_of : ℕ → ℕ)
    (marshal : Marshal → ℕ) where
  abbrev pub handle_frame : List (ℕ × ObjectEntry) → LinkFrame → Applied
  handle_frame objects f =
      handle_request_frame table known version_of marshal objects f.wire_bytes f.fd_blobs

  abbrev pub next_frame :
      List (ℕ × ObjectEntry)
      → List ℕ
      → (List (ℕ × ObjectEntry) → List ℕ → Pumped)
      → FrameResult LinkFrame
      → Pumped
  next_frame objects buffer next need_more_data = idle_link objects buffer
  next_frame objects buffer next malformed = record {
    dropped = some true;
    objects = objects;
    rx_buf = [];
    calls = [];
  }
  next_frame objects buffer next (ok f rest) =
      let r = handle_frame objects f in apply_frame r (next r.objects rest)

  unfoldable pub pump_frames : ℕ → List (ℕ × ObjectEntry) → List ℕ → Pumped
  unfolding take_link_frame handle_request_frame
  pump_frames zero objects buffer = record {
    dropped = none;
    objects = objects;
    rx_buf = buffer;
    calls = [];
  }
  pump_frames (suc rounds) objects buffer =
      next_frame objects buffer (λ o rest. pump_frames rounds o rest) (take_link_frame buffer)

-- The call of a request, if it makes one, in front of others.
abbrev made : Option Marshal → List Marshal → List Marshal
made none calls = calls
made (some c) calls = c ∷ calls

-- The loop has come to its end.
abbrev pub Ends : Pumped → Type 0
Ends p = (b : Bool) × (p.dropped ≡ some b)

-- The bytes of frames.
abbrev pub stream : List LinkFrame → List ℕ
stream [] = []
stream (f ∷ fs) = write_link_frame f [] ++ stream fs

module _ (table : List InterfaceSpec) (known : List ℕ → Bool) (version_of : ℕ → ℕ)
    (marshal : Marshal → ℕ) where
  -- What applying frames one after the other comes to: the objects afterwards, all the calls in order, and
  -- whether one was refused, behind which none is applied.
  pub data Applies
      : List (ℕ × ObjectEntry)
        → List LinkFrame
        → List (ℕ × ObjectEntry)
        → List Marshal
        → Bool
        → Type 0 where
    all_applied : (objects : List (ℕ × ObjectEntry)) → Applies objects [] objects [] false
    applies :
        (objects : List (ℕ × ObjectEntry)) (f : LinkFrame) {fs : List LinkFrame}
        {objects' : List (ℕ × ObjectEntry)} {calls : List Marshal} {b : Bool}
        → (handle_frame table known version_of marshal objects f).applied ≡ true
        → Applies
            (handle_frame table known version_of marshal objects f).objects
            fs
            objects'
            calls
            b
        → Applies objects
            (f ∷ fs)
            objects'
            (made (handle_frame table known version_of marshal objects f).call calls)
            b
    refuses :
        (objects : List (ℕ × ObjectEntry)) (f : LinkFrame) (fs : List LinkFrame)
        → (handle_frame table known version_of marshal objects f).applied ≡ false
        → Applies objects
            (f ∷ fs)
            (handle_frame table known version_of marshal objects f).objects
            (made (handle_frame table known version_of marshal objects f).call [])
            true

  -- The loop has applied the frames, and its buffer holds what is behind them, or nothing if a request
  -- was refused and the link dropped.
  abbrev pub Pumps : List (ℕ × ObjectEntry) → List LinkFrame → List ℕ → Pumped → Type 0
  Pumps objects fs more p =
      (b : Bool) × (p.dropped ≡ some b)
      × Applies objects fs p.objects p.calls b
      × (p.rx_buf ≡ (if b then [] else more))

  made_list : (o : Option Marshal) (calls : List Marshal) → call_list o ++ calls ≡ made o calls
  made_list none calls = refl
  made_list (some c) calls = refl

  made_last : (o : Option Marshal) → call_list o ≡ made o []
  made_last none = refl
  made_last (some c) = refl

  apply_frame-Pumps :
      (objects : List (ℕ × ObjectEntry)) (f : LinkFrame) (fs : List LinkFrame) (more : List ℕ)
      (p : Pumped)
      → Pumps (handle_frame table known version_of marshal objects f).objects fs more p
      → Pumps objects
          (f ∷ fs)
          more
          (apply_frame (handle_frame table known version_of marshal objects f) p)
  apply_frame-Pumps objects f fs more p (b, dropped, a, left) =
      let r = handle_frame table known version_of marshal objects f in
      elim (Bool-cases r.applied) [
        | inl done ↦ rw (if_true _ _ done) (
          b,
          dropped,
          subst (λ cs. Applies objects (f ∷ fs) p.objects cs b) (sym (made_list r.call p.calls))
              (applies objects f done a),
          left,
        )
        | inr refused ↦ rw (if_false _ _ refused) (
          true,
          refl,
          subst (λ cs. Applies objects (f ∷ fs) r.objects cs true) (sym (made_last r.call))
              (refuses objects f fs refused),
          refl,
        )
      ]

  -- Frames that were written to the link one after the other, with what has arrived of a further one, are
  -- applied in their order, up to the first whose request is refused. Then the link is dropped with what
  -- has arrived; otherwise the rest stays in the buffer. There has to be a round for each frame and one
  -- more.
  pub pump_frames-stream :
      (fs : List LinkFrame) (more : List ℕ) (rounds : ℕ) (objects : List (ℕ × ObjectEntry))
      → All IsSendable fs
      → take_link_frame more ≡ need_more_data
      → length fs < rounds
      → Pumps objects fs more
          (pump_frames table known version_of marshal rounds objects (stream fs ++ more))
  unfolding pump_frames
  pump_frames-stream fs more zero objects s w h = absurd (omega (arith, h))
  pump_frames-stream [] more (suc rounds) objects s w h =
      subst
        (λ r. Pumps objects [] more (
          next_frame table known version_of marshal objects more
            (λ o rest. pump_frames table known version_of marshal rounds o rest) r))
        (sym w) (false, refl, all_applied objects, refl)
  pump_frames-stream (f ∷ fs) more (suc rounds) objects (s, ss) w h =
      let buffer = write_link_frame f [] ++ stream fs ++ more in
      subst
        (λ r. Pumps objects (f ∷ fs) more (
          next_frame table known version_of marshal objects buffer
            (λ o rest. pump_frames table known version_of marshal rounds o rest) r))
        (sym (
          ap take_link_frame (append_assoc (write_link_frame f []) (stream fs) more)
          ∙ take_link_frame-write_link_frame f (stream fs ++ more) s))
        (apply_frame-Pumps objects f fs more
          (pump_frames table known version_of marshal rounds
            (handle_frame table known version_of marshal objects f).objects (stream fs ++ more))
          (pump_frames-stream fs more rounds
            (handle_frame table known version_of marshal objects f).objects ss w
            (omega (arith, h))))

  either-Ends : (r : Applied) (p : Pumped) → Ends p → Ends (apply_frame r p)
  either-Ends r p (b, e) = elim (Bool-cases r.applied) [
    | inl yes_applied ↦ (b, ap (λ (x : Pumped). x.dropped) (if_true _ _ yes_applied) ∙ e)
    | inr not_applied ↦ (true, ap (λ (x : Pumped). x.dropped) (if_false _ _ not_applied))
  ]

  next_frame-Ends :
      (objects : List (ℕ × ObjectEntry)) (buffer : List ℕ)
      (next : List (ℕ × ObjectEntry) → List ℕ → Pumped) (r : FrameResult LinkFrame)
      → ((o : List (ℕ × ObjectEntry)) (f : LinkFrame) (rest : List ℕ)
          → r ≡ ok f rest
          → Ends (next o rest))
      → Ends (next_frame table known version_of marshal objects buffer next r)
  next_frame-Ends objects buffer next need_more_data h = (false, refl)
  next_frame-Ends objects buffer next malformed h = (true, refl)
  next_frame-Ends objects buffer next (ok f rest) h =
      let r = handle_frame table known version_of marshal objects f in
      either-Ends r (next r.objects rest) (h r.objects f rest refl)

  -- The loop ends for any bytes: a round more than there are bytes is enough.
  pub pump_frames-Ends :
      (rounds : ℕ) (objects : List (ℕ × ObjectEntry)) (buffer : List ℕ)
      → length buffer < rounds
      → Ends (pump_frames table known version_of marshal rounds objects buffer)
  unfolding pump_frames
  pump_frames-Ends zero objects buffer h = absurd (omega (arith, h))
  pump_frames-Ends (suc rounds) objects buffer h =
      next_frame-Ends objects buffer
        (λ o rest. pump_frames table known version_of marshal rounds o rest)
        (take_link_frame buffer)
        (λ o f rest e.
          pump_frames-Ends rounds o rest
            (omega (arith, h, take_link_frame-shorter buffer f rest e)))
