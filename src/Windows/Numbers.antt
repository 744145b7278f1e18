-- ===== src/Windows/Numbers.antt =====
-- server/own_window_input.cpp: the sequence numbers of the events of a window.
use vulkan_remote.Base.{
  ℕ, zero, suc, ◌+◌, ◌-◌, ◌%◌, ◌^◌, ◌≤◌, ◌<◌, ◌≡◌, refl, sym, ap, subst, inl, inr, min, Bool, true,
  false, ◌&&◌, List, [], ◌∷◌, ◌++◌, arith,
}
use vulkan_remote.Base.Tests.{leb, if◌then◌else◌, Bool-cases, if_true, if_false}
use vulkan_remote.Base.Lists.{
  length, take, drop, length-append, length-take, length-drop, take-append-drop,
}
use vulkan_remote.Base.Words.{ℤ}
use vulkan_remote.Windows.{
  InputType, InputEvent, OwnWindow, max_input_events, is_motion, ends_in_motion, move_last,
  push_event, record_input, take_input_events,
}

-- The events have the numbers from `n` on.
abbrev pub IsNumbered : ℕ → List InputEvent → Type 0
IsNumbered n [] = Unit
IsNumbered n (e ∷ es) = (e.sequence ≡ n) × IsNumbered (n + 1) es

IsNumbered-append :
    (n : ℕ) (es : List InputEvent) (e : InputEvent)
    → IsNumbered n es
    → e.sequence ≡ n + length es
    → IsNumbered n (es ++ (e ∷ []))
IsNumbered-append n [] e h q = (omega (arith, q), tt)
IsNumbered-append n (f ∷ es) e (h, hs) q = (h, IsNumbered-append (n + 1) es e hs (omega (arith, q)))

IsNumbered-move_last :
    (n : ℕ) (a b : ℤ) (es : List InputEvent) → IsNumbered n es → IsNumbered n (move_last a b es)
unfolding move_last
IsNumbered-move_last n a b [] h = tt
IsNumbered-move_last n a b (e ∷ []) h = h
IsNumbered-move_last n a b (e ∷ f ∷ es) (h, hs) = (h, IsNumbered-move_last (n + 1) a b (f ∷ es) hs)

length-move_last : (a b : ℤ) (es : List InputEvent) → length (move_last a b es) ≡ length es
unfolding move_last
length-move_last a b [] = refl
length-move_last a b (e ∷ []) = refl
length-move_last a b (e ∷ f ∷ es) = ap suc (length-move_last a b (f ∷ es))

IsNumbered-take : (k n : ℕ) (es : List InputEvent) → IsNumbered n es → IsNumbered n (take k es)
IsNumbered-take zero n es h = tt
IsNumbered-take (suc k) n [] h = tt
IsNumbered-take (suc k) n (e ∷ es) (h, hs) = (h, IsNumbered-take k (n + 1) es hs)

IsNumbered-drop :
    (k n : ℕ) (es : List InputEvent) → IsNumbered n es → IsNumbered (n + k) (drop k es)
IsNumbered-drop zero n es h = subst (λ i. IsNumbered i es) {x = n} {y = n + 0} (omega arith) h
IsNumbered-drop (suc k) n [] h = tt
IsNumbered-drop (suc k) n (e ∷ es) (h, hs) =
    subst (λ i. IsNumbered i (drop k es)) {x = n + 1 + k} {y = n + suc k} (omega arith)
      (IsNumbered-drop k (n + 1) es hs)

-- The queue holds at most 1024 events, and the latest numbers without a gap.
pub record IsQueue (w : OwnWindow) : Type 0 where
  pub bounded : length w.input_events ≤ max_input_events
  pub counted : length w.input_events ≤ w.next_input_sequence
  pub numbered : IsNumbered (w.next_input_sequence - length w.input_events) w.input_events

push_event-IsQueue :
    (w : OwnWindow) (type : InputType) (a b c d : ℤ)
    → IsQueue w
    → length w.input_events < max_input_events
    → w.next_input_sequence + 1 < 2 ^ 64
    → IsQueue (push_event w type a b c d)
push_event-IsQueue w type a b c d q l s =
    let e : InputEvent = record {
      sequence = w.next_input_sequence;
      type = type;
      a = a;
      b = b;
      c = c;
      d = d;
    } in
    let n = length-append w.input_events (e ∷ []) in
    record {
      bounded = omega (arith, n, l);
      counted = omega (arith, n, q.counted, s);
      numbered =
          subst (λ i. IsNumbered i (w.input_events ++ (e ∷ [])))
            {x = w.next_input_sequence - length w.input_events}
            {y = (w.next_input_sequence + 1) % 2 ^ 64 - length (w.input_events ++ (e ∷ []))}
            (omega (arith, n, s))
            (IsNumbered-append (w.next_input_sequence - length w.input_events) w.input_events e
              q.numbered (omega (arith, q.counted)));
    }

cleared-IsQueue :
    (w : OwnWindow) (b : Bool) → IsQueue (record w { input_events = []; input_overflowed = b })
cleared-IsQueue w b = record { bounded = omega arith; counted = omega arith; numbered = tt }

-- Every input keeps the queue as it should be, as long as the numbers do not run out.
pub record_input-IsQueue :
    (w : OwnWindow) (type : InputType) (a b c d : ℤ)
    → IsQueue w
    → w.next_input_sequence + 1 < 2 ^ 64
    → IsQueue (record_input w type a b c d)
unfolding record_input
record_input-IsQueue w type a b c d q s =
    elim (Bool-cases (is_motion type && ends_in_motion w.input_events)) [
      | inl m ↦ rw (if_true _ _ m) (record {
        bounded = omega (arith, q.bounded, length-move_last a b w.input_events);
        counted = omega (arith, q.counted, length-move_last a b w.input_events);
        numbered =
            subst (λ i. IsNumbered (w.next_input_sequence - i) (move_last a b w.input_events))
              (sym (length-move_last a b w.input_events))
              (IsNumbered-move_last _ a b w.input_events q.numbered);
      })
      | inr m ↦
          rw (if_false _ _ m) (elim (Bool-cases (leb max_input_events (length w.input_events))) [
            | inl f ↦ rw (if_true _ _ f) (
                push_event-IsQueue (record w { input_events = []; input_overflowed = true }) type a
                  b c d (cleared-IsQueue w true) (omega arith) s)
            | inr f ↦
                rw (if_false _ _ f) (push_event-IsQueue w type a b c d q (ground (arith, f)) s)
          ])
    ]

-- The caller is told whether events were lost, and from then on they are not. If they were, it gets none
-- and the queue is empty; otherwise it gets the oldest, as many as there are and it asks for, and the
-- others stay. What it gets is numbered without a gap, and the queue is as it should be.
pub record IsRead (max_events : ℕ) (w : OwnWindow) (r : List InputEvent × Bool × OwnWindow)
    : Type 0 where
  pub told : r.1 ≡ w.input_overflowed
  pub reset : r.2.input_overflowed ≡ false
  pub lost : w.input_overflowed ≡ true → (r.0 ≡ []) × (r.2.input_events ≡ [])
  pub whole : w.input_overflowed ≡ false → r.0 ++ r.2.input_events ≡ w.input_events
  pub many : w.input_overflowed ≡ false → length r.0 ≡ min max_events (length w.input_events)
  pub numbered : IsNumbered (w.next_input_sequence - length w.input_events) r.0
  pub queue : IsQueue r.2
  pub counter : r.2.next_input_sequence ≡ w.next_input_sequence

either-IsRead :
    (b : Bool) (max_events : ℕ) (w : OwnWindow) (x y : List InputEvent × Bool × OwnWindow)
    → (b ≡ true → IsRead max_events w x)
    → (b ≡ false → IsRead max_events w y)
    → IsRead max_events w (if b then x else y)
either-IsRead true max_events w x y h k = h refl
either-IsRead false max_events w x y h k = k refl

dropped-IsQueue :
    (n : ℕ) (w : OwnWindow)
    → n ≤ length w.input_events
    → IsQueue w
    → IsQueue (record w { input_events = drop n w.input_events })
dropped-IsQueue n w l q =
    let short = length-drop n w.input_events in
    let first = w.next_input_sequence - length w.input_events in
    record {
      bounded = omega (arith, q.bounded, short);
      counted = omega (arith, q.counted, short);
      numbered =
          subst (λ i. IsNumbered i (drop n w.input_events)) {x = first + n}
            {y = w.next_input_sequence - length (drop n w.input_events)}
            (omega (arith, short, q.counted, l))
            (IsNumbered-drop n first w.input_events q.numbered);
    }

-- Every read of a queue that is as it should be is as `IsRead` says.
pub take_input_events-IsRead :
    (max_events : ℕ) (w : OwnWindow)
    → IsQueue w
    → IsRead max_events w (take_input_events max_events w)
unfolding take_input_events
take_input_events-IsRead max_events w q =
    let n = min max_events (length w.input_events) in
    either-IsRead w.input_overflowed max_events w
      ([], true, record w { input_events = []; input_overflowed = false })
      (take n w.input_events, false, record w { input_events = drop n w.input_events })
      (λ e. record {
        told = sym e;
        reset = refl;
        lost = λ _. (refl, refl);
        whole = λ f. ground (arith, e, f);
        many = λ f. ground (arith, e, f);
        numbered = tt;
        queue = cleared-IsQueue w false;
        counter = refl;
      })
      (λ e. record {
        told = sym e;
        reset = e;
        lost = λ f. ground (arith, e, f);
        whole = λ _. take-append-drop n w.input_events;
        many = λ _. omega (arith, length-take n w.input_events);
        numbered =
            IsNumbered-take n (w.next_input_sequence - length w.input_events) w.input_events
              q.numbered;
        queue = dropped-IsQueue n w (omega arith) q;
        counter = refl;
      })
