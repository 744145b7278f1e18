-- ===== src/Windows.antt =====
-- server/session.cpp and server/own_window_input.cpp: the windows that the server opens for the
-- surfaces of its clients, and the input that each of them collects. A window is named by its address,
-- a number that is not 0; the window system is outside the model. Each function runs under the mutex
-- that it takes in the code.
pub mod Inbox
pub mod Numbers
pub mod Owned
pub mod Polls
mod Tests
use vulkan_remote.Base.{
  ℕ, zero, suc, ◌+◌, ◌-◌, ◌%◌, ◌^◌, min, Bool, true, false, not, ◌&&◌, ◌||◌, Option, none, some,
  List, [], ◌∷◌, ◌++◌,
}
use vulkan_remote.Base.Tests.{ltb, leb, ◌==◌, if◌then◌else◌}
use vulkan_remote.Base.Lists.{length, take, drop}
use vulkan_remote.Base.Maps.{find, insert, erase}
use vulkan_remote.Base.Words.{ℤ}

pub data InputType : Type 0 where
  motion button axis key focus : InputType

pub record InputEvent : Type 0 where
  pub sequence : ℕ
  pub type : InputType
  pub a : ℤ
  pub b : ℤ
  pub c : ℤ
  pub d : ℤ

pub record OwnWindow : Type 0 where
  pub input_events : List InputEvent
  pub next_input_sequence : ℕ
  pub input_overflowed : Bool
  pub resized : Bool
  pub closed : Bool

abbrev pub max_input_events : ℕ
max_input_events = 1024

abbrev pub new_window : OwnWindow
new_window = record {
  input_events = [];
  next_input_sequence = 1;
  input_overflowed = false;
  resized = false;
  closed = false;
}

abbrev pub is_motion : InputType → Bool
is_motion motion = true
is_motion _ = false

-- Whether the last event is a motion.
unfoldable pub ends_in_motion : List InputEvent → Bool
ends_in_motion [] = false
ends_in_motion (e ∷ []) = is_motion e.type
ends_in_motion (e ∷ f ∷ es) = ends_in_motion (f ∷ es)

-- The last event moves to another place.
unfoldable pub move_last : ℤ → ℤ → List InputEvent → List InputEvent
move_last a b [] = []
move_last a b (e ∷ []) = record e { a = a; b = b } ∷ []
move_last a b (e ∷ f ∷ es) = e ∷ move_last a b (f ∷ es)

abbrev pub push_event : OwnWindow → InputType → ℤ → ℤ → ℤ → ℤ → OwnWindow
push_event w type a b c d = record w {
  input_events =
      w.input_events
      ++ (record { sequence = w.next_input_sequence; type = type; a = a; b = b; c = c; d = d }
          ∷ []);
  next_input_sequence = (w.next_input_sequence + 1) % 2 ^ 64;
}

unfoldable pub record_input : OwnWindow → InputType → ℤ → ℤ → ℤ → ℤ → OwnWindow
unfolding ends_in_motion move_last
record_input w type a b c d =
    if is_motion type && ends_in_motion w.input_events
    then record w { input_events = move_last a b w.input_events }
    else if leb max_input_events (length w.input_events)
    then push_event (record w { input_events = []; input_overflowed = true }) type a b c d
    else push_event w type a b c d

-- The events, whether some were lost, and the window afterwards.
unfoldable pub take_input_events : ℕ → OwnWindow → List InputEvent × Bool × OwnWindow
take_input_events max_events w =
    let count = min max_events (length w.input_events) in
    if w.input_overflowed
    then ([], true, record w { input_events = []; input_overflowed = false })
    else (take count w.input_events, false, record w { input_events = drop count w.input_events })

-- What `Server` keeps of the windows.
pub record WindowTable : Type 0 where
  pub own_windows : List (ℕ × OwnWindow)
  pub surface_windows : List (ℕ × ℕ)

abbrev pub no_windows : WindowTable
no_windows = record { own_windows = []; surface_windows = [] }

-- `create_own_window`: the address of the new window, and whether it could be created.
unfoldable pub create_own_window : ℕ → Bool → WindowTable → WindowTable × ℕ
create_own_window address created t =
    if created
    then (record t { own_windows = t.own_windows ++ ((address, new_window) ∷ []) }, address)
    else (t, 0)

unfoldable pub associate_surface : ℕ → ℕ → WindowTable → WindowTable
unfolding insert
associate_surface surface window t =
    if surface == 0 || window == 0
    then t
    else record t { surface_windows = insert surface window t.surface_windows }

-- The first entry with the address goes.
unfoldable pub erase_window : ℕ → List (ℕ × OwnWindow) → List (ℕ × OwnWindow)
erase_window window [] = []
erase_window window ((address, w) ∷ ws) =
    let rest = erase_window window ws in if address == window then ws else (address, w) ∷ rest

unfoldable pub discard_own_window : ℕ → WindowTable → WindowTable
unfolding erase_window
discard_own_window window t =
    if window == 0 then t else record t { own_windows = erase_window window t.own_windows }

abbrev pub release_found : ℕ → WindowTable → Option ℕ → WindowTable
release_found surface t none = t
release_found surface t (some window) = record {
  own_windows = erase_window window t.own_windows;
  surface_windows = erase surface t.surface_windows;
}

unfoldable pub release_surface_window : ℕ → WindowTable → WindowTable
unfolding find erase erase_window
release_surface_window surface t =
    if surface == 0 then t else release_found surface t (find surface t.surface_windows)

-- 0 is the null pointer.
abbrev pub or_null : Option ℕ → ℕ
or_null none = 0
or_null (some window) = window

unfoldable pub window_for_surface : ℕ → WindowTable → ℕ
unfolding find
window_for_surface surface t = if surface == 0 then 0 else or_null (find surface t.surface_windows)

-- The window behind a pointer: `none` if it is not there any more.
abbrev pub deref : WindowTable → ℕ → Option OwnWindow
deref t window = find window t.own_windows

unfoldable pub update_window : ℕ → OwnWindow → List (ℕ × OwnWindow) → List (ℕ × OwnWindow)
update_window window n [] = []
update_window window n ((address, w) ∷ ws) =
    let rest = update_window window n ws in
    if address == window then (address, n) ∷ ws else (address, w) ∷ rest

-- How the handlers that create a surface use the window that they create for it; `surface` is what the
-- driver answers, `none` if it fails.
abbrev pub after_create : Option ℕ → WindowTable × ℕ → WindowTable
after_create none (t, window) = if window == 0 then t else discard_own_window window t
after_create (some surface) (t, window) =
    if window == 0 then t else associate_surface surface window t

unfoldable pub open_window : ℕ → Bool → Option ℕ → WindowTable → WindowTable
unfolding create_own_window associate_surface discard_own_window
open_window address created surface t = after_create surface (create_own_window address created t)

-- What a poll of a surface meets: no window, a window, or a pointer to none.
pub data Polled (A : Type 0) : Type 0 where
  unmapped : Polled A
  dangling : Polled A
  answered : A → WindowTable → Polled A

abbrev pub poll_deref :
    {A : Type 0} → (OwnWindow → A × OwnWindow) → WindowTable → ℕ → Option OwnWindow → Polled A
poll_deref use_window t window none = dangling
poll_deref use_window t window (some w) =
    let (a, w') = use_window w in
    answered a (record t { own_windows = update_window window w' t.own_windows })

abbrev pub poll_found :
    {A : Type 0} → (OwnWindow → A × OwnWindow) → WindowTable → Option ℕ → Polled A
poll_found use_window t none = unmapped
poll_found use_window t (some window) = poll_deref use_window t window (deref t window)

-- The three polls: `pump` stands for what the window system has for the window.
unfoldable pub poll_window_closed : (OwnWindow → OwnWindow) → ℕ → WindowTable → Polled Bool
unfolding find update_window
poll_window_closed pump surface t =
    poll_found (λ w. ((pump w).closed, pump w)) t (find surface t.surface_windows)

unfoldable pub poll_window_resized : (OwnWindow → OwnWindow) → ℕ → WindowTable → Polled Bool
unfolding find update_window
poll_window_resized pump surface t =
    poll_found (λ w. ((pump w).resized, record (pump w) { resized = false })) t
      (find surface t.surface_windows)

unfoldable pub poll_window_events : ℕ → ℕ → WindowTable → Polled (List InputEvent × Bool)
unfolding find update_window take_input_events
poll_window_events max_events surface t =
    poll_found
      (λ w.
        let (events, overflowed, w') = take_input_events max_events w in ((events, overflowed), w'))
      t (find surface t.surface_windows)
