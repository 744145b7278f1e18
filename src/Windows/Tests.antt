-- ===== src/Windows/Tests.antt =====
-- server/session.cpp and server/own_window_input.cpp: one window with a click and a motion, and its
-- surface.
use vulkan_remote.Base.{◌≡◌, refl, true, false, some, [], ◌∷◌, arith}
use vulkan_remote.Base.Maps.{find}
use vulkan_remote.Base.Words.{pos}
use vulkan_remote.Windows.{
  motion, button, OwnWindow, no_windows, new_window, record_input, take_input_events,
  ends_in_motion, move_last, open_window, poll_window_closed, poll_window_resized,
  poll_window_events,
}
use vulkan_remote.Windows.Inbox.{
  Input, inbox, arrives, reads, replies, inbox_replies, replies_refine,
}
use vulkan_remote.Windows.Numbers.{IsQueue, record_input-IsQueue, IsRead, take_input_events-IsRead}
use vulkan_remote.Windows.Owned.{starts}
use vulkan_remote.Windows.Polls.{IsSafe, polls-IsSafe, open_window-Reach}

abbrev click : Input
click = record { type = button; a = pos 272; b = pos 1; c = pos 0; d = pos 0 }

abbrev point : Input
point = record { type = motion; a = pos 5; b = pos 6; c = pos 0; d = pos 0 }

abbrev clicked : OwnWindow
clicked = record new_window {
  input_events =
      record { sequence = 1; type = button; a = pos 272; b = pos 1; c = pos 0; d = pos 0 } ∷ [];
  next_input_sequence = 2;
}

clicked-IsQueue : IsQueue clicked
clicked-IsQueue = record { bounded = omega arith; counted = omega arith; numbered = (refl, tt) }

-- Two motions are read as one.
motions_join :
    replies new_window
      (arrives point ∷ arrives click ∷ arrives point ∷ arrives point ∷ reads 9 ∷ [])
    ≡ (point ∷ click ∷ point ∷ [], false) ∷ []
unfolding record_input take_input_events ends_in_motion move_last
motions_join = refl

replies_refine_example :
    replies clicked (arrives point ∷ reads 9 ∷ reads 9 ∷ [])
    ≡ inbox_replies (inbox clicked) (arrives point ∷ reads 9 ∷ reads 9 ∷ [])
replies_refine_example = replies_refine clicked (arrives point ∷ reads 9 ∷ reads 9 ∷ [])

record_input-IsQueue_example : IsQueue (record_input clicked motion (pos 5) (pos 6) (pos 0) (pos 0))
record_input-IsQueue_example =
    record_input-IsQueue clicked motion (pos 5) (pos 6) (pos 0) (pos 0) clicked-IsQueue
      (omega arith)

take_input_events-IsRead_example : IsRead 1 clicked (take_input_events 1 clicked)
take_input_events-IsRead_example = take_input_events-IsRead 1 clicked clicked-IsQueue

polls-IsSafe_example :
    IsSafe (poll_window_closed (λ w. w) 9 (open_window 80 true (some 9) no_windows))
    × IsSafe (poll_window_resized (λ w. w) 9 (open_window 80 true (some 9) no_windows))
    × IsSafe (poll_window_events 5 9 (open_window 80 true (some 9) no_windows))
unfolding find
polls-IsSafe_example =
    polls-IsSafe (λ w. w) 5 9 (open_window 80 true (some 9) no_windows)
      (open_window-Reach 80 true (some 9) no_windows starts refl)
