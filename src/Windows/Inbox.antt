-- ===== src/Windows/Inbox.antt =====
-- server/own_window_input.cpp against what it promises: a bounded queue that coalesces motions, and
-- that a client either reads in full or is told to have lost. Sequence numbers are the subject of the
-- second part.
use vulkan_remote.Base.{
  ℕ, zero, suc, ◌≡◌, refl, ap, ◌∙◌, min, Bool, true, false, ◌&&◌, List, [], ◌∷◌, ◌++◌, map, arith,
}
use vulkan_remote.Base.Tests.{leb, if◌then◌else◌}
use vulkan_remote.Base.Lists.{length, take, drop}
use vulkan_remote.Base.Words.{ℤ}
use vulkan_remote.Windows.{
  InputType, InputEvent, OwnWindow, max_input_events, is_motion, ends_in_motion, move_last,
  record_input, take_input_events,
}

-- An event as the client cares for it.
pub record Input : Type 0 where
  pub type : InputType
  pub a : ℤ
  pub b : ℤ
  pub c : ℤ
  pub d : ℤ

-- What a client can still read: the inputs since it last did, or that some were lost.
pub data Inbox : Type 0 where
  lost : Inbox
  pending : List Input → Inbox

abbrev pub last_moves : List Input → Bool
last_moves [] = false
last_moves (e ∷ []) = is_motion e.type
last_moves (e ∷ f ∷ es) = last_moves (f ∷ es)

abbrev pub moved : ℤ → ℤ → List Input → List Input
moved a b [] = []
moved a b (e ∷ []) = record e { a = a; b = b } ∷ []
moved a b (e ∷ f ∷ es) = e ∷ moved a b (f ∷ es)

-- An input arrives: it replaces a motion by a motion, it is the next one, or there are too many.
abbrev pub arrive : Input → Inbox → Inbox
arrive e lost = lost
arrive e (pending es) =
    if is_motion e.type && last_moves es
    then pending (moved e.a e.b es)
    else if leb max_input_events (length es)
    then lost
    else pending (es ++ (e ∷ []))

-- A client reads: the inputs, or that it lost some; then the inbox is empty.
abbrev pub collect : ℕ → Inbox → List Input × Bool × Inbox
collect max_events lost = ([], true, pending [])
collect max_events (pending es) =
    let count = min max_events (length es) in (take count es, false, pending (drop count es))

abbrev pub input_of : InputEvent → Input
input_of e = record { type = e.type; a = e.a; b = e.b; c = e.c; d = e.d }

abbrev pub inbox : OwnWindow → Inbox
inbox w = if w.input_overflowed then lost else pending (map input_of w.input_events)

ends_in_motion-inputs : (es : List InputEvent) → ends_in_motion es ≡ last_moves (map input_of es)
unfolding ends_in_motion
ends_in_motion-inputs [] = refl
ends_in_motion-inputs (e ∷ []) = refl
ends_in_motion-inputs (e ∷ f ∷ es) = ends_in_motion-inputs (f ∷ es)

move_last-inputs :
    (a b : ℤ) (es : List InputEvent) → map input_of (move_last a b es) ≡ moved a b (map input_of es)
unfolding move_last
move_last-inputs a b [] = refl
move_last-inputs a b (e ∷ []) = refl
move_last-inputs a b (e ∷ f ∷ es) = ap (◌∷◌ (input_of e)) (move_last-inputs a b (f ∷ es))

length-inputs : (es : List InputEvent) → length (map input_of es) ≡ length es
length-inputs [] = refl
length-inputs (e ∷ es) = ap suc (length-inputs es)

inputs-append :
    (es fs : List InputEvent) → map input_of (es ++ fs) ≡ map input_of es ++ map input_of fs
inputs-append [] fs = refl
inputs-append (e ∷ es) fs = ap (◌∷◌ (input_of e)) (inputs-append es fs)

take-inputs : (n : ℕ) (es : List InputEvent) → map input_of (take n es) ≡ take n (map input_of es)
take-inputs zero es = refl
take-inputs (suc n) [] = refl
take-inputs (suc n) (e ∷ es) = ap (◌∷◌ (input_of e)) (take-inputs n es)

drop-inputs : (n : ℕ) (es : List InputEvent) → map input_of (drop n es) ≡ drop n (map input_of es)
drop-inputs zero es = refl
drop-inputs (suc n) [] = refl
drop-inputs (suc n) (e ∷ es) = drop-inputs n es

-- What `record_input` does is what arrives in the inbox.
pub record_input_refines :
    (w : OwnWindow) (e : Input) → inbox (record_input w e.type e.a e.b e.c e.d) ≡ arrive e (inbox w)
unfolding record_input
record_input_refines w e = ground (
  arith,
  ends_in_motion-inputs w.input_events,
  move_last-inputs e.a e.b w.input_events,
  length-inputs w.input_events,
  inputs-append w.input_events (
      record { sequence = w.next_input_sequence; type = e.type; a = e.a; b = e.b; c = e.c; d = e.d }
      ∷ []),
)

-- A client sees of `take_input_events` what it collects from the inbox.
abbrev pub seen : List InputEvent × Bool × OwnWindow → List Input × Bool × Inbox
seen (events, overflowed, w) = (map input_of events, overflowed, inbox w)

take_input_events_refines :
    (max_events : ℕ) (w : OwnWindow)
    → seen (take_input_events max_events w) ≡ collect max_events (inbox w)
unfolding take_input_events
take_input_events_refines max_events w = ground (
  arith,
  take-inputs (min max_events (length w.input_events)) w.input_events,
  drop-inputs (min max_events (length w.input_events)) w.input_events,
  length-inputs w.input_events,
)

-- What happens to a window, in the order of its mutex.
pub data Action : Type 0 where
  arrives : Input → Action
  reads : ℕ → Action

abbrev pub replies : OwnWindow → List Action → List (List Input × Bool)
replies w [] = []
replies w (arrives e ∷ acts) = replies (record_input w e.type e.a e.b e.c e.d) acts
replies w (reads n ∷ acts) =
    let (events, overflowed, w') = take_input_events n w in
    (map input_of events, overflowed) ∷ replies w' acts

abbrev pub inbox_replies : Inbox → List Action → List (List Input × Bool)
inbox_replies i [] = []
inbox_replies i (arrives e ∷ acts) = inbox_replies (arrive e i) acts
inbox_replies i (reads n ∷ acts) =
    let (inputs, overflowed, i') = collect n i in (inputs, overflowed) ∷ inbox_replies i' acts

-- No sequence of inputs and reads tells the queue of a window from the inbox: nothing that was lost,
-- and nothing that came before a loss, is ever read after it.
pub replies_refine :
    (w : OwnWindow) (acts : List Action) → replies w acts ≡ inbox_replies (inbox w) acts
replies_refine w [] = refl
replies_refine w (arrives e ∷ acts) =
    replies_refine (record_input w e.type e.a e.b e.c e.d) acts
    ∙ ap (λ i. inbox_replies i acts) (record_input_refines w e)
replies_refine w (reads n ∷ acts) =
    let (events, overflowed, w') = take_input_events n w in
    ap (◌∷◌ (map input_of events, overflowed)) (replies_refine w' acts)
    ∙ ap (λ (r : List Input × Bool × Inbox). (r.0, r.1) ∷ inbox_replies r.2 acts)
        (take_input_events_refines n w)
