-- ===== src/Windows/Polls.antt =====
-- server/session.cpp and server/handlers_wsi.cpp: the polls of a surface and the creation of a window
-- for it, in any state that the server can reach.
use vulkan_remote.Base.{ℕ, ◌≡◌, refl, Bool, true, false, Option, none, some, ◌++◌, [], ◌∷◌, arith}
use vulkan_remote.Base.Tests.{◌==◌, if◌then◌else◌}
use vulkan_remote.Base.Maps.{find}
use vulkan_remote.Windows.{
  OwnWindow, WindowTable, new_window, create_own_window, associate_surface, discard_own_window,
  after_create, open_window, deref, Polled, unmapped, dangling, answered, poll_deref, poll_found,
  poll_window_closed, poll_window_resized, poll_window_events, take_input_events,
}
use vulkan_remote.Windows.Owned.{
  IsOwned, IsFree, find-last, creates, associates, discards, updates, Reach, steps, Reach-IsOwned,
}

-- The poll has met no window or one that is there, and the server is in a state that it can reach.
abbrev pub IsSafe : {A : Type 0} → Polled A → Type 0
IsSafe unmapped = Unit
IsSafe dangling = ⊥
IsSafe (answered a t) = Reach t

poll_deref-IsSafe :
    {A : Type 0} (use_window : OwnWindow → A × OwnWindow) (t : WindowTable) (window : ℕ)
    (o : Option OwnWindow)
    → Reach t
    → (w : OwnWindow) × (o ≡ some w)
    → IsSafe (poll_deref use_window t window o)
poll_deref-IsSafe use_window t window none r (w, e) = ground (arith, e)
poll_deref-IsSafe use_window t window (some w) r e = steps r (updates t window (use_window w).1)

poll_found-IsSafe :
    {A : Type 0} (use_window : OwnWindow → A × OwnWindow) (t : WindowTable) (surface : ℕ)
    (o : Option ℕ)
    → Reach t
    → find surface t.surface_windows ≡ o
    → IsSafe (poll_found use_window t o)
poll_found-IsSafe use_window t surface none r e = tt
poll_found-IsSafe use_window t surface (some window) r e =
    poll_deref-IsSafe use_window t window (deref t window) r
      ((Reach-IsOwned r).there surface window e)

-- In every state that the server can reach, none of the three polls reads a window that is gone, for
-- any surface, and each leaves a state that it can reach.
pub polls-IsSafe :
    (pump : OwnWindow → OwnWindow) (max_events surface : ℕ) (t : WindowTable)
    → Reach t
    → IsSafe (poll_window_closed pump surface t)
      × IsSafe (poll_window_resized pump surface t)
      × IsSafe (poll_window_events max_events surface t)
unfolding poll_window_closed poll_window_resized poll_window_events
polls-IsSafe pump max_events surface t r =
    let o = find surface t.surface_windows in
    (
      poll_found-IsSafe (λ w. ((pump w).closed, pump w)) t surface o r refl,
      poll_found-IsSafe (λ w. ((pump w).resized, record (pump w) { resized = false })) t surface o r
          refl,
      poll_found-IsSafe
          (λ w.
            let (events, overflowed, w') = take_input_events max_events w in
            ((events, overflowed), w'))
          t surface o r refl,
    )

-- A window at an address where none was belongs to no surface.
fresh-IsFree :
    (t : WindowTable) (address : ℕ)
    → IsOwned t
    → find address t.own_windows ≡ none
    → IsFree t address
fresh-IsFree t address o f surface e =
    let (w, g) = o.there surface address e in ground (arith, f, g)

either-Reach : (b : Bool) (t u : WindowTable) → Reach t → Reach u → Reach (if b then t else u)
either-Reach true t u h k = h
either-Reach false t u h k = k

after_create-Reach :
    (surface : Option ℕ) (t : WindowTable) (window : ℕ) (w : OwnWindow)
    → Reach t
    → find window t.own_windows ≡ some w
    → IsFree t window
    → Reach (after_create surface (t, window))
after_create-Reach none t window w r f free =
    either-Reach (window == 0) t (discard_own_window window t) r (steps r (discards t window free))
after_create-Reach (some surface) t window w r f free =
    either-Reach (window == 0) t (associate_surface surface window t) r
      (steps r (associates t surface window w f free))

failed_create :
    (surface : Option ℕ) (t : WindowTable) → Reach t → Reach (after_create surface (t, 0))
failed_create none t r = r
failed_create (some surface) t r = r

-- The handlers that open a window for a surface take the server from a state that it can reach to
-- another, whether the window or the surface can be created or not, if the new window is at an address
-- where none was.
pub open_window-Reach :
    (address : ℕ) (created : Bool) (surface : Option ℕ) (t : WindowTable)
    → Reach t
    → find address t.own_windows ≡ none
    → Reach (open_window address created surface t)
unfolding open_window create_own_window
open_window-Reach address false surface t r f = failed_create surface t r
open_window-Reach address true surface t r f =
    let t' = record t { own_windows = t.own_windows ++ ((address, new_window) ∷ []) } in
    let (w, g) = find-last address new_window t.own_windows in
    after_create-Reach surface t' address w (steps r (creates t address true f)) g
      (fresh-IsFree t address (Reach-IsOwned r) f)
