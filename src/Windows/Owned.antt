-- ===== src/Windows/Owned.antt =====
-- server/session.cpp: no poll of a surface ever reads a window that is gone. The handlers of
-- server/handlers_wsi.cpp create a window, then either associate it with the new surface or discard it.
use vulkan_remote.Base.{
  ℕ, ◌≡◌, ◌≢◌, refl, sym, ap, ◌∙◌, inl, inr, Bool, true, false, ◌||◌, Option, none, some, List, [],
  ◌∷◌, ◌++◌, arith,
}
use vulkan_remote.Base.Tests.{◌==◌, if◌then◌else◌, Bool-cases, if_true, if_false, equal_or_not}
use vulkan_remote.Base.Maps.{find, insert, erase, find-insert, find-erase}
use vulkan_remote.Windows.{
  OwnWindow, WindowTable, no_windows, new_window, create_own_window, associate_surface,
  erase_window, discard_own_window, release_found, release_surface_window, update_window,
}

-- Every surface has a window that is there, and no two surfaces have the same one.
pub record IsOwned (t : WindowTable) : Type 0 where
  pub there :
      (surface window : ℕ)
      → find surface t.surface_windows ≡ some window
      → (w : OwnWindow) × (find window t.own_windows ≡ some w)
  pub apart :
      (surface surface' window : ℕ)
      → find surface t.surface_windows ≡ some window
      → find surface' t.surface_windows ≡ some window
      → surface ≡ surface'

-- No surface has the window.
abbrev pub IsFree : WindowTable → ℕ → Type 0
IsFree t window = (surface : ℕ) → find surface t.surface_windows ≢ some window

find-append :
    (j k : ℕ) (w v : OwnWindow) (ws : List (ℕ × OwnWindow))
    → find j ws ≡ some v
    → find j (ws ++ ((k, w) ∷ [])) ≡ some v
unfolding find
find-append j k w v [] e = ground (arith, e)
find-append j k w v ((i, u) ∷ ws) e = ground (arith, e, find-append j k w v ws)

pub find-last :
    (k : ℕ) (w : OwnWindow) (ws : List (ℕ × OwnWindow))
    → (v : OwnWindow) × (find k (ws ++ ((k, w) ∷ [])) ≡ some v)
unfolding find
find-last k w [] = (w, ground arith)
find-last k w ((i, u) ∷ ws) = elim (Bool-cases (i == k)) [
  | inl e ↦ (u, if_true _ _ e)
  | inr e ↦ let (v, f) = find-last k w ws in (v, if_false _ _ e ∙ f)
]

find-erase_window :
    (j k : ℕ) (ws : List (ℕ × OwnWindow)) → j ≢ k → find j (erase_window k ws) ≡ find j ws
unfolding find erase_window
find-erase_window j k [] n = refl
find-erase_window j k ((i, u) ∷ ws) n = ground (arith, n, find-erase_window j k ws)

find-update_window :
    (j k : ℕ) (n v : OwnWindow) (ws : List (ℕ × OwnWindow))
    → find j ws ≡ some v
    → (u : OwnWindow) × (find j (update_window k n ws) ≡ some u)
unfolding find update_window
find-update_window j k n v [] e = ground (arith, e)
find-update_window j k n v ((i, u) ∷ ws) e = elim (Bool-cases (i == k)) [
  | inl here ↦
      rw (if_true {c = i == k} ((i, n) ∷ ws) ((i, u) ∷ update_window k n ws) here)
        (elim (Bool-cases (i == j)) [
          | inl same ↦ (n, if_true _ _ same)
          | inr other ↦ (v, if_false _ _ other ∙ (sym (if_false _ _ other) ∙ e))
        ])
  | inr away ↦
      rw (if_false {c = i == k} ((i, n) ∷ ws) ((i, u) ∷ update_window k n ws) away)
        (elim (Bool-cases (i == j)) [
          | inl same ↦ (u, if_true _ _ same)
          | inr other ↦
              let (x, f) = find-update_window j k n v ws (sym (if_false _ _ other) ∙ e) in
              (x, if_false _ _ other ∙ f)
        ])
]

-- The steps that the handlers take. A new window has an address that no window of the table has, and
-- it is associated with a surface, or discarded, while no surface has it.
pub data Step : WindowTable → WindowTable → Type 0 where
  creates :
      (t : WindowTable) (address : ℕ) (created : Bool)
      → find address t.own_windows ≡ none
      → Step t (create_own_window address created t).0
  associates :
      (t : WindowTable) (surface window : ℕ) (w : OwnWindow)
      → find window t.own_windows ≡ some w
      → IsFree t window
      → Step t (associate_surface surface window t)
  discards : (t : WindowTable) (window : ℕ) → IsFree t window → Step t (discard_own_window window t)
  releases : (t : WindowTable) (surface : ℕ) → Step t (release_surface_window surface t)
  updates :
      (t : WindowTable) (window : ℕ) (w : OwnWindow)
      → Step t (record t { own_windows = update_window window w t.own_windows })

pub data Reach : WindowTable → Type 0 where
  starts : Reach no_windows
  steps : {t u : WindowTable} → Reach t → Step t u → Reach u

-- The same surfaces, and every window that a surface has is still there.
kept-IsOwned :
    (t : WindowTable) (ws : List (ℕ × OwnWindow))
    → IsOwned t
    → ((surface window : ℕ) (w : OwnWindow)
        → find surface t.surface_windows ≡ some window
        → find window t.own_windows ≡ some w
        → (v : OwnWindow) × (find window ws ≡ some v))
    → IsOwned (record t { own_windows = ws })
kept-IsOwned t ws o f = record {
  there = λ s x e. let (w, g) = o.there s x e in f s x w e g;
  apart = o.apart;
}

create_own_window-IsOwned :
    (address : ℕ) (created : Bool) (t : WindowTable)
    → IsOwned t
    → IsOwned (create_own_window address created t).0
unfolding create_own_window
create_own_window-IsOwned address true t o =
    kept-IsOwned t (t.own_windows ++ ((address, new_window) ∷ [])) o
      (λ s x w e g. (w, find-append x address new_window w t.own_windows g))
create_own_window-IsOwned address false t o = o

associated-IsOwned :
    (surface window : ℕ) (t : WindowTable) (w : OwnWindow)
    → IsOwned t
    → find window t.own_windows ≡ some w
    → IsFree t window
    → IsOwned (record t { surface_windows = insert surface window t.surface_windows })
associated-IsOwned surface window t w o here free = record {
  there = λ s x e. elim (equal_or_not s surface) [
    | inl same ↦
        let f : some window ≡ some x = sym (inserted s same) ∙ e in
        (w, ap (λ k. find k t.own_windows) {x = x} {y = window} (ground (arith, f)) ∙ here)
    | inr other ↦ o.there s x (sym (skipped s other) ∙ e)
  ];
  apart = λ s s' x e e'. elim (equal_or_not s surface) [
    | inl same ↦ elim (equal_or_not s' surface) [
      | inl same' ↦ omega (arith, same, same')
      | inr other' ↦
          let f : some window ≡ some x = sym (inserted s same) ∙ e in
          absurd (free s' (sym (skipped s' other') ∙ (e' ∙ sym f)))
    ]
    | inr other ↦ elim (equal_or_not s' surface) [
      | inl same' ↦
          let f : some window ≡ some x = sym (inserted s' same') ∙ e' in
          absurd (free s (sym (skipped s other) ∙ (e ∙ sym f)))
      | inr other' ↦ o.apart s s' x (sym (skipped s other) ∙ e) (sym (skipped s' other') ∙ e')
    ]
  ];
}
  where
    inserted :
        (s : ℕ) → s ≡ surface → find s (insert surface window t.surface_windows) ≡ some window
    inserted s same =
        find-insert s surface window t.surface_windows
        ∙ if_true {c = s == surface} (some window) (find s t.surface_windows) (ground (arith, same))

    skipped :
        (s : ℕ)
        → s ≢ surface
        → find s (insert surface window t.surface_windows) ≡ find s t.surface_windows
    skipped s other =
        find-insert s surface window t.surface_windows
        ∙ if_false {c = s == surface} (some window) (find s t.surface_windows)
            (ground (arith, other))

release_found-IsOwned :
    (surface : ℕ) (t : WindowTable) (o : Option ℕ)
    → find surface t.surface_windows ≡ o
    → IsOwned t
    → IsOwned (release_found surface t o)
release_found-IsOwned surface t none e o = o
release_found-IsOwned surface t (some window) e o = record {
  there = λ s x f.
      let g = left s x f in
      let (w, h) = o.there s x g.1 in
      (
        w,
        find-erase_window x window t.own_windows
              (λ same. g.0 (o.apart s surface window (g.1 ∙ ap some same) e))
            ∙ h,
      );
  apart = λ s s' x f f'. o.apart s s' x (left s x f).1 (left s' x f').1;
}
  where
    left :
        (s x : ℕ)
        → find s (erase surface t.surface_windows) ≡ some x
        → (s ≢ surface) × (find s t.surface_windows ≡ some x)
    left s x f = elim (equal_or_not s surface) [
      | inl same ↦ ground (arith, find-erase s surface t.surface_windows, f, same)
      | inr other ↦ (other, ground (arith, find-erase s surface t.surface_windows, f, other))
    ]

either-IsOwned :
    (b : Bool) (t u : WindowTable) → IsOwned t → IsOwned u → IsOwned (if b then t else u)
either-IsOwned true t u h k = h
either-IsOwned false t u h k = k

-- Every step keeps the windows of all surfaces there.
Step-IsOwned : {t u : WindowTable} → Step t u → IsOwned t → IsOwned u
unfolding associate_surface discard_own_window release_surface_window
Step-IsOwned (creates t address created f) o = create_own_window-IsOwned address created t o
Step-IsOwned (associates t surface window w here free) o =
    either-IsOwned (surface == 0 || window == 0) t
      (record t { surface_windows = insert surface window t.surface_windows }) o
      (associated-IsOwned surface window t w o here free)
Step-IsOwned (discards t window free) o =
    either-IsOwned (window == 0) t (record t { own_windows = erase_window window t.own_windows }) o
      (kept-IsOwned t (erase_window window t.own_windows) o (λ s x w e g.
        (w, find-erase_window x window t.own_windows (λ same. free s (e ∙ ap some same)) ∙ g)))
Step-IsOwned (releases t surface) o =
    either-IsOwned (surface == 0) t (release_found surface t (find surface t.surface_windows)) o
      (release_found-IsOwned surface t (find surface t.surface_windows) refl o)
Step-IsOwned (updates t window n) o =
    kept-IsOwned t (update_window window n t.own_windows) o
      (λ s x w e g. find-update_window x window n w t.own_windows g)

pub Reach-IsOwned : {t : WindowTable} → Reach t → IsOwned t
unfolding find
Reach-IsOwned starts = record {
  there = λ s x e. ground (arith, e);
  apart = λ s s' x e e'. ground (arith, e);
}
Reach-IsOwned (steps r s) = Step-IsOwned s (Reach-IsOwned r)
