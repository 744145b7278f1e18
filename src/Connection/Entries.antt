-- ===== src/Connection/Entries.antt =====
-- client/remote_objects.cpp: the map of pending requests.
use vulkan_remote.Base.{ℕ, ◌+◌, ◌≡◌, ap, none, some, List, [], ◌∷◌, ◌++◌, arith}
use vulkan_remote.Base.Tests.{◌==◌, if◌then◌else◌}
use vulkan_remote.Base.Lists.{length}
use vulkan_remote.Base.Maps.{find, erase, find-erase, erase-none}
use vulkan_remote.Connection.{Pending, waiters}

-- Each key stands once.
unfoldable pub IsMap {ℓ} : {V : Type ℓ} → List (ℕ × V) → Type ℓ
unfolding find
IsMap [] = Unit
IsMap ((k, v) ∷ m) = (find k m ≡ none) × IsMap m

module _ {ℓ} {V : Type ℓ} where
  pub erase-IsMap : (k : ℕ) (m : List (ℕ × V)) → IsMap m → IsMap (erase k m)
  unfolding IsMap erase
  erase-IsMap k [] h = tt
  erase-IsMap k ((j, v) ∷ m) (f, h) = ground (arith, f, erase-IsMap k m h, find-erase j k m)

  length-erase_absent : (k : ℕ) (m : List (ℕ × V)) → find k m ≡ none → length (erase k m) ≡ length m
  length-erase_absent k m e = ap length (erase-none k m e)

  pub length-erase :
      (k : ℕ) (v : V) (m : List (ℕ × V))
      → IsMap m
      → find k m ≡ some v
      → length (erase k m) + 1 ≡ length m
  unfolding IsMap erase find
  length-erase k v [] h e = ground (arith, e)
  length-erase k v ((j, w) ∷ m) (f, h) e =
      ground (arith, f, e, length-erase k v m h, length-erase_absent k m)

-- How often a number stands in a list.
abbrev pub occurrences : ℕ → List ℕ → ℕ
occurrences x [] = 0
occurrences x (y ∷ ys) = (if x == y then 1 else 0) + occurrences x ys

pub occurrences-append :
    (x : ℕ) (ys zs : List ℕ) → occurrences x (ys ++ zs) ≡ occurrences x ys + occurrences x zs
occurrences-append x [] zs = omega arith
occurrences-append x (y ∷ ys) zs = omega (arith, occurrences-append x ys zs)

waiters-erase_absent :
    (t k : ℕ) (m : List (ℕ × Pending))
    → find k m ≡ none
    → occurrences t (waiters (erase k m)) ≡ occurrences t (waiters m)
waiters-erase_absent t k m e = ap (λ n. occurrences t (waiters n)) (erase-none k m e)

pub waiters-erase :
    (t k : ℕ) (p : Pending) (m : List (ℕ × Pending))
    → IsMap m
    → find k m ≡ some p
    → occurrences t (waiters m)
      ≡ (if t == p.waiter then 1 else 0) + occurrences t (waiters (erase k m))
unfolding IsMap erase find
waiters-erase t k p [] h e = ground (arith, e)
waiters-erase t k p ((j, q) ∷ m) (f, h) e =
    ground (arith, f, e, waiters-erase t k p m h, waiters-erase_absent t k m)
