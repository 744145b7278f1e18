-- ===== src/Mapped/Writes.antt =====
-- Laws of `write_at`, a `memcpy` into a block of bytes, byte by byte.
use vulkan_remote.Base.{
  ℕ, zero, suc, ◌+◌, ◌-◌, ◌≤◌, ◌<◌, ◌≡◌, refl, ap, ◌∙◌, List, [], ◌∷◌, ◌++◌, arith,
}
use vulkan_remote.Base.Tests.{ltb, if◌then◌else◌}
use vulkan_remote.Base.Lists.{length, take, drop, get_or, length-take, length-drop, length-append}
use vulkan_remote.Mapped.{write_at}

-- The bytes of a range.
abbrev pub slice : ℕ → ℕ → List ℕ → List ℕ
slice position size xs = take size (drop position xs)

pub length-write_at :
    (p : ℕ) (bytes xs : List ℕ)
    → p + length bytes ≤ length xs
    → length (write_at p bytes xs) ≡ length xs
unfolding write_at
length-write_at p bytes xs h = omega (
  arith,
  length-append (take p xs) (bytes ++ drop (p + length bytes) xs),
  length-append bytes (drop (p + length bytes) xs),
  length-take p xs,
  length-drop (p + length bytes) xs,
  h,
)

get_or-append :
    (xs ys : List ℕ) (i : ℕ)
    → get_or (xs ++ ys) i 0
      ≡ (if ltb i (length xs) then get_or xs i 0 else get_or ys (i - length xs) 0)
get_or-append [] ys i = ground (arith, ap (λ k. get_or ys k 0) {x = i} {y = i - 0} (omega arith))
get_or-append (x ∷ xs) ys zero = ground arith
get_or-append (x ∷ xs) ys (suc i) = ground (
  arith,
  get_or-append xs ys i,
  ap (λ k. get_or ys k 0) {x = i - length xs} {y = suc i - suc (length xs)} (omega arith),
)

pub get_or-drop : (n : ℕ) (xs : List ℕ) (i : ℕ) → get_or (drop n xs) i 0 ≡ get_or xs (n + i) 0
get_or-drop zero xs i = ap (λ k. get_or xs k 0) (omega arith)
get_or-drop (suc n) [] i = refl
get_or-drop (suc n) (x ∷ xs) i =
    get_or-drop n xs i
    ∙ ap (λ k. get_or (x ∷ xs) k 0) {x = suc (n + i)} {y = suc n + i} (omega arith)

pub get_or-take : (n : ℕ) (xs : List ℕ) (i : ℕ) → i < n → get_or (take n xs) i 0 ≡ get_or xs i 0
get_or-take zero xs i h = absurd (omega arith)
get_or-take (suc n) [] i h = refl
get_or-take (suc n) (x ∷ xs) zero h = refl
get_or-take (suc n) (x ∷ xs) (suc i) h = get_or-take n xs i (omega arith)

pub get_or-append_right :
    (xs ys : List ℕ) (i : ℕ) → length xs ≤ i → get_or (xs ++ ys) i 0 ≡ get_or ys (i - length xs) 0
get_or-append_right xs ys i h = ground (arith, h, get_or-append xs ys i)

pub get_or-append_left :
    (xs ys : List ℕ) (i : ℕ) → i < length xs → get_or (xs ++ ys) i 0 ≡ get_or xs i 0
get_or-append_left xs ys i h = ground (arith, h, get_or-append xs ys i)

module _ (p : ℕ) (bytes xs : List ℕ) (i : ℕ) (h : p + length bytes ≤ length xs) where
  abbrev behind : List ℕ
  behind = drop (p + length bytes) xs

  front : length (take p xs) ≡ p
  front = omega (arith, length-take p xs, h)

  -- One byte in front of a write, in it, and behind it.
  pub get_or-write_at_below : i < p → get_or (write_at p bytes xs) i 0 ≡ get_or xs i 0
  unfolding write_at
  get_or-write_at_below l =
      get_or-append_left (take p xs) (bytes ++ behind) i (omega (arith, front, l))
      ∙ get_or-take p xs i l

  pub get_or-write_at_inside :
      p ≤ i → i < p + length bytes → get_or (write_at p bytes xs) i 0 ≡ get_or bytes (i - p) 0
  unfolding write_at
  get_or-write_at_inside l u =
      get_or-append_right (take p xs) (bytes ++ behind) i (omega (arith, front, l))
      ∙ (ap (λ k. get_or (bytes ++ behind) (i - k) 0) front
          ∙ get_or-append_left bytes behind (i - p) (omega (arith, l, u)))

  pub get_or-write_at_above :
      p + length bytes ≤ i → get_or (write_at p bytes xs) i 0 ≡ get_or xs i 0
  unfolding write_at
  get_or-write_at_above l =
      get_or-append_right (take p xs) (bytes ++ behind) i (omega (arith, front, l))
      ∙ (ap (λ k. get_or (bytes ++ behind) (i - k) 0) front
          ∙ (get_or-append_right bytes behind (i - p) (omega (arith, l))
              ∙ (get_or-drop (p + length bytes) xs (i - p - length bytes)
                  ∙ ap (λ k. get_or xs k 0) {x = p + length bytes + (i - p - length bytes)} {y = i}
                      (omega (arith, l)))))

-- Lists of one length with the same bytes are the same.
pub get_or_ext :
    (xs ys : List ℕ)
    → length xs ≡ length ys
    → ((i : ℕ) → i < length xs → get_or xs i 0 ≡ get_or ys i 0)
    → xs ≡ ys
get_or_ext [] [] h f = refl
get_or_ext [] (y ∷ ys) h f = absurd (omega (arith, h))
get_or_ext (x ∷ xs) [] h f = absurd (omega (arith, h))
get_or_ext (x ∷ xs) (y ∷ ys) h f =
    ap (λ k. k ∷ xs) (f 0 (omega arith))
    ∙ ap (◌∷◌ y) (get_or_ext xs ys (omega (arith, h)) (λ i l. f (suc i) (omega (arith, l))))
