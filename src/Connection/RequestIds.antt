-- ===== src/Connection/RequestIds.antt =====
-- client/remote_objects.cpp: the loop that finds a free request id.
use vulkan_remote.Base.{
  ℕ, zero, suc, ◌+◌, ◌%◌, ◌^◌, ◌≤◌, ◌<◌, ◌≡◌, ◌≢◌, refl, sym, ap, ◌∙◌, inl, inr, true, false, ◌||◌,
  none, some, List, [], ◌∷◌, arith,
}
use vulkan_remote.Base.Tests.{◌==◌, if◌then◌else◌, Bool-cases, equal_or_not, Option-cases, if_true}
use vulkan_remote.Base.Lists.{length}
use vulkan_remote.Base.Maps.{find, erase, find-erase, length-erase-le}
use vulkan_remote.Connection.{Pending, next_id, is_some}

-- The id that is tried after `i` rounds.
abbrev tried : ℕ → ℕ → ℕ
tried next i = (next + i) % 2 ^ 64

-- An entry whose id is not tried makes no difference.
next_id_skips :
    (rounds next id : ℕ) (m : List (ℕ × Pending))
    → next < 2 ^ 64
    → ((i : ℕ) → i < rounds → tried next i ≢ id)
    → next_id rounds next (erase id m) ≡ next_id rounds next m
unfolding next_id
next_id_skips zero next id m b h = refl
next_id_skips (suc rounds) next id m b h =
    let now : next ≢ id = λ e. h 0 (omega arith) (omega (arith, e)) in
    let later =
      next_id_skips rounds ((next + 1) % 2 ^ 64) id m (omega arith)
        (λ i k e. h (i + 1) (omega (arith, k)) (omega (arith, e))) in
    let same : find next (erase id m) ≡ find next m = ground (arith, find-erase next id m, now) in
    ap
      (λ o.
        if next == 0 || is_some o
        then next_id rounds ((next + 1) % 2 ^ 64) (erase id m)
        else some (next, (next + 1) % 2 ^ 64))
      same
    ∙ ap (λ r. if next == 0 || is_some (find next m) then r else some (next, (next + 1) % 2 ^ 64))
        later

length-erase-lt :
    (k : ℕ) (m : List (ℕ × Pending)) → is_some (find k m) ≡ true → length (erase k m) < length m
unfolding find erase
length-erase-lt k [] e = ground (arith, e)
length-erase-lt k ((j, p) ∷ m) e = ground (arith, e, length-erase-lt k m, length-erase-le k m)

-- If 0 is not tried, one round more than there are entries is enough.
next_id_past_entries :
    (rounds next : ℕ) (m : List (ℕ × Pending))
    → next < 2 ^ 64
    → rounds ≤ 2 ^ 64
    → ((i : ℕ) → i < rounds → tried next i ≢ 0)
    → length m < rounds
    → (r : ℕ × ℕ) × (next_id rounds next m ≡ some r)
unfolding next_id
next_id_past_entries zero next m b w h l = absurd (omega (arith, l))
next_id_past_entries (suc rounds) next m b w h l =
    let now : next ≢ 0 = λ e. h 0 (omega arith) (omega (arith, e)) in
    elim (Bool-cases (is_some (find next m))) [
      | inr free ↦ ((next, (next + 1) % 2 ^ 64), ground (arith, now, free))
      | inl used ↦
          let (r, found) =
            next_id_past_entries rounds ((next + 1) % 2 ^ 64) (erase next m) (omega arith)
              (omega (arith, w)) (λ i k e. h (i + 1) (omega (arith, k)) (omega (arith, e)))
              (omega (arith, l, length-erase-lt next m used)) in
          let skips =
            next_id_skips rounds ((next + 1) % 2 ^ 64) next m (omega arith)
              (λ i k e. omega (arith, e, k, w)) in
          (r, ground (arith, used, found, skips))
    ]

next_id_past_zero :
    (rounds next : ℕ) (m : List (ℕ × Pending))
    → next < 2 ^ 64
    → rounds ≤ 2 ^ 64
    → length m + 1 < rounds
    → (r : ℕ × ℕ) × (next_id rounds next m ≡ some r)
unfolding next_id
next_id_past_zero zero next m b w l = absurd (omega (arith, l))
next_id_past_zero (suc rounds) next m b w l = elim (equal_or_not next 0) [
  | inl z ↦
      let (r, found) =
        next_id_past_entries rounds ((next + 1) % 2 ^ 64) m (omega arith) (omega (arith, w))
          (λ i k e. omega (arith, e, k, w, z)) (omega (arith, l)) in
      (r, ground (arith, z, found))
  | inr nz ↦ elim (Bool-cases (is_some (find next m))) [
    | inr free ↦ ((next, (next + 1) % 2 ^ 64), ground (arith, nz, free))
    | inl used ↦
        let (r, found) =
          next_id_past_zero rounds ((next + 1) % 2 ^ 64) (erase next m) (omega arith)
            (omega (arith, w)) (omega (arith, l, length-erase-lt next m used)) in
        let skips =
          next_id_skips rounds ((next + 1) % 2 ^ 64) next m (omega arith)
            (λ i k e. omega (arith, e, k, w)) in
        (r, ground (arith, used, found, skips))
  ]
]

none_found : (k : ℕ) (m : List (ℕ × Pending)) → is_some (find k m) ≡ false → find k m ≡ none
none_found k m e = elim (Option-cases (find k m)) [ inl n ↦ n | inr (p, q) ↦ ground (arith, e, q) ]

next_id_free :
    (rounds next id next' : ℕ) (m : List (ℕ × Pending))
    → next < 2 ^ 64
    → next_id rounds next m ≡ some (id, next')
    → (id ≢ 0) × (find id m ≡ none) × (id < 2 ^ 64) × (next' < 2 ^ 64)
unfolding next_id
next_id_free zero next id next' m b e = ground (arith, e)
next_id_free (suc rounds) next id next' m b e =
    elim (Bool-cases (next == 0 || is_some (find next m))) [
      | inl used ↦
          next_id_free rounds ((next + 1) % 2 ^ 64) id next' m (omega arith)
            (sym (if_true _ _ used) ∙ e)
      | inr free ↦
          let same : next ≡ id = ground (arith, free, e) in
          let none_there = none_found next m (ground (arith, free)) in
          (
            ground (arith, same, free),
            ap (λ k. find k m) (sym same) ∙ none_there,
            omega (arith, same),
            ground (arith, free, e),
          )
    ]

-- With at most 2 ^ 64 - 2 requests in flight the loop ends: two rounds more than there are entries
-- find an id. It is not 0, no request in flight has it, and it and the counter fit 64 bits.
pub next_id_total :
    (next : ℕ) (m : List (ℕ × Pending))
    → next < 2 ^ 64
    → length m + 2 ≤ 2 ^ 64
    → (id : ℕ) × (next' : ℕ) × (next_id (length m + 2) next m ≡ some (id, next'))
      × (id ≢ 0)
      × (find id m ≡ none)
      × (id < 2 ^ 64)
      × (next' < 2 ^ 64)
next_id_total next m b l =
    let (r, found) = next_id_past_zero (length m + 2) next m b l (omega arith) in
    let (nz, free, small, fits) = next_id_free (length m + 2) next r.0 r.1 m b found in
    (r.0, r.1, found, nz, free, small, fits)
