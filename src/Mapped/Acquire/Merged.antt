-- ===== src/Mapped/Acquire/Merged.antt =====
-- client/remote_objects.cpp: what `acquire_coherent_mapped` makes of the shadow and the baseline.
use vulkan_remote.Base.{
  ℕ, zero, suc, ◌+◌, ◌-◌, ◌≤◌, ◌<◌, ◌≡◌, refl, sym, ap, ◌∙◌, inl, inr, min, Bool, true, not, ◌||◌,
  Option, some, List, [], ◌∷◌, ◌++◌, arith,
}
use vulkan_remote.Base.Tests.{ltb, ◌==◌, if◌then◌else◌, Bool-cases, if_true, if_false}
use vulkan_remote.Base.Lists.{
  length, get_or, take, drop, take-add, drop-add, length-take, length-drop,
}
use vulkan_remote.Mapped.{MappedRange, max_mapped_chunk}
use vulkan_remote.Mapped.Acquire.{merge_at, acquire_reply, acquire_from, with_bytes, acquire}

merge_at-append :
    (p : ℕ) (xs ys s b : List ℕ)
    → merge_at p (xs ++ ys) s b
      ≡ merge_at (p + length xs) ys (merge_at p xs s b).0 (merge_at p xs s b).1
unfolding merge_at
merge_at-append p xs ys [] b = refl
merge_at-append p xs ys (s ∷ ss) [] = refl
merge_at-append zero [] ys (s ∷ ss) (b ∷ bs) = refl
merge_at-append zero (x ∷ xs) ys (s ∷ ss) (b ∷ bs) =
    ap (λ r. ((if s == b then x else s) ∷ r.0, x ∷ r.1)) (merge_at-append zero xs ys ss bs)
    ∙ ap
        (λ k.
          merge_at k ys ((if s == b then x else s) ∷ (merge_at 0 xs ss bs).0)
            (x ∷ (merge_at 0 xs ss bs).1))
        {x = suc (0 + length xs)} {y = 0 + suc (length xs)} (omega arith)
merge_at-append (suc p) xs ys (s ∷ ss) (b ∷ bs) =
    ap (λ r. (s ∷ r.0, b ∷ r.1)) (merge_at-append p xs ys ss bs)
    ∙ ap (λ k. merge_at k ys (s ∷ (merge_at p xs ss bs).0) (b ∷ (merge_at p xs ss bs).1))
        {x = suc (p + length xs)} {y = suc p + length xs} (omega arith)

-- A byte that the host has not written since is replaced, one that it has stays; the baseline is
-- what came.
merge_at-get :
    (bytes shadow baseline : List ℕ) (i : ℕ)
    → i < length bytes
    → length bytes ≤ length shadow
    → length bytes ≤ length baseline
    → (get_or (merge_at 0 bytes shadow baseline).0 i 0 ≡ (
        if get_or shadow i 0 == get_or baseline i 0 then get_or bytes i 0 else get_or shadow i 0))
      × (get_or (merge_at 0 bytes shadow baseline).1 i 0 ≡ get_or bytes i 0)
unfolding merge_at
merge_at-get [] shadow baseline i h p q = absurd (omega (arith, h))
merge_at-get (x ∷ bytes) [] baseline i h p q = absurd (omega (arith, p))
merge_at-get (x ∷ bytes) (s ∷ shadow) [] i h p q = absurd (omega (arith, q))
merge_at-get (x ∷ bytes) (s ∷ shadow) (b ∷ baseline) zero h p q = (refl, refl)
merge_at-get (x ∷ bytes) (s ∷ shadow) (b ∷ baseline) (suc i) h p q =
    merge_at-get bytes shadow baseline i (omega (arith, h)) (omega (arith, p)) (omega (arith, q))

merge_at_nothing :
    (p : ℕ) (shadow baseline : List ℕ) → merge_at p [] shadow baseline ≡ (shadow, baseline)
unfolding merge_at
merge_at_nothing p [] baseline = refl
merge_at_nothing p (s ∷ shadow) [] = refl
merge_at_nothing zero (s ∷ shadow) (b ∷ baseline) = refl
merge_at_nothing (suc p) (s ∷ shadow) (b ∷ baseline) =
    ap (λ r. (s ∷ r.0, b ∷ r.1)) (merge_at_nothing p shadow baseline)

-- The memory of the device answers with its bytes.
abbrev pub Answers : List ℕ → (ℕ → ℕ → Option (List ℕ)) → Type 0
Answers memory answer =
    (o n : ℕ) → o + n ≤ length memory → answer o n ≡ some (take n (drop o memory))

-- All that is left, merged at once.
abbrev all_merged : List ℕ → ℕ → ℕ → ℕ → List ℕ → List ℕ → Option Bool × List ℕ × List ℕ
all_merged memory offset size done s b =
    let r = merge_at done (take (size - done) (drop (offset + done) memory)) s b in
    (some true, r.0, r.1)

read_length :
    (memory : List ℕ) (o n : ℕ) → o + n ≤ length memory → length (take n (drop o memory)) ≡ n
read_length memory o n h = omega (arith, length-take n (drop o memory), length-drop o memory)

read_bytes :
    (memory : List ℕ) (offset size done chunk : ℕ)
    → offset + done + chunk ≤ length memory
    → (length (take chunk (drop (offset + done) memory)) == chunk) ≡ true
read_bytes memory offset size done chunk h =
    ground (arith, read_length memory (offset + done) chunk h)

nothing_merged :
    (memory : List ℕ) (offset size done : ℕ) (s b : List ℕ)
    → size ≤ done
    → ◌≡◌ {A = Option Bool × List ℕ × List ℕ}
        (some true, s, b)
        (all_merged memory offset size done s b)
nothing_merged memory offset size done s b h =
    ap (λ r. (some true, r.0, r.1))
      (sym (merge_at_nothing done s b)
        ∙ ap (λ k. merge_at done (take k (drop (offset + done) memory)) s b) {x = 0}
            {y = size - done} (omega (arith, h)))

-- The first chunk and the rest are one merge.
join_merged :
    (memory : List ℕ) (offset size done chunk : ℕ) (s b : List ℕ)
    → offset + size ≤ length memory
    → done + chunk ≤ size
    → all_merged memory offset size
        (done + chunk)
        (merge_at done (take chunk (drop (offset + done) memory)) s b).0
        (merge_at done (take chunk (drop (offset + done) memory)) s b).1
      ≡ all_merged memory offset size done s b
join_merged memory offset size done chunk s b h f =
    let xs = take chunk (drop (offset + done) memory) in
    let ys = take (size - (done + chunk)) (drop (offset + (done + chunk)) memory) in
    let both : xs ++ ys ≡ take (size - done) (drop (offset + done) memory) =
      ap (λ z. xs ++ take (size - (done + chunk)) z)
        (ap (λ k. drop k memory) {x = offset + (done + chunk)} {y = offset + done + chunk}
            (omega arith)
          ∙ drop-add (offset + done) chunk memory)
      ∙ (sym (take-add chunk (size - (done + chunk)) (drop (offset + done) memory))
          ∙ ap (λ k. take k (drop (offset + done) memory)) {x = chunk + (size - (done + chunk))}
              {y = size - done} (omega (arith, f))) in
    let len : length xs ≡ chunk = read_length memory (offset + done) chunk (omega (arith, h, f)) in
    ap (λ r. (some true, r.0, r.1))
      (ap (λ k. merge_at (done + k) ys (merge_at done xs s b).0 (merge_at done xs s b).1) (sym len)
        ∙ (sym (merge_at-append done xs ys s b) ∙ ap (λ z. merge_at done z s b) both))

acquire_from_lem :
    (memory : List ℕ) (answer : ℕ → ℕ → Option (List ℕ)) (rounds offset size done : ℕ)
    (s b : List ℕ)
    → Answers memory answer
    → offset + size ≤ length memory
    → size - done < rounds
    → done ≤ size
    → acquire_from answer rounds offset size done s b ≡ all_merged memory offset size done s b
unfolding acquire_from
acquire_from_lem memory answer zero offset size done s b a h l d = absurd (omega (arith, l))
acquire_from_lem memory answer (suc rounds) offset size done s b a h l d =
    elim (Bool-cases (ltb done size)) [
      | inr over ↦
          if_false _ _ over ∙ nothing_merged memory offset size done s b (ground (arith, over))
      | inl more ↦
          let chunk = min max_mapped_chunk (size - done) in
          let bytes = take chunk (drop (offset + done) memory) in
          if_true _ _ more
          ∙ (ap
                (acquire_reply done chunk size
                  (λ d' s' b'. acquire_from answer rounds offset size d' s' b') s b)
                (a (offset + done) chunk (omega (arith, h, d)))
              ∙ (if_true _ _ (read_bytes memory offset size done chunk (omega (arith, h, d)))
                  ∙ (acquire_from_lem memory answer rounds offset size (done + chunk)
                        (merge_at done bytes s b).0 (merge_at done bytes s b).1 a h
                        (ground (arith, l, more)) (omega (arith, d))
                      ∙ join_merged memory offset size done chunk s b h (omega (arith, d)))))
    ]

get_or-take : (n i : ℕ) (xs : List ℕ) → i < n → get_or (take n xs) i 0 ≡ get_or xs i 0
get_or-take zero i xs h = absurd (omega (arith, h))
get_or-take (suc n) i [] h = refl
get_or-take (suc n) zero (x ∷ xs) h = refl
get_or-take (suc n) (suc i) (x ∷ xs) h = get_or-take n i xs (omega (arith, h))

-- The bytes of the whole mapping.
abbrev device_bytes : List ℕ → MappedRange → List ℕ
device_bytes memory m = take (m.size - 0) (drop (m.offset + 0) memory)

acquired :
    (memory : List ℕ) (answer : ℕ → ℕ → Option (List ℕ)) (m : MappedRange)
    → Answers memory answer
    → (m.emulated_coherent ≡ true) × (m.transfer_ready ≡ true)
    → m.offset + m.size ≤ length memory
    → acquire answer m ≡ (
      some true,
      record m {
        shadow = (merge_at 0 (device_bytes memory m) m.shadow m.baseline).0;
        baseline = (merge_at 0 (device_bytes memory m) m.shadow m.baseline).1;
      },
    )
unfolding acquire
acquired memory answer m a (c, t) h =
    if_false {c = not m.emulated_coherent || not m.transfer_ready} _ _ (ground (arith, c, t))
    ∙ ap (λ r. (r.0, with_bytes m r.1 r.2))
        (acquire_from_lem memory answer (suc m.size) m.offset m.size 0 m.shadow m.baseline a h
          (omega arith) (omega arith))

-- If the server answers with the bytes of the memory, `acquire_coherent_mapped` succeeds and asks for
-- the whole mapping: in the shadow, each byte that the host has not written since the last transfer
-- is the memory's and each other byte stays; the baseline is the memory's bytes.
pub acquire_lem :
    (memory : List ℕ) (answer : ℕ → ℕ → Option (List ℕ)) (m : MappedRange) (i : ℕ)
    → Answers memory answer
    → (m.emulated_coherent ≡ true) × (m.transfer_ready ≡ true)
    → m.offset + m.size ≤ length memory
    → (length m.shadow ≡ m.size) × (length m.baseline ≡ m.size)
    → i < m.size
    → ((acquire answer m).0 ≡ some true)
      × (get_or (acquire answer m).1.shadow i 0 ≡ (
          if get_or m.shadow i 0 == get_or m.baseline i 0
          then get_or (drop m.offset memory) i 0
          else get_or m.shadow i 0))
      × (get_or (acquire answer m).1.baseline i 0 ≡ get_or (drop m.offset memory) i 0)
acquire_lem memory answer m i a ready h (ls, lb) k =
    let bytes = device_bytes memory m in
    let all = acquired memory answer m a ready h in
    let len : length bytes ≡ m.size =
      omega (arith, read_length memory (m.offset + 0) (m.size - 0) (omega (arith, h))) in
    let byte : get_or bytes i 0 ≡ get_or (drop m.offset memory) i 0 =
      get_or-take (m.size - 0) i (drop (m.offset + 0) memory) (omega (arith, k))
      ∙ ap (λ n. get_or (drop n memory) i 0) {x = m.offset + 0} {y = m.offset} (omega arith) in
    let (s, b) =
      merge_at-get bytes m.shadow m.baseline i (omega (arith, len, k)) (omega (arith, len, ls))
        (omega (arith, len, lb)) in
    (
      ap (λ r. r.0) all,
      ap (λ r. get_or r.1.shadow i 0) all
          ∙ (s
              ∙ ap
                  (λ x.
                    if get_or m.shadow i 0 == get_or m.baseline i 0 then x else get_or m.shadow i 0)
                  byte),
      ap (λ r. get_or r.1.baseline i 0) all ∙ (b ∙ byte),
    )
