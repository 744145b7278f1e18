-- ===== src/Framing/Sockets.antt =====
-- common/wire.cpp: `write_all` and `read_all` over a blocking socket. What the operating system
-- answers to successive `::send` or `::recv` calls is a list; where it ends, the call still waits.
use vulkan_remote.Base.{
  ℕ, zero, suc, ◌+◌, ◌-◌, ◌≤◌, min, ◌≡◌, refl, ap, Bool, true, false, Option, none, some, List, [],
  ◌∷◌, ◌++◌, append_assoc, arith, ◌∙◌, ◌↔◌, sym,
}
use mathlib.Core.Path.{ap₂}
use vulkan_remote.Base.Lists.{
  length, take, drop, length-take, length-drop, take-append-drop, drop-add, take-add, length-append,
}

-- `moved n` is a return value of n; the other three are -1, by what the error code says.
pub data IoResult : Type 0 where
  moved : ℕ → IoResult
  interrupted timed_out failed : IoResult

pub data Outcome : Type 0 where
  returned : Bool → Outcome
  blocked : Outcome

-- The result, the bytes that went out, and the answers that are left. A `::send` moves no more
-- than it was given.
unfoldable pub write_all : List IoResult → List ℕ → Outcome × List ℕ × List IoResult
write_all os [] = (returned true, [], os)
write_all [] (b ∷ bs) = (blocked, [], [])
write_all (moved zero ∷ os) (b ∷ bs) = (returned false, [], os)
write_all (moved (suc n) ∷ os) (b ∷ bs) =
    let (o, sent, os') = write_all os (drop n bs) in (o, b ∷ (take n bs ++ sent), os')
write_all (interrupted ∷ os) (b ∷ bs) = write_all os (b ∷ bs)
write_all (timed_out ∷ os) (b ∷ bs) = (returned false, [], os)
write_all (failed ∷ os) (b ∷ bs) = (returned false, [], os)

-- The result, the bytes read, the bytes that are still to come, and the answers that are left. A
-- `::recv` moves no more than it was asked for, and nothing that the peer has not sent.
unfoldable pub read_all : List IoResult → List ℕ → ℕ → Outcome × List ℕ × List ℕ × List IoResult
read_all os coming zero = (returned true, [], coming, os)
read_all [] coming (suc size) = (blocked, [], coming, [])
read_all (moved zero ∷ os) coming (suc size) = (returned false, [], coming, os)
read_all (moved (suc n) ∷ os) [] (suc size) = (blocked, [], [], os)
read_all (moved (suc n) ∷ os) (c ∷ cs) (suc size) =
    let k = min n size in
    let (o, got, coming', os') = read_all os (drop k cs) (size - length (take k cs)) in
    (o, c ∷ (take k cs ++ got), coming', os')
read_all (interrupted ∷ os) coming (suc size) = read_all os coming (suc size)
read_all (timed_out ∷ os) coming (suc size) = (returned false, [], coming, os)
read_all (failed ∷ os) coming (suc size) = (returned false, [], coming, os)

-- The answers left once `n` bytes have moved, if they move before an error or an end of the list.
abbrev pub carry : List IoResult → ℕ → Option (List IoResult)
carry os zero = some os
carry [] (suc n) = none
carry (moved zero ∷ os) (suc n) = none
carry (moved (suc k) ∷ os) (suc n) = carry os (n - k)
carry (interrupted ∷ os) (suc n) = carry os (suc n)
carry (timed_out ∷ os) (suc n) = none
carry (failed ∷ os) (suc n) = none

-- However the transfer is cut into chunks, `write_all` returns true once the whole of `p` has gone
-- out, and it has sent `p`.
pub write_all-carry :
    (os : List IoResult) (p : List ℕ) {os' : List IoResult}
    → carry os (length p) ≡ some os'
    → write_all os p ≡ (returned true, p, os')
unfolding write_all
write_all-carry os [] h = ground arith
write_all-carry [] (b ∷ bs) h = cc
write_all-carry (moved zero ∷ os) (b ∷ bs) h = cc
write_all-carry (moved (suc n) ∷ os) (b ∷ bs) h =
    rw (write_all-carry os (drop n bs) (ap (carry os) (length-drop n bs) ∙ h))
      (rw (take-append-drop n bs))
write_all-carry (interrupted ∷ os) (b ∷ bs) h = write_all-carry os (b ∷ bs) h
write_all-carry (timed_out ∷ os) (b ∷ bs) h = cc
write_all-carry (failed ∷ os) (b ∷ bs) h = cc

pub read_all-carry :
    (os : List IoResult) (coming : List ℕ) (size : ℕ) {os' : List IoResult}
    → size ≤ length coming
    → carry os size ≡ some os'
    → read_all os coming size ≡ (returned true, take size coming, drop size coming, os')
unfolding read_all
read_all-carry os coming zero h e = ground arith
read_all-carry [] coming (suc size) h e = cc
read_all-carry (moved zero ∷ os) coming (suc size) h e = cc
read_all-carry (moved (suc n) ∷ os) [] (suc size) h e = absurd (omega arith)
read_all-carry (moved (suc n) ∷ os) (c ∷ cs) (suc size) {os'} h e =
    rw (cut, read_all-carry os (drop k cs) (size - k) enough (ap (carry os) left ∙ e))
      (ap₂ (λ l r. (returned true, c ∷ l, r, os'))
        (sym (take-add k (size - k) cs) ∙ ap (λ m. take m cs) whole)
        (sym (drop-add k (size - k) cs) ∙ ap (λ m. drop m cs) whole))
  where
    k : ℕ
    k = min n size

    cut : length (take k cs) ≡ k
    cut = omega (arith, length-take k cs)

    whole : k + (size - k) ≡ size
    whole = omega arith

    left : size - k ≡ size - n
    left = omega arith

    enough : size - k ≤ length (drop k cs)
    enough = omega (arith, length-drop k cs)
read_all-carry (interrupted ∷ os) coming (suc size) h e = read_all-carry os coming (suc size) h e
read_all-carry (timed_out ∷ os) coming (suc size) h e = cc
read_all-carry (failed ∷ os) coming (suc size) h e = cc

-- Whatever the system answers, `write_all` has sent a prefix of `p`, and returns true exactly when
-- nothing of `p` is left.
write_all_prefix :
    (os : List IoResult) (p : List ℕ)
    → (rest : List ℕ) × ((write_all os p).1 ++ rest ≡ p)
      × (((write_all os p).0 ≡ returned true) ↔ (rest ≡ []))
unfolding write_all
write_all_prefix os [] = ([], refl, ((λ e. refl), (λ e. refl)))
write_all_prefix [] (b ∷ bs) = (b ∷ bs, refl, ((λ e. cc), (λ e. cc)))
write_all_prefix (moved zero ∷ os) (b ∷ bs) = (b ∷ bs, refl, ((λ e. cc), (λ e. cc)))
write_all_prefix (moved (suc n) ∷ os) (b ∷ bs) =
    let (rest, e, i) = write_all_prefix os (drop n bs) in
    (
      rest,
      ap (◌∷◌ b)
          (append_assoc (take n bs) _ rest ∙ ap (◌++◌ (take n bs)) e ∙ take-append-drop n bs),
      i,
    )
write_all_prefix (interrupted ∷ os) (b ∷ bs) = write_all_prefix os (b ∷ bs)
write_all_prefix (timed_out ∷ os) (b ∷ bs) = (b ∷ bs, refl, ((λ e. cc), (λ e. cc)))
write_all_prefix (failed ∷ os) (b ∷ bs) = (b ∷ bs, refl, ((λ e. cc), (λ e. cc)))

-- Whatever the system answers, `read_all` takes bytes from the front of the stream and leaves the
-- others, never more than `size`, and exactly `size` if it returns true.
read_all_prefix :
    (os : List IoResult) (coming : List ℕ) (size : ℕ)
    → ((read_all os coming size).1 ++ (read_all os coming size).2 ≡ coming)
      × (length (read_all os coming size).1 ≤ size)
      × ((read_all os coming size).0 ≡ returned true → length (read_all os coming size).1 ≡ size)
unfolding read_all
read_all_prefix os coming zero = (refl, omega arith, (λ e. refl))
read_all_prefix [] coming (suc size) = (refl, omega arith, (λ e. cc))
read_all_prefix (moved zero ∷ os) coming (suc size) = (refl, omega arith, (λ e. cc))
read_all_prefix (moved (suc n) ∷ os) [] (suc size) = (refl, omega arith, (λ e. cc))
read_all_prefix (moved (suc n) ∷ os) (c ∷ cs) (suc size) =
    let k = min n size in
    let (split, short, full) = read_all_prefix os (drop k cs) (size - length (take k cs)) in
    let got = (read_all os (drop k cs) (size - length (take k cs))).1 in
    (
      ap (◌∷◌ c)
          (append_assoc (take k cs) got _ ∙ ap (◌++◌ (take k cs)) split ∙ take-append-drop k cs),
      omega (arith, length-append (take k cs) got, length-take k cs, short),
      (λ e. omega (arith, length-append (take k cs) got, length-take k cs, full e)),
    )
read_all_prefix (interrupted ∷ os) coming (suc size) = read_all_prefix os coming (suc size)
read_all_prefix (timed_out ∷ os) coming (suc size) = (refl, omega arith, (λ e. cc))
read_all_prefix (failed ∷ os) coming (suc size) = (refl, omega arith, (λ e. cc))
