-- ===== src/Mapped/Acquire.antt =====
-- client/remote_objects.cpp: `acquire_coherent_mapped` for one mapping. The bytes of the device are
-- merged into the shadow: bytes that the host wrote since the last transfer stay.
pub mod Merged
use vulkan_remote.Base.{
  ℕ, zero, suc, ◌+◌, ◌-◌, ◌≤◌, ◌<◌, ◌≡◌, ◌≢◌, refl, sym, ap, ◌∙◌, subst, inl, inr, min, Bool, true,
  false, not, ◌&&◌, ◌||◌, Option, none, some, List, [], ◌∷◌, ◌++◌, arith,
}
use vulkan_remote.Base.Tests.{ltb, ◌==◌, if◌then◌else◌, Bool-cases, if_true, if_false}
use vulkan_remote.Base.Lists.{
  length, get_or, take, drop, take-add, drop-add, length-take, length-drop,
}
use vulkan_remote.Mapped.{MappedRange, max_mapped_chunk}

-- The loop over the bytes of one reply, from `position` on: the shadow and the baseline.
unfoldable pub merge_at : ℕ → List ℕ → List ℕ → List ℕ → List ℕ × List ℕ
merge_at position bytes [] baseline = ([], baseline)
merge_at position bytes (s ∷ shadow) [] = (s ∷ shadow, [])
merge_at zero [] (s ∷ shadow) (b ∷ baseline) = (s ∷ shadow, b ∷ baseline)
merge_at zero (x ∷ bytes) (s ∷ shadow) (b ∷ baseline) =
    let (shadow', baseline') = merge_at zero bytes shadow baseline in
    ((if s == b then x else s) ∷ shadow', x ∷ baseline')
merge_at (suc position) bytes (s ∷ shadow) (b ∷ baseline) =
    let (shadow', baseline') = merge_at position bytes shadow baseline in
    (s ∷ shadow', b ∷ baseline')

-- The reply to a download: the bytes, or `none` for anything that makes the function return false.
abbrev pub acquire_reply :
    ℕ
    → ℕ
    → ℕ
    → (ℕ → List ℕ → List ℕ → Option Bool × List ℕ × List ℕ)
    → List ℕ
    → List ℕ
    → Option (List ℕ)
    → Option Bool × List ℕ × List ℕ
acquire_reply done chunk size rest shadow baseline none = (some false, shadow, baseline)
acquire_reply done chunk size rest shadow baseline (some bytes) =
    let (shadow', baseline') = merge_at done bytes shadow baseline in
    let next = rest (done + chunk) shadow' baseline' in
    if length bytes == chunk then next else (some false, shadow, baseline)

-- The loop over the chunks, at most `rounds` rounds.
unfoldable pub acquire_from :
    (ℕ → ℕ → Option (List ℕ)) → ℕ → ℕ → ℕ → ℕ → List ℕ → List ℕ → Option Bool × List ℕ × List ℕ
unfolding merge_at
acquire_from answer zero offset size done shadow baseline = (none, shadow, baseline)
acquire_from answer (suc rounds) offset size done shadow baseline =
    let chunk = min max_mapped_chunk (size - done) in
    let received =
      acquire_reply done chunk size (λ d s b. acquire_from answer rounds offset size d s b) shadow
        baseline (answer (offset + done) chunk) in
    if ltb done size then received else (some true, shadow, baseline)

abbrev pub with_bytes : MappedRange → List ℕ → List ℕ → MappedRange
with_bytes m shadow baseline = record m { shadow = shadow; baseline = baseline }

-- `acquire_coherent_mapped` for one mapping, the memory of which is asked for.
unfoldable pub acquire : (ℕ → ℕ → Option (List ℕ)) → MappedRange → Option Bool × MappedRange
unfolding acquire_from
acquire answer m =
    let (done, shadow, baseline) =
      acquire_from answer (suc m.size) m.offset m.size 0 m.shadow m.baseline in
    if not m.emulated_coherent || not m.transfer_ready
    then (some true, m)
    else (done, with_bytes m shadow baseline)
