-- ===== src/Mapped/Once.antt =====
-- client/memory.cpp: the list of mappings, as the operations of memory change it.
use vulkan_remote.Base.{
  ℕ, ◌≡◌, ◌≢◌, refl, ap, ◌∙◌, inl, inr, true, none, List, [], ◌∷◌, ◌++◌, arith,
}
use vulkan_remote.Base.Tests.{◌==◌, Bool-cases, if_true, if_false}
use vulkan_remote.Base.Lists.{All}
use vulkan_remote.Mapped.{MemoryAllocation, MappedRange, find_mapped, erase_mapped}
use vulkan_remote.Mapped.Memory.{update_mapped, make_ready}
use vulkan_remote.Mapped.Keeps.{Fits, MappedOnce}

-- The three ways in which the list of mappings changes.
pub erase_mapped-All :
    (P : MappedRange → Type 0) (id : ℕ) (ms : List MappedRange)
    → All P ms
    → All P (erase_mapped id ms)
unfolding erase_mapped
erase_mapped-All P id [] h = tt
erase_mapped-All P id (m ∷ ms) (h, hs) = elim (Bool-cases (m.memory_id == id)) [
  | inl e ↦ rw (if_true ms (m ∷ erase_mapped id ms) e) hs
  | inr e ↦ rw (if_false ms (m ∷ erase_mapped id ms) e) (h, erase_mapped-All P id ms hs)
]

erase_mapped-none :
    (id j : ℕ) (ms : List MappedRange)
    → find_mapped j ms ≡ none
    → find_mapped j (erase_mapped id ms) ≡ none
unfolding erase_mapped find_mapped
erase_mapped-none id j [] e = refl
erase_mapped-none id j (m ∷ ms) e = ground (arith, e, erase_mapped-none id j ms)

pub erase_mapped-MappedOnce :
    (id : ℕ) (ms : List MappedRange) → MappedOnce ms → MappedOnce (erase_mapped id ms)
unfolding erase_mapped
erase_mapped-MappedOnce id [] h = tt
erase_mapped-MappedOnce id (m ∷ ms) (h, hs) = elim (Bool-cases (m.memory_id == id)) [
  | inl e ↦ rw (if_true ms (m ∷ erase_mapped id ms) e) hs
  | inr e ↦
      rw (if_false ms (m ∷ erase_mapped id ms) e)
        (erase_mapped-none id m.memory_id ms h, erase_mapped-MappedOnce id ms hs)
]

pub update_mapped-All :
    (P : MappedRange → Type 0) (id : ℕ) (n : MappedRange) (ms : List MappedRange)
    → P n
    → All P ms
    → All P (update_mapped id n ms)
unfolding update_mapped
update_mapped-All P id n [] p h = tt
update_mapped-All P id n (m ∷ ms) p (h, hs) = elim (Bool-cases (m.memory_id == id)) [
  | inl e ↦ rw (if_true (n ∷ ms) (m ∷ update_mapped id n ms) e) (p, hs)
  | inr e ↦
      rw (if_false (n ∷ ms) (m ∷ update_mapped id n ms) e) (h, update_mapped-All P id n ms p hs)
]

update_mapped-none :
    (id j : ℕ) (n : MappedRange) (ms : List MappedRange)
    → n.memory_id ≡ id
    → find_mapped j ms ≡ none
    → find_mapped j (update_mapped id n ms) ≡ none
unfolding update_mapped find_mapped
update_mapped-none id j n [] q e = refl
update_mapped-none id j n (m ∷ ms) q e = ground (arith, q, e, update_mapped-none id j n ms q)

pub update_mapped-MappedOnce :
    (id : ℕ) (n : MappedRange) (ms : List MappedRange)
    → n.memory_id ≡ id
    → MappedOnce ms
    → MappedOnce (update_mapped id n ms)
unfolding update_mapped
update_mapped-MappedOnce id n [] q h = tt
update_mapped-MappedOnce id n (m ∷ ms) q (h, hs) = elim (Bool-cases (m.memory_id == id)) [
  | inl e ↦ rw (if_true (n ∷ ms) (m ∷ update_mapped id n ms) e) (
    ap (λ k. find_mapped k ms) {x = n.memory_id} {y = m.memory_id} (ground (arith, q, e)) ∙ h,
    hs,
  )
  | inr e ↦
      rw (if_false (n ∷ ms) (m ∷ update_mapped id n ms) e)
        (update_mapped-none id m.memory_id n ms q h, update_mapped-MappedOnce id n ms q hs)
]

-- `make_ready` changes a mapping and keeps its range.
abbrev ready : MappedRange → MappedRange
ready m = record m { baseline = m.shadow; transfer_ready = true }

pub make_ready-All :
    (memories : List (ℕ × MemoryAllocation)) (id : ℕ) (ms : List MappedRange)
    → All (Fits memories) ms
    → All (Fits memories) (make_ready id ms)
unfolding make_ready
make_ready-All memories id [] h = tt
make_ready-All memories id (m ∷ ms) (h, hs) = elim (Bool-cases (m.memory_id == id)) [
  | inl e ↦ rw (if_true (ready m ∷ ms) (m ∷ make_ready id ms) e) (h, hs)
  | inr e ↦
      rw (if_false (ready m ∷ ms) (m ∷ make_ready id ms) e) (h, make_ready-All memories id ms hs)
]

make_ready-none :
    (id j : ℕ) (ms : List MappedRange)
    → find_mapped j ms ≡ none
    → find_mapped j (make_ready id ms) ≡ none
unfolding make_ready find_mapped
make_ready-none id j [] e = refl
make_ready-none id j (m ∷ ms) e = ground (arith, e, make_ready-none id j ms)

pub make_ready-MappedOnce :
    (id : ℕ) (ms : List MappedRange) → MappedOnce ms → MappedOnce (make_ready id ms)
unfolding make_ready
make_ready-MappedOnce id [] h = tt
make_ready-MappedOnce id (m ∷ ms) (h, hs) = elim (Bool-cases (m.memory_id == id)) [
  | inl e ↦ rw (if_true (ready m ∷ ms) (m ∷ make_ready id ms) e) (h, hs)
  | inr e ↦
      rw (if_false (ready m ∷ ms) (m ∷ make_ready id ms) e)
        (make_ready-none id m.memory_id ms h, make_ready-MappedOnce id ms hs)
]

append-none :
    (j : ℕ) (n : MappedRange) (ms : List MappedRange)
    → n.memory_id ≢ j
    → find_mapped j ms ≡ none
    → find_mapped j (ms ++ (n ∷ [])) ≡ none
unfolding find_mapped
append-none j n [] q e = ground (arith, q)
append-none j n (m ∷ ms) q e = ground (arith, e, append-none j n ms q)

pub append-MappedOnce :
    (n : MappedRange) (ms : List MappedRange)
    → find_mapped n.memory_id ms ≡ none
    → MappedOnce ms
    → MappedOnce (ms ++ (n ∷ []))
unfolding find_mapped
append-MappedOnce n [] e h = (refl, tt)
append-MappedOnce n (m ∷ ms) e (h, hs) = (
  append-none m.memory_id n ms (ground (arith, e)) h,
  append-MappedOnce n ms (ground (arith, e)) hs,
)
