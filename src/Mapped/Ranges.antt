-- ===== src/Mapped/Ranges.antt =====
-- client/memory.cpp and client/remote_objects.cpp: what a range that passes the checks is.
use vulkan_remote.Base.{
  ℕ, ◌+◌, ◌%◌, ◌≤◌, ◌≡◌, refl, sym, ap, ◌∙◌, ◌⊎◌, inl, inr, true, not, ◌&&◌, ◌||◌, Option, none,
  some, List, [], ◌∷◌, arith,
}
use vulkan_remote.Base.Tests.{◌==◌, Bool-cases, Option-cases, if_true, if_false}
use vulkan_remote.Base.Lists.{All}
use vulkan_remote.Base.Maps.{find}
use vulkan_remote.Mapped.{
  MemoryAllocation, MappedRange, RangeRequest, resolve_in, resolve_allocation_range,
}
use vulkan_remote.Mapped.Memory.{is_aligned_in, is_valid_in, validate_explicit_ranges}

pub resolve_allocation_range-bounds :
    (allocation_size offset requested size : ℕ)
    → resolve_allocation_range allocation_size offset requested ≡ some size
    → (1 ≤ size) × (offset + size ≤ allocation_size)
unfolding resolve_allocation_range
resolve_allocation_range-bounds allocation_size offset requested size e = ground (arith, e)

-- A resolved range lies in the mapping.
resolve_in-bounds :
    (r : RangeRequest) (m : MappedRange) (size : ℕ)
    → resolve_in r m ≡ some size
    → (m.offset ≤ r.offset) × (r.offset + size ≤ m.offset + m.size)
unfolding resolve_in
resolve_in-bounds r m size e = ground (arith, e)

-- The range of the request is one of an allocation, and the server can flush it: the memory is
-- coherent, or the range begins at a multiple of the atom size and ends at one or with the memory.
abbrev pub Flushable : List (ℕ × MemoryAllocation) → RangeRequest → Type 0
Flushable memories r =
    (a : MemoryAllocation) × (size : ℕ) × (find r.memory memories ≡ some a)
    × (resolve_allocation_range a.size r.offset r.size ≡ some size)
    × (r.offset + size ≤ a.size)
    × ((a.emulated_coherent ≡ true)
        ⊎ ((r.offset % a.non_coherent_atom_size ≡ 0)
            × ((r.offset + size ≡ a.size) ⊎ (size % a.non_coherent_atom_size ≡ 0))))

checked-cases :
    (r : RangeRequest) (a : MemoryAllocation) (size : ℕ)
    → (a.emulated_coherent
        || ((not (a.non_coherent_atom_size == 0) && r.offset % a.non_coherent_atom_size == 0)
            && (r.offset + size == a.size || size % a.non_coherent_atom_size == 0)))
      ≡ true
    → (a.emulated_coherent ≡ true)
      ⊎ ((r.offset % a.non_coherent_atom_size ≡ 0)
          × ((r.offset + size ≡ a.size) ⊎ (size % a.non_coherent_atom_size ≡ 0)))
checked-cases r a size e = ground (arith, e)

is_valid_in-cases :
    (r : RangeRequest) (o : Option MemoryAllocation)
    → is_valid_in r o ≡ true
    → (a : MemoryAllocation) × (size : ℕ) × (o ≡ some a)
      × (resolve_allocation_range a.size r.offset r.size ≡ some size)
      × ((a.emulated_coherent ≡ true)
          ⊎ ((r.offset % a.non_coherent_atom_size ≡ 0)
              × ((r.offset + size ≡ a.size) ⊎ (size % a.non_coherent_atom_size ≡ 0))))
is_valid_in-cases r none e = ground (arith, e)
is_valid_in-cases r (some a) e =
    elim (Option-cases (resolve_allocation_range a.size r.offset r.size)) [
      | inl n ↦ ground (arith, sym (ap (is_aligned_in r a) n) ∙ e)
      | inr (size, f) ↦
          (a, size, refl, f, checked-cases r a size (sym (ap (is_aligned_in r a) f) ∙ e))
    ]

-- Ranges that `validate_explicit_ranges` lets pass are all flushable.
pub validate_explicit_ranges-Flushable :
    (memories : List (ℕ × MemoryAllocation)) (rs : List RangeRequest)
    → validate_explicit_ranges memories rs ≡ true
    → All (Flushable memories) rs
unfolding validate_explicit_ranges
validate_explicit_ranges-Flushable memories [] e = tt
validate_explicit_ranges-Flushable memories (r ∷ rs) e =
    elim (Bool-cases (is_valid_in r (find r.memory memories))) [
      | inl v ↦
          let (a, size, f, s, c) = is_valid_in-cases r (find r.memory memories) v in
          (
            (a, size, f, s, (resolve_allocation_range-bounds a.size r.offset r.size size s).1, c),
            validate_explicit_ranges-Flushable memories rs (sym (if_true _ _ v) ∙ e),
          )
      | inr v ↦ ground (arith, sym (if_false _ _ v) ∙ e)
    ]
