-- ===== src/Mapped/Owners.antt =====
-- client/memory.cpp: the invariant of a device's mappings, under every operation of memory.
use vulkan_remote.Base.{
  ℕ, suc, ◌+◌, ◌-◌, ◌^◌, ◌≤◌, ◌≡◌, ◌≢◌, refl, ap, ◌∙◌, subst, inl, inr, Bool, true, false, not,
  Option, none, some, List, [], ◌∷◌, ◌++◌, arith,
}
use vulkan_remote.Base.Tests.{ltb, ◌==◌, if◌then◌else◌, Bool-cases, if_true, if_false}
use vulkan_remote.Base.Lists.{All, All-append, All-map}
use vulkan_remote.Base.Maps.{find, insert, erase, find-insert, find-erase}
use vulkan_remote.Mapped.{
  MemoryAllocation, MappedRange, Device, RangeRequest, VkResult, Downloaded, find_mapped,
  resolve_in, resolve_allocation_range, download_range, erase_mapped, is_success, Transfer,
}
use vulkan_remote.Mapped.Memory.{
  AllocateReply, allocation_of, allocated, freed, download_resolved, download_found, after_download,
  mappable_in, mappable, map_checked, new_range, shadow_alignment, allocate_memory, free_memory,
  download_mapped, map_memory, unmap_memory,
}
use vulkan_remote.Mapped.Ranges.{resolve_allocation_range-bounds}
use vulkan_remote.Mapped.Keeps.{
  Fits, MappedOnce, WellMapped, SameRange-Fits, download_from-SameRange,
}
use vulkan_remote.Mapped.Once.{
  erase_mapped-All, erase_mapped-MappedOnce, update_mapped-All, update_mapped-MappedOnce,
  make_ready-All, make_ready-MappedOnce, append-MappedOnce,
}

absent_others :
    (id : ℕ) (ms : List MappedRange) → find_mapped id ms ≡ none → All (λ m. m.memory_id ≢ id) ms
unfolding find_mapped
absent_others id [] e = tt
absent_others id (m ∷ ms) e = (λ q. ground (arith, e, q), absent_others id ms (ground (arith, e)))

erased_others :
    (id : ℕ) (ms : List MappedRange)
    → MappedOnce ms
    → All (λ m. m.memory_id ≢ id) (erase_mapped id ms)
unfolding erase_mapped
erased_others id [] h = tt
erased_others id (m ∷ ms) (h, hs) = elim (Bool-cases (m.memory_id == id)) [
  | inl e ↦ rw (if_true ms (m ∷ erase_mapped id ms) e) (
      absent_others id ms
        (ap (λ k. find_mapped k ms) {x = id} {y = m.memory_id} (ground (arith, e)) ∙ h))
  | inr e ↦
      rw (if_false ms (m ∷ erase_mapped id ms) e)
        (λ q. ground (arith, e, q), erased_others id ms hs)
]

All-both :
    (P Q R : MappedRange → Type 0) (ms : List MappedRange)
    → ((m : MappedRange) → P m → Q m → R m)
    → All P ms
    → All Q ms
    → All R ms
All-both P Q R [] f p q = tt
All-both P Q R (m ∷ ms) f (p, ps) (q, qs) = (f m p q, All-both P Q R ms f ps qs)

-- Freeing keeps the invariant: the mapping of the memory goes with it.
free_memory-WellMapped :
    (d : Device) (memory : ℕ) → WellMapped d → WellMapped (free_memory d memory)
unfolding free_memory
free_memory-WellMapped d memory h = elim (Bool-cases (memory == 0)) [
  | inl e ↦ rw (if_true d (freed d memory) e) h
  | inr e ↦ rw (if_false d (freed d memory) e) (record {
    fits =
        All-both (Fits d.memories) (λ m. m.memory_id ≢ memory) (Fits (erase memory d.memories)) _
          (λ m (a, f, g) ne.
            (a, ground (arith, find-erase m.memory_id memory d.memories, ne, f), g))
          (erase_mapped-All (Fits d.memories) memory d.mapped h.fits)
          (erased_others memory d.mapped h.once);
    once = erase_mapped-MappedOnce memory d.mapped h.once;
  })
]

unmap_memory-WellMapped :
    (answer : Transfer → VkResult) (d : Device) (memory : ℕ)
    → WellMapped d
    → WellMapped (unmap_memory answer d memory).0
unfolding unmap_memory
unmap_memory-WellMapped answer d memory h = record {
  fits = erase_mapped-All (Fits d.memories) memory d.mapped h.fits;
  once = erase_mapped-MappedOnce memory d.mapped h.once;
}

allocated-Fits :
    (id : ℕ) (a : MemoryAllocation) (memories : List (ℕ × MemoryAllocation)) (ms : List MappedRange)
    → find id memories ≡ none
    → All (Fits memories) ms
    → All (Fits (insert id a memories)) ms
allocated-Fits id a memories ms e h =
    All-map (Fits memories) (Fits (insert id a memories)) ms
      (λ m (b, f, g). (
        b,
        ground (
          arith,
          find-insert m.memory_id id a memories,
          f,
          e,
          ap (λ k. find k memories) {x = m.memory_id} {y = id},
        ),
        g,
      ))
      h

either-WellMapped :
    (b : Bool) (x y : VkResult × Device)
    → WellMapped x.1
    → WellMapped y.1
    → WellMapped (if b then x else y).1
either-WellMapped true x y h k = h
either-WellMapped false x y h k = k

allocate_memory-WellMapped :
    (d : Device) (size type_index capabilities : ℕ) (o : Option AllocateReply)
    → ((r : AllocateReply) → o ≡ some r → find r.id d.memories ≡ none)
    → WellMapped d
    → WellMapped (allocate_memory d size type_index capabilities o).1
unfolding allocate_memory
allocate_memory-WellMapped d size type_index capabilities none f h = h
allocate_memory-WellMapped d size type_index capabilities (some r) f h =
    either-WellMapped (r.atom_size == 0) (VkResult.out_of_device_memory, d) _ h
      (either-WellMapped (is_success r.result)
        (r.result, allocated d size type_index capabilities r) (r.result, d)
        (record {
          fits =
              allocated-Fits r.id (allocation_of size type_index capabilities r) d.memories d.mapped
                (f r refl) h.fits;
          once = h.once;
        })
        h)

found-Fits :
    (memories : List (ℕ × MemoryAllocation)) (id : ℕ) (m : MappedRange) (ms : List MappedRange)
    → All (Fits memories) ms
    → find_mapped id ms ≡ some m
    → (m.memory_id ≡ id) × Fits memories m
unfolding find_mapped
found-Fits memories id m [] h e = ground (arith, e)
found-Fits memories id m (n ∷ ms) (h, hs) e = elim (Bool-cases (n.memory_id == id)) [
  | inl q ↦
      let same : n ≡ m = ground (arith, q, e) in
      (ground (arith, q, ap (λ k. k.memory_id) same), subst (Fits memories) same h)
  | inr q ↦ found-Fits memories id m ms hs (ground (arith, q, e))
]

download_resolved-WellMapped :
    (answer : ℕ → ℕ → ℕ → Downloaded) (d : Device) (r : RangeRequest) (m : MappedRange)
    (o : Option ℕ)
    → WellMapped d
    → m.memory_id ≡ r.memory
    → Fits d.memories m
    → WellMapped (download_resolved answer d r m o).1
download_resolved-WellMapped answer d r m none h q f = h
download_resolved-WellMapped answer d r m (some size) h q f =
    let n = (download_range answer d.memories r.offset size m).1 in
    let s = download_from-SameRange answer (suc size) d.memories r.offset size m 0 in
    record {
      fits =
          update_mapped-All (Fits d.memories) r.memory n d.mapped
            (SameRange-Fits d.memories m n s f) h.fits;
      once = update_mapped-MappedOnce r.memory n d.mapped (s.memory_id ∙ q) h.once;
    }

download_found-WellMapped :
    (answer : ℕ → ℕ → ℕ → Downloaded) (d : Device) (r : RangeRequest) (o : Option MappedRange)
    → WellMapped d
    → find_mapped r.memory d.mapped ≡ o
    → WellMapped (download_found answer d r o).1
download_found-WellMapped answer d r none h e = h
download_found-WellMapped answer d r (some m) h e =
    let (q, f) = found-Fits d.memories r.memory m d.mapped h.fits e in
    download_resolved-WellMapped answer d r m (resolve_in r m) h q f

download_mapped-WellMapped :
    (answer : ℕ → ℕ → ℕ → Downloaded) (d : Device) (r : RangeRequest)
    → WellMapped d
    → WellMapped (download_mapped answer d r).1
unfolding download_mapped
download_mapped-WellMapped answer d r h =
    download_found-WellMapped answer d r (find_mapped r.memory d.mapped) h refl

after_download-WellMapped :
    (memory : ℕ) (r : VkResult × Device) → WellMapped r.1 → WellMapped (after_download memory r).1
after_download-WellMapped memory (v, d) h =
    either-WellMapped (is_success v) _ _
      (record {
        fits = make_ready-All d.memories memory d.mapped h.fits;
        once = make_ready-MappedOnce memory d.mapped h.once;
      })
      (record {
        fits = erase_mapped-All (Fits d.memories) memory d.mapped h.fits;
        once = erase_mapped-MappedOnce memory d.mapped h.once;
      })

-- What the checks of `MapMemory` let pass.
record Mappable (d : Device) (memory offset real_size : ℕ) (o : Option MemoryAllocation)
    : Type 0 where
  allocation : MemoryAllocation
  there : o ≡ some allocation
  inside : offset + real_size ≤ allocation.size
  unmapped : find_mapped memory d.mapped ≡ none

mappable_in-cases :
    (d : Device) (memory offset size real_size : ℕ) (emulated : Bool) (a : MemoryAllocation)
    (s : Option ℕ) (m : Option MappedRange)
    → mappable_in a s m ≡ some (real_size, emulated)
    → (s ≡ some real_size) × (m ≡ none)
mappable_in-cases d memory offset size real_size emulated a none m e = ground (arith, e)
mappable_in-cases d memory offset size real_size emulated a (some s) none e = ground (arith, e)
mappable_in-cases d memory offset size real_size emulated a (some s) (some m) e = ground (arith, e)

mappable-cases :
    (d : Device) (memory offset size real_size : ℕ) (emulated : Bool) (o : Option MemoryAllocation)
    → mappable d memory offset size o ≡ some (real_size, emulated)
    → Mappable d memory offset real_size o
mappable-cases d memory offset size real_size emulated none e = ground (arith, e)
mappable-cases d memory offset size real_size emulated (some a) e =
    let (s, m) =
      mappable_in-cases d memory offset size real_size emulated a
        (resolve_allocation_range a.size offset size) (find_mapped memory d.mapped) e in
    record {
      allocation = a;
      there = refl;
      inside = (resolve_allocation_range-bounds a.size offset size real_size s).1;
      unmapped = m;
    }

map_checked-WellMapped :
    (answer : ℕ → ℕ → ℕ → Downloaded) (block : Option (List ℕ)) (sized : Bool) (d : Device)
    (memory offset : ℕ) (o : Option (ℕ × Bool))
    → ((real_size : ℕ) (emulated : Bool)
        → o ≡ some (real_size, emulated)
        → Mappable d memory offset real_size (find memory d.memories))
    → WellMapped d
    → WellMapped (map_checked answer block sized d memory offset o).1
map_checked-WellMapped answer block sized d memory offset none m h = h
map_checked-WellMapped answer none sized d memory offset (some (n, emulated)) m h = h
map_checked-WellMapped answer (some fresh) sized d memory offset (some (n, emulated)) m h =
    let ok = m n emulated refl in
    let range = new_range memory offset n fresh emulated in
    let d' : Device = record d { mapped = d.mapped ++ (range ∷ []) } in
    let h' : WellMapped d' = record {
      fits =
          All-append (Fits d.memories) d.mapped (range ∷ []) h.fits
            ((ok.allocation, ok.there, ok.inside), tt);
      once = append-MappedOnce range d.mapped ok.unmapped h.once;
    } in
    either-WellMapped (ltb (2 ^ 64 - 1 - (shadow_alignment d - 1)) n) _ _ h (
      either-WellMapped (not emulated) (VkResult.success, d') _ h'
        (either-WellMapped (not sized) _ _ h
          (after_download-WellMapped memory _ (download_mapped-WellMapped answer d' _ h'))))

map_memory-WellMapped :
    (answer : ℕ → ℕ → ℕ → Downloaded) (block : Option (List ℕ)) (sized : Bool) (d : Device)
    (memory offset size : ℕ)
    → WellMapped d
    → WellMapped (map_memory answer block sized d memory offset size).1
unfolding map_memory
map_memory-WellMapped answer block sized d memory offset size h =
    either-WellMapped (memory == 0) (VkResult.memory_map_failed, d) _ h
      (map_checked-WellMapped answer block sized d memory offset
        (mappable d memory offset size (find memory d.memories))
        (λ n emulated e. mappable-cases d memory offset size n emulated (find memory d.memories) e)
        h)

-- One call of an operation of memory, whatever the server and malloc answer. An allocation gets an id
-- that is not in use.
pub data Step (d : Device) : Device → Type 0 where
  allocates :
      (size type_index capabilities : ℕ) (o : Option AllocateReply)
      → ((r : AllocateReply) → o ≡ some r → find r.id d.memories ≡ none)
      → Step d (allocate_memory d size type_index capabilities o).1
  frees : (memory : ℕ) → Step d (free_memory d memory)
  maps :
      (answer : ℕ → ℕ → ℕ → Downloaded) (block : Option (List ℕ)) (sized : Bool)
      (memory offset size : ℕ)
      → Step d (map_memory answer block sized d memory offset size).1
  unmaps : (answer : Transfer → VkResult) (memory : ℕ) → Step d (unmap_memory answer d memory).0
  downloads :
      (answer : ℕ → ℕ → ℕ → Downloaded) (r : RangeRequest) → Step d (download_mapped answer d r).1

-- Every operation of memory keeps the invariant: each mapping lies in an allocation that exists, and
-- no memory is mapped twice.
pub Step-WellMapped : (d d' : Device) → WellMapped d → Step d d' → WellMapped d'
Step-WellMapped d _ h (allocates size type_index capabilities o f) =
    allocate_memory-WellMapped d size type_index capabilities o f h
Step-WellMapped d _ h (frees memory) = free_memory-WellMapped d memory h
Step-WellMapped d _ h (maps answer block sized memory offset size) =
    map_memory-WellMapped answer block sized d memory offset size h
Step-WellMapped d _ h (unmaps answer memory) = unmap_memory-WellMapped answer d memory h
Step-WellMapped d _ h (downloads answer r) = download_mapped-WellMapped answer d r h
