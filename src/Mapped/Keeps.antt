-- ===== src/Mapped/Keeps.antt =====
-- client/remote_objects.cpp: `download_mapped` keeps the range of a mapping; the invariant of a
-- device's mappings.
use vulkan_remote.Base.{
  ℕ, zero, suc, ◌+◌, ◌-◌, ◌≤◌, ◌≡◌, refl, inl, inr, Bool, true, false, Option, none, some, List, [],
  ◌∷◌, arith,
}
use vulkan_remote.Base.Tests.{ltb, ◌==◌, if◌then◌else◌, Bool-cases, if_true, if_false}
use vulkan_remote.Base.Lists.{length, All}
use vulkan_remote.Base.Maps.{find}
use vulkan_remote.Mapped.{
  MemoryAllocation, MappedRange, Device, VkResult, Downloaded, refused, downloaded, find_mapped,
  chunk_of, store_bytes, take_download, receive_chunk, download_from,
}

-- The mapping lies in an allocation.
abbrev pub Fits : List (ℕ × MemoryAllocation) → MappedRange → Type 0
Fits memories m =
    (a : MemoryAllocation) × (find m.memory_id memories ≡ some a) × (m.offset + m.size ≤ a.size)

-- No memory is mapped twice.
abbrev pub MappedOnce : List MappedRange → Type 0
MappedOnce [] = Unit
MappedOnce (m ∷ ms) = (find_mapped m.memory_id ms ≡ none) × MappedOnce ms

pub record WellMapped (d : Device) : Type 0 where
  pub fits : All (Fits d.memories) d.mapped
  pub once : MappedOnce d.mapped

-- A mapping with the same memory and range.
pub record SameRange (m n : MappedRange) : Type 0 where
  pub memory_id : n.memory_id ≡ m.memory_id
  pub offset : n.offset ≡ m.offset
  pub size : n.size ≡ m.size

pub SameRange-Fits :
    (memories : List (ℕ × MemoryAllocation)) (m n : MappedRange)
    → SameRange m n
    → Fits memories m
    → Fits memories n
SameRange-Fits memories m n s (a, e, f) = (a, rw s.memory_id e, omega (arith, s.offset, s.size, f))

take_download-SameRange :
    (m : MappedRange) (position done chunk : ℕ)
    (rest : MappedRange → ℕ → Option VkResult × MappedRange) (r : Downloaded)
    → ((n : MappedRange) (d : ℕ) → SameRange n (rest n d).1)
    → SameRange m (take_download m position done rest chunk r).1
take_download-SameRange m position done chunk rest (refused v) h = record {
  memory_id = refl;
  offset = refl;
  size = refl;
}
take_download-SameRange m position done chunk rest (downloaded bytes) h =
    let n = store_bytes m position bytes in
    let s = h n (done + chunk) in
    elim (Bool-cases (length bytes == chunk)) [
      | inl e ↦
          rw (if_true (rest n (done + chunk)) (some VkResult.device_lost, m) e)
            (record { memory_id = s.memory_id; offset = s.offset; size = s.size })
      | inr e ↦
          rw (if_false (rest n (done + chunk)) (some VkResult.device_lost, m) e)
            (record { memory_id = refl; offset = refl; size = refl })
    ]

receive_chunk-SameRange :
    (answer : ℕ → ℕ → ℕ → Downloaded) (m : MappedRange) (offset done : ℕ)
    (rest : MappedRange → ℕ → Option VkResult × MappedRange) (o : Option ℕ)
    → ((n : MappedRange) (d : ℕ) → SameRange n (rest n d).1)
    → SameRange m (receive_chunk answer m offset done rest o).1
receive_chunk-SameRange answer m offset done rest none h = record {
  memory_id = refl;
  offset = refl;
  size = refl;
}
receive_chunk-SameRange answer m offset done rest (some chunk) h =
    take_download-SameRange m _ done chunk rest (answer m.memory_id (offset + done) chunk) h

either-SameRange :
    (b : Bool) (m : MappedRange) (r : Option VkResult × MappedRange)
    → SameRange m r.1
    → SameRange m (if b then r else (some VkResult.success, m)).1
either-SameRange true m r h = h
either-SameRange false m r h = record { memory_id = refl; offset = refl; size = refl }

pub download_from-SameRange :
    (answer : ℕ → ℕ → ℕ → Downloaded) (rounds : ℕ) (memories : List (ℕ × MemoryAllocation))
    (offset size : ℕ) (m : MappedRange) (done : ℕ)
    → SameRange m (download_from answer rounds memories offset size m done).1
unfolding download_from
download_from-SameRange answer zero memories offset size m done = record {
  memory_id = refl;
  offset = refl;
  size = refl;
}
download_from-SameRange answer (suc rounds) memories offset size m done =
    either-SameRange (ltb done size) m
      (receive_chunk answer m offset done
        (λ n d. download_from answer rounds memories offset size n d)
        (chunk_of memories m.memory_id (size - done)))
      (receive_chunk-SameRange answer m offset done
        (λ n d. download_from answer rounds memories offset size n d)
        (chunk_of memories m.memory_id (size - done))
        (λ n d. download_from-SameRange answer rounds memories offset size n d))
