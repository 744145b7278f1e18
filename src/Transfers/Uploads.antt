-- ===== src/Transfers/Uploads.antt =====
-- server/handlers_memory.cpp: where the bytes of an upload are afterwards, and those of all the
-- uploads that one flush of the client makes.
use vulkan_remote.Base.{
  ℕ, ◌+◌, ◌-◌, ◌≤◌, ◌<◌, ◌≡◌, refl, sym, ap, ◌∙◌, ◌⊎◌, inl, inr, Bool, true, false, not, List,
  arith,
}
use vulkan_remote.Base.Tests.{ltb, if◌then◌else◌, Bool-cases}
use vulkan_remote.Base.Lists.{length, drop, get_or, length-take, length-drop}
use vulkan_remote.Base.Words.{ℤ, pos}
use vulkan_remote.Objects.Teardown.{ServerMemory}
use vulkan_remote.Mapped.{write_at}
use vulkan_remote.Transfers.{
  NativeRange, Driver, is_coherent, is_zero, align_down, native_alignment, native_range, map_upload,
}
use vulkan_remote.Transfers.Alignment.{
  actual_size, IsValidRange, Covers, IsTransfer, native_range-Covers,
}
use vulkan_remote.Mapped.Writes.{
  slice, get_or-take, get_or-drop, get_or-write_at_below, get_or-write_at_inside,
  get_or-write_at_above,
}
use vulkan_remote.Transfers.Views.{Views}

-- Byte `i` is one of the `size` bytes from `offset` on.
abbrev pub IsIn : ℕ → ℕ → ℕ → Type 0
IsIn offset size i = (offset ≤ i) × (i < offset + size)

pub IsIn-or_out : (offset size i : ℕ) → IsIn offset size i ⊎ (i < offset) ⊎ (offset + size ≤ i)
IsIn-or_out offset size i = elim (Bool-cases (ltb i offset)) [
  | inl e ↦ inr (inl (ground (arith, e)))
  | inr e ↦ elim (Bool-cases (ltb i (offset + size))) [
    | inl f ↦ inl (ground (arith, e), ground (arith, f))
    | inr f ↦ inr (inr (ground (arith, f)))
  ]
]

-- A byte of a slice that was written over.
pub get_or-write_slice :
    (p n : ℕ) (ys xs : List ℕ) (i : ℕ)
    → length xs ≡ length ys
    → p + n ≤ length xs
    → IsIn p n i
    → get_or (write_at p (slice p n ys) xs) i 0 ≡ get_or ys i 0
get_or-write_slice p n ys xs i e h (low, high) =
    let width : length (slice p n ys) ≡ n =
      omega (arith, length-take n (drop p ys), length-drop p ys, e, h) in
    get_or-write_at_inside p (slice p n ys) xs i (omega (arith, width, h)) low
      (omega (arith, width, high))
    ∙ (get_or-take n (drop p ys) (i - p) (omega (arith, low, high))
        ∙ (get_or-drop p ys (i - p)
            ∙ ap (λ k. get_or ys k 0) {x = p + (i - p)} {y = i} (omega (arith, low))))

-- A byte outside a write.
get_or-write_outside :
    (p : ℕ) (bytes xs : List ℕ) (i n : ℕ)
    → length bytes ≡ n
    → p + n ≤ length xs
    → (i < p) ⊎ (p + n ≤ i)
    → get_or (write_at p bytes xs) i 0 ≡ get_or xs i 0
get_or-write_outside p bytes xs i n e h (inl l) =
    get_or-write_at_below p bytes xs i (omega (arith, e, h)) l
get_or-write_outside p bytes xs i n e h (inr l) =
    get_or-write_at_above p bytes xs i (omega (arith, e, h)) (omega (arith, e, l))

module _ {S : Type 0} (driver : Driver S) (m : ServerMemory) (v : Views driver m) where
  -- The host and the device see the same byte.
  abbrev pub IsSynced : S → ℕ → Type 0
  IsSynced s i = get_or (v.device s) i 0 ≡ get_or (v.host s) i 0

  -- What a successful upload does: the host sees the bytes, and the device sees what the host sees at
  -- each of them, and wherever it did so before.
  pub record Uploaded (s s' : S) (offset : ℕ) (bytes : List ℕ) : Type 0 where
    pub host : v.host s' ≡ write_at offset bytes (v.host s)
    pub synced : (i : ℕ) → IsIn offset (length bytes) i ⊎ IsSynced s i → IsSynced s' i

  coherent-Uploaded :
      (s : S) (offset : ℕ) (bytes : List ℕ)
      → offset + length bytes ≤ m.size
      → is_coherent m ≡ true
      → Uploaded s (driver.store s m offset bytes) offset bytes
  coherent-Uploaded s offset bytes h c = record {
    host = v.stores s offset bytes h;
    synced = λ i _. ap (λ l. get_or l i 0) (v.coherent (driver.store s m offset bytes) c);
  }

  -- A byte outside the range keeps its value on both sides.
  unflushed-IsSynced :
      (s : S) (offset : ℕ) (bytes : List ℕ) (r : NativeRange) (i : ℕ)
      → offset + length bytes ≤ m.size
      → is_coherent m ≡ false
      → Covers m offset (length bytes) r
      → (i < r.offset) ⊎ (r.offset + actual_size m r ≤ i)
      → IsIn offset (length bytes) i ⊎ IsSynced s i
      → IsSynced (driver.store s m offset bytes) i
  unflushed-IsSynced s offset bytes r i h c cover outside (inl (low, high)) =
      absurd (grind (arith, cover, outside, low, high))
  unflushed-IsSynced s offset bytes r i h c cover outside (inr same) =
      ap (λ l. get_or l i 0) (v.store_keeps s offset bytes c)
      ∙ (same
          ∙ (sym (
                get_or-write_outside offset bytes (v.host s) i (length bytes) refl
                  (omega (arith, h, v.length_host s)) (further outside))
              ∙ ap (λ l. get_or l i 0) (sym (v.stores s offset bytes h))))
    where
      further :
          (i < r.offset) ⊎ (r.offset + actual_size m r ≤ i)
          → (i < offset) ⊎ (offset + length bytes ≤ i)
      further (inl l) = inl (omega (arith, l, cover))
      further (inr l) = inr (omega (arith, l, cover))

  -- The flush of a range that covers the transfer.
  flushed-Uploaded :
      (s : S) (offset : ℕ) (bytes : List ℕ) (r : NativeRange)
      → offset + length bytes ≤ m.size
      → is_coherent m ≡ false
      → IsValidRange m r
      → Covers m offset (length bytes) r
      → is_zero (driver.flush_ranges (driver.store s m offset bytes) m r).0 ≡ true
      → Uploaded s (driver.flush_ranges (driver.store s m offset bytes) m r).1 offset bytes
  flushed-Uploaded s offset bytes r h c valid cover z =
      let s₁ = driver.store s m offset bytes in
      let n = actual_size m r in
      let (eh, ed) = v.flushes s₁ r valid z in
      let now = v.stores s offset bytes h in
      let before = v.store_keeps s offset bytes c in
      let lengths : length (v.device s₁) ≡ length (v.host s₁) =
        omega (arith, v.length_device s₁, v.length_host s₁) in
      let fits : r.offset + n ≤ length (v.device s₁) =
        omega (arith, valid.inside, v.length_device s₁) in
      let width : length (slice r.offset n (v.host s₁)) ≡ n = omega (
        arith,
        length-take n (drop r.offset (v.host s₁)),
        length-drop r.offset (v.host s₁),
        lengths,
        fits,
      ) in
      record {
        host = eh ∙ now;
        synced = λ i known.
            ap (λ l. get_or l i 0) ed
            ∙ (elim (IsIn-or_out r.offset n i) [
              | inl inside ↦
                  get_or-write_slice r.offset n (v.host s₁) (v.device s₁) i lengths fits inside
              | inr outside ↦
                  get_or-write_outside r.offset (slice r.offset n (v.host s₁)) (v.device s₁) i n
                    width fits outside
                  ∙ unflushed-IsSynced s offset bytes r i h c cover outside known
            ]
                ∙ ap (λ l. get_or l i 0) (sym eh));
      }

  coherent_or_not :
      (b : Bool) (x y : ℤ × S) (P : S → Type 0)
      → is_zero (if b then x else y).0 ≡ true
      → (b ≡ true → P x.1)
      → (b ≡ false → is_zero y.0 ≡ true → P y.1)
      → P (if b then x else y).1
  coherent_or_not true x y P z f g = f refl
  coherent_or_not false x y P z f g = g refl z

  mapped_or_not :
      (result : ℤ) (b : Bool) (s : S) (done : ℤ × S)
      → is_zero (if not b then (result, s) else done).0 ≡ true
      → is_zero result ≡ b
      → (P : S → Type 0) → (is_zero done.0 ≡ true → P done.1)
      → P (if not b then (result, s) else done).1
  mapped_or_not result true s done z e P f = f z
  mapped_or_not result false s done z e P f = ground (arith, z, e)

  -- An upload that succeeds puts its bytes in the memory: the host sees them where it saw others, and
  -- the device sees what the host sees at each of them and wherever it did so before.
  pub map_upload-Uploaded :
      (s : S) (offset : ℕ) (bytes : List ℕ)
      → IsTransfer m offset (length bytes)
      → is_zero (map_upload driver s m offset (length bytes) bytes).0 ≡ true
      → Uploaded s (map_upload driver s m offset (length bytes) bytes).1 offset bytes
  unfolding map_upload
  map_upload-Uploaded s offset bytes t z =
      let (valid, cover) = native_range-Covers m offset (length bytes) t in
      let r = native_range m offset (length bytes) in
      let stored = driver.store s m offset bytes in
      mapped_or_not (driver.map_memory s m (align_down offset (native_alignment m)))
        (is_zero (driver.map_memory s m (align_down offset (native_alignment m)))) s
        (if is_coherent m then (pos 0, stored) else driver.flush_ranges stored m r) z refl
        (λ x. Uploaded s x offset bytes)
        (λ q.
          coherent_or_not (is_coherent m) (pos 0, stored) (driver.flush_ranges stored m r)
            (λ x. Uploaded s x offset bytes) q (coherent-Uploaded s offset bytes t.within)
            (λ c y. flushed-Uploaded s offset bytes r t.within c valid cover y))
