-- ===== src/Transfers/Downloads.antt =====
-- server/handlers_memory.cpp: what a download reads, and what freeing a memory leaves.
use vulkan_remote.Base.{
  ℕ, ◌+◌, ◌≤◌, ◌<◌, ◌≡◌, refl, sym, ap, ◌∙◌, Bool, true, false, not, List, [], arith,
}
use vulkan_remote.Base.Tests.{if◌then◌else◌, if_true}
use vulkan_remote.Base.Lists.{length, drop, get_or, length-take, length-drop}
use vulkan_remote.Base.Words.{ℤ, pos}
use vulkan_remote.Objects.Teardown.{ServerMemory}
use vulkan_remote.Transfers.{
  NativeRange, Driver, is_coherent, is_zero, align_down, native_alignment, native_range,
  load_invalidated, map_download,
}
use vulkan_remote.Transfers.Alignment.{
  actual_size, IsValidRange, Covers, IsTransfer, native_range-Covers,
}
use vulkan_remote.Mapped.Writes.{slice, get_or_ext, get_or-take, get_or-drop}
use vulkan_remote.Transfers.Views.{Views}
use vulkan_remote.Transfers.Uploads.{IsIn, get_or-write_slice}

length-slice : (p n : ℕ) (xs : List ℕ) → p + n ≤ length xs → length (slice p n xs) ≡ n
length-slice p n xs h = omega (arith, length-take n (drop p xs), length-drop p xs, h)

-- Slices of lists that agree on the range.
slice_ext :
    (p n : ℕ) (xs ys : List ℕ)
    → p + n ≤ length xs
    → length xs ≡ length ys
    → ((i : ℕ) → IsIn p n i → get_or xs i 0 ≡ get_or ys i 0)
    → slice p n xs ≡ slice p n ys
slice_ext p n xs ys h e f =
    let hx = length-slice p n xs h in
    let hy = length-slice p n ys (omega (arith, e, h)) in
    get_or_ext (slice p n xs) (slice p n ys) (omega (arith, hx, hy)) (λ i l.
      let l' : i < n = omega (arith, hx, l) in
      get_or-take n (drop p xs) i l'
      ∙ (get_or-drop p xs i
          ∙ (f (p + i) (omega arith, omega (arith, l'))
              ∙ sym (get_or-take n (drop p ys) i l' ∙ get_or-drop p ys i))))

module _ {S : Type 0} (driver : Driver S) (m : ServerMemory) (v : Views driver m) where
  -- What a download that succeeds returns, and that the device keeps what it sees.
  abbrev Downloads : S → ℕ → ℕ → ℤ × List ℕ × S → Type 0
  Downloads s offset size r =
      is_zero r.0 ≡ true → (r.1 ≡ slice offset size (v.device s)) × (v.device r.2 ≡ v.device s)

  coherent-Downloads :
      (s : S) (offset size : ℕ)
      → is_coherent m ≡ true
      → Downloads s offset size (load_invalidated driver m offset size (pos 0, s))
  coherent-Downloads s offset size c z =
      (v.loads s offset size ∙ ap (slice offset size) (sym (v.coherent s c)), refl)

  invalidated-Downloads :
      (s : S) (offset size : ℕ) (r : NativeRange)
      → offset + size ≤ m.size
      → IsValidRange m r
      → Covers m offset size r
      → Downloads s offset size
          (load_invalidated driver m offset size (driver.invalidate_ranges s m r))
  invalidated-Downloads s offset size r h valid cover z =
      let s' = (driver.invalidate_ranges s m r).1 in
      let (ed, eh) = v.invalidates s r valid z in
      let lengths : length (v.host s) ≡ length (v.device s) =
        omega (arith, v.length_host s, v.length_device s) in
      (
        if_true {c = is_zero (driver.invalidate_ranges s m r).0} (driver.load s' m offset size) [] z
            ∙ (v.loads s' offset size
                ∙ slice_ext offset size (v.host s') (v.device s)
                    (omega (arith, h, v.length_host s'))
                    (omega (arith, v.length_host s', v.length_device s))
                    (λ i (low, high).
                      ap (λ l. get_or l i 0) eh
                      ∙ get_or-write_slice r.offset (actual_size m r) (v.device s) (v.host s) i
                          lengths (omega (arith, valid.inside, v.length_host s))
                          (omega (arith, cover, low), omega (arith, cover, high)))),
        ed,
      )

  either-Downloads :
      (b : Bool) (s : S) (offset size : ℕ) (x y : ℤ × S)
      → (b ≡ true → Downloads s offset size (load_invalidated driver m offset size x))
      → Downloads s offset size (load_invalidated driver m offset size y)
      → Downloads s offset size (load_invalidated driver m offset size (if b then x else y))
  either-Downloads true s offset size x y f g = f refl
  either-Downloads false s offset size x y f g = g

  failed-Downloads :
      (b : Bool) (s : S) (offset size : ℕ) (result : ℤ) (done : ℤ × List ℕ × S)
      → is_zero result ≡ b
      → Downloads s offset size done
      → Downloads s offset size (if not b then (result, [], s) else done)
  failed-Downloads true s offset size result done e f = f
  failed-Downloads false s offset size result done e f = λ z. ground (arith, e, z)

  map_download-Downloads :
      (s : S) (offset size : ℕ)
      → IsTransfer m offset size
      → Downloads s offset size (map_download driver s m offset size)
  unfolding map_download
  map_download-Downloads s offset size t =
      let (valid, cover) = native_range-Covers m offset size t in
      let r = native_range m offset size in
      let mapped = driver.map_memory s m (align_down offset (native_alignment m)) in
      failed-Downloads (is_zero mapped) s offset size mapped
        (load_invalidated driver m offset size
          (if is_coherent m then (pos 0, s) else driver.invalidate_ranges s m r))
        refl
        (either-Downloads (is_coherent m) s offset size (pos 0, s) (driver.invalidate_ranges s m r)
          (coherent-Downloads s offset size)
          (invalidated-Downloads s offset size r t.within valid cover))

  -- A download that succeeds returns the bytes that the device sees in the range, and changes none of
  -- them, if the atom size is a power of two and the end of the range can be rounded up in the memory.
  pub map_download-device :
      (s : S) (offset size : ℕ)
      → IsTransfer m offset size
      → is_zero (map_download driver s m offset size).0 ≡ true
      → let (result, bytes, s') = map_download driver s m offset size in
        (bytes ≡ slice offset size (v.device s)) × (v.device s' ≡ v.device s)
  map_download-device s offset size t = map_download-Downloads s offset size t
