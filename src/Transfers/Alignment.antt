-- ===== src/Transfers/Alignment.antt =====
-- server/handlers_memory.cpp: the masks of `align_down` and the range that `map_transfer` flushes.
use vulkan_remote.Base.{
  ℕ, ◌+◌, ◌-◌, ◌*◌, ◌/◌, ◌%◌, ◌^◌, ◌≤◌, ◌<◌, ◌≡◌, ◌≢◌, sym, ap, ◌∙◌, subst, ◌⊎◌, inl, inr, arith,
}
use Prim.Native.Nat.{bit_and}
use native.Mathlib.Nat.{
  pow-le-pow_right, one-le-pow, div-mul-le_self, mod-eq-sub-div-mul, mod-lt, lt_of_mul-lt-mul_right,
  mul-le-mul_right, mul-mod_left, add-mul, le_of_mul-le-mul_right,
}
use vulkan_remote.Base.Tests.{◌==◌, if◌then◌else◌, if_false, equal_or_not}
use vulkan_remote.Base.Bits.{bit_and_aligned}
use vulkan_remote.Objects.Teardown.{ServerMemory}
use vulkan_remote.Mapped.{whole_size}
use vulkan_remote.Transfers.{NativeRange, align_down, native_range}

-- A power of two below 2^63, as alignments are.
abbrev pub IsAlignment : ℕ → Type 0
IsAlignment a = (k : ℕ) × (k ≤ 62) × (a ≡ 2 ^ k)

alignment-bounds : (k : ℕ) → k ≤ 62 → (1 ≤ 2 ^ k) × (2 ^ k ≤ 2 ^ 62)
alignment-bounds k h = (one-le-pow k 2 (omega arith), pow-le-pow_right {n = 2} (omega arith) h)

-- The mask rounds down to a multiple of the alignment.
align_down_lem :
    (value a : ℕ) → IsAlignment a → value < 2 ^ 64 → align_down value a ≡ value - value % a
align_down_lem value a (k, h, e) l =
    let (low, high) = alignment-bounds k h in
    rw e (
      ap (bit_and value) {x = 2 ^ 64 - 1 - (2 ^ k + (2 ^ 64 - 1)) % 2 ^ 64} {y = 2 ^ 64 - 2 ^ k}
        (omega (arith, low, high))
      ∙ bit_and_aligned k value (omega (arith, h)) l)

-- What rounding up `e` to a multiple of `a` is.
record RoundedUp (e a r : ℕ) : Type 0 where
  above : e ≤ r
  close : r < e + a
  whole : r % a ≡ 0
  least : (limit : ℕ) → limit % a ≡ 0 → e ≤ limit → r ≤ limit

-- The quotient rounded up, by the products that stand for the multiples.
RoundedUp-quotient : (e a : ℕ) → 1 ≤ a → RoundedUp e a ((e + a - 1) - (e + a - 1) % a)
RoundedUp-quotient e a h =
    let n = e + a - 1 in
    let p = n / a * a in
    let floor : n - n % a ≡ p = omega (arith, mod-eq-sub-div-mul n a, div-mul-le_self n a) in
    let left = mod-lt n h in
    let near : p < e + a = omega (arith, h, floor) in
    record {
      above = omega (arith, floor, left);
      close = omega (arith, floor, h);
      whole = ap (λ k. k % a) floor ∙ mul-mod_left (n / a) a;
      least = λ limit m l.
          let t = limit / a in
          let exact : limit ≡ t * a =
            omega (arith, mod-eq-sub-div-mul limit a, div-mul-le_self limit a, m) in
          let next : p < (t + 1) * a = omega (arith, near, exact, l, add-mul t 1 a) in
          let step : n / a < t + 1 = lt_of_mul-lt-mul_right a next in
          omega (arith, floor, exact, mul-le-mul_right {m = n / a} {n = t} a (omega (arith, step)));
    }

RoundedUp-align_down :
    (e a : ℕ)
    → IsAlignment a
    → e ≤ 2 ^ 63
    → RoundedUp e a (align_down ((e + a + (2 ^ 64 - 1)) % 2 ^ 64) a)
RoundedUp-align_down e a (k, h, p) l =
    let (low, high) = alignment-bounds k h in
    let sum : (e + a + (2 ^ 64 - 1)) % 2 ^ 64 ≡ e + a - 1 = omega (arith, low, high, p) in
    subst (RoundedUp e a)
      (sym (
        align_down_lem ((e + a + (2 ^ 64 - 1)) % 2 ^ 64) a (k, h, p) (omega arith)
        ∙ ap (λ n. n - n % a) sum))
      (RoundedUp-quotient e a (omega (arith, low, p)))

-- The size that VK_WHOLE_SIZE stands for.
abbrev pub actual_size : ServerMemory → NativeRange → ℕ
actual_size m r = if r.size == whole_size then m.size - r.offset else r.size

-- What Vulkan asks of a range that is flushed or invalidated.
pub record IsValidRange (m : ServerMemory) (r : NativeRange) : Type 0 where
  pub begins : r.offset % m.non_coherent_atom_size ≡ 0
  pub inside : r.offset + actual_size m r ≤ m.size
  pub ends :
      (actual_size m r % m.non_coherent_atom_size ≡ 0) ⊎ (r.offset + actual_size m r ≡ m.size)

-- The bytes of the transfer are in the range.
pub record Covers (m : ServerMemory) (offset size : ℕ) (r : NativeRange) : Type 0 where
  pub low : r.offset ≤ offset
  pub high : offset + size ≤ r.offset + actual_size m r

-- The memory, its atom and a transfer in it, whose rounded end is in the memory.
pub record IsTransfer (m : ServerMemory) (offset size : ℕ) : Type 0 where
  pub atom : IsAlignment m.non_coherent_atom_size
  pub small : m.size ≤ 2 ^ 63
  pub some_bytes : 1 ≤ size
  pub within : offset + size ≤ m.size
  pub rounds :
      (m.size % m.non_coherent_atom_size ≡ 0)
      ⊎ ((offset + size) % m.non_coherent_atom_size ≡ 0)
      ⊎ (offset + size ≡ m.size)

multiples_apart : (a x y : ℕ) → 1 ≤ a → x % a ≡ 0 → y % a ≡ 0 → x ≤ y → (y - x) % a ≡ 0
multiples_apart a x y h p q l =
    let exact : x ≡ x / a * a = omega (arith, mod-eq-sub-div-mul x a, div-mul-le_self x a, p) in
    let exact' : y ≡ y / a * a = omega (arith, mod-eq-sub-div-mul y a, div-mul-le_self y a, q) in
    let order : x / a ≤ y / a =
      le_of_mul-le-mul_right {k = a} (omega (arith, exact, exact', l)) h in
    let split : y / a * a ≡ (y / a - x / a) * a + x / a * a =
      ap (λ n. n * a) {x = y / a} {y = (y / a - x / a) + x / a} (omega (arith, order))
      ∙ add-mul (y / a - x / a) (x / a) a in
    ap (λ n. n % a) {x = y - x} {y = (y / a - x / a) * a} (omega (arith, exact, exact', split))
    ∙ mul-mod_left (y / a - x / a) a

floor-IsMultiple : (x a : ℕ) → (x - x % a) % a ≡ 0
floor-IsMultiple x a =
    ap (λ n. n % a) {x = x - x % a} {y = x / a * a}
      (omega (arith, mod-eq-sub-div-mul x a, div-mul-le_self x a))
    ∙ mul-mod_left (x / a) a

-- `native_range` with the masks replaced by what they compute, when the end is rounded.
rounded_range :
    (m : ServerMemory) (offset size start r : ℕ)
    → IsTransfer m offset size
    → start % m.non_coherent_atom_size ≡ 0
    → start ≤ offset
    → RoundedUp (offset + size) m.non_coherent_atom_size r
    → offset + size ≢ m.size
    → let range : NativeRange = record { offset = start; size = (r + (2 ^ 64 - start)) % 2 ^ 64 } in
      IsValidRange m range × Covers m offset size range
rounded_range m offset size start r t z l up n =
    let a = m.non_coherent_atom_size in
    let (low, high) = alignment-bounds t.atom.0 t.atom.1 in
    let inside : r ≤ m.size = limit t.rounds in
    let width : (r + (2 ^ 64 - start)) % 2 ^ 64 ≡ r - start =
      omega (arith, t.small, t.within, t.some_bytes, l, up.above, inside) in
    let range : NativeRange = record { offset = start; size = (r + (2 ^ 64 - start)) % 2 ^ 64 } in
    let actual : actual_size m range ≡ r - start = ground (arith, width, t.small, inside) in
    (
      record {
        begins = z;
        inside = omega (arith, actual, inside, up.above, l);
        ends = inl (
            ap (λ k. k % a) actual
            ∙ multiples_apart a start r (omega (arith, low, t.atom)) z up.whole
                (omega (arith, up.above, l)));
      },
      record { low = l; high = omega (arith, actual, up.above, l) },
    )
  where
    limit :
        ((m.size % m.non_coherent_atom_size ≡ 0)
          ⊎ ((offset + size) % m.non_coherent_atom_size ≡ 0)
          ⊎ (offset + size ≡ m.size))
        → r ≤ m.size
    limit (inl whole) = up.least m.size whole t.within
    limit (inr (inl whole)) = omega (arith, up.least (offset + size) whole (omega arith), t.within)
    limit (inr (inr same)) = absurd (n same)

-- `native_range` behind its masks.
abbrev range_from : ServerMemory → ℕ → ℕ → ℕ → NativeRange
range_from m requested_end start rounded = record {
  offset = start;
  size = (if requested_end == m.size then whole_size else (rounded + (2 ^ 64 - start)) % 2 ^ 64);
}

range_from-Covers :
    (m : ServerMemory) (offset size start r : ℕ)
    → IsTransfer m offset size
    → start % m.non_coherent_atom_size ≡ 0
    → start ≤ offset
    → RoundedUp (offset + size) m.non_coherent_atom_size r
    → IsValidRange m (range_from m (offset + size) start r)
      × Covers m offset size (range_from m (offset + size) start r)
range_from-Covers m offset size start r t z l up = elim (equal_or_not (offset + size) m.size) [
  | inl e ↦
      let actual : actual_size m (range_from m (offset + size) start r) ≡ m.size - start =
        ground (arith, e) in
      (
        record {
          begins = z;
          inside = omega (arith, actual, e, l);
          ends = inr (omega (arith, actual, e, l));
        },
        record { low = l; high = omega (arith, actual, e, l) },
      )
  | inr n ↦
      subst
        (λ (k : ℕ).
          IsValidRange m (record { offset = start; size = k })
          × Covers m offset size (record { offset = start; size = k }))
        (sym (
          if_false {c = offset + size == m.size} whole_size ((r + (2 ^ 64 - start)) % 2 ^ 64)
            (ground (arith, n))))
        (rounded_range m offset size start r t z l up n)
]

-- The range that `map_transfer` flushes or invalidates for a transfer is one that Vulkan allows, and
-- the bytes of the transfer are in it, if the atom size is a power of two and the end of the transfer
-- can be rounded up inside the memory.
pub native_range-Covers :
    (m : ServerMemory) (offset size : ℕ)
    → IsTransfer m offset size
    → IsValidRange m (native_range m offset size)
      × Covers m offset size (native_range m offset size)
unfolding native_range
native_range-Covers m offset size t =
    let a = m.non_coherent_atom_size in
    let wraps : (offset + size) % 2 ^ 64 ≡ offset + size = omega (arith, t.within, t.small) in
    let down : align_down offset a ≡ offset - offset % a =
      align_down_lem offset a t.atom (omega (arith, t.within, t.small)) in
    rw wraps (
      range_from-Covers m offset size (align_down offset a)
        (align_down ((offset + size + a + (2 ^ 64 - 1)) % 2 ^ 64) a) t
        (ap (λ k. k % a) down ∙ floor-IsMultiple offset a) (omega (arith, down))
        (RoundedUp-align_down (offset + size) a t.atom (omega (arith, t.within, t.small))))
