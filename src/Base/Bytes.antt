-- ===== src/Base/Bytes.antt =====
-- Fixed-width integers as little-endian bytes: what `memcpy` of an unsigned integer writes and
-- reads on the x86-64 hosts that the program supports.
use Prim.Native.Nat.{ℕ, zero, suc, ◌+◌, ◌*◌, ◌/◌, ◌%◌, ◌^◌, ◌<◌}
use mathlib.Core.Path.{◌≡◌, refl, ap, ◌∙◌}
use mathlib.Core.List.{List, [], ◌∷◌, ◌++◌}
use native.Mathlib.Omega.{arith}
use native.Mathlib.Nat.{pow-suc}
use vulkan_remote.Base.Lists.{length, take, drop, All, take_all}

abbrev pub IsByte : ℕ → Type 0
IsByte b = b < 256

-- The `w` bytes of `v % 256 ^ w`, lowest first.
unfoldable pub le_bytes : ℕ → ℕ → List ℕ
le_bytes zero v = []
le_bytes (suc w) v = (v % 256) ∷ le_bytes w (v / 256)

unfoldable pub of_le : List ℕ → ℕ
of_le [] = 0
of_le (b ∷ bs) = b + 256 * of_le bs

pub length-le_bytes : (w v : ℕ) → length (le_bytes w v) ≡ w
unfolding le_bytes
length-le_bytes zero v = refl
length-le_bytes (suc w) v = ap suc (length-le_bytes w (v / 256))

le_bytes-IsByte : (w v : ℕ) → All IsByte (le_bytes w v)
unfolding le_bytes
le_bytes-IsByte zero v = tt
le_bytes-IsByte (suc w) v = (omega arith, le_bytes-IsByte w (v / 256))

of_le-le_bytes : (w v : ℕ) → v < 256 ^ w → of_le (le_bytes w v) ≡ v
unfolding le_bytes of_le
of_le-le_bytes zero v h = omega arith
of_le-le_bytes (suc w) v h =
    omega (arith, of_le-le_bytes w (v / 256) (omega (arith, pow-suc 256 w)))

take-le_bytes : (w v : ℕ) (rest : List ℕ) → take w (le_bytes w v ++ rest) ≡ le_bytes w v
unfolding le_bytes
take-le_bytes zero v rest = refl
take-le_bytes (suc w) v rest = ap (◌∷◌ (v % 256)) (take-le_bytes w (v / 256) rest)

pub of_le-take : (w v : ℕ) (rest : List ℕ) → v < 256 ^ w → of_le (take w (le_bytes w v ++ rest)) ≡ v
of_le-take w v rest h = rw (take-le_bytes w v rest) (of_le-le_bytes w v h)

pub drop-le_bytes : (w v : ℕ) (rest : List ℕ) → drop w (le_bytes w v ++ rest) ≡ rest
unfolding le_bytes
drop-le_bytes zero v rest = refl
drop-le_bytes (suc w) v rest = drop-le_bytes w (v / 256) rest

of_le-lt : (bs : List ℕ) → All IsByte bs → of_le bs < 256 ^ length bs
unfolding of_le
of_le-lt [] h = omega arith
of_le-lt (b ∷ bs) (hb, hs) = omega (arith, of_le-lt bs hs, pow-suc 256 (length bs))

le_bytes-of_le : (bs : List ℕ) → All IsByte bs → le_bytes (length bs) (of_le bs) ≡ bs
unfolding le_bytes of_le
le_bytes-of_le [] h = refl
le_bytes-of_le (b ∷ bs) (hb, hs) =
    ap (λ c. c ∷ le_bytes (length bs) ((b + 256 * of_le bs) / 256)) low
    ∙ ap (λ v. b ∷ le_bytes (length bs) v) high
    ∙ ap (◌∷◌ b) (le_bytes-of_le bs hs)
  where
    low : (b + 256 * of_le bs) % 256 ≡ b
    low = omega arith

    high : (b + 256 * of_le bs) / 256 ≡ of_le bs
    high = omega arith

pub of_le-take_whole : (w v : ℕ) → v < 256 ^ w → of_le (take w (le_bytes w v)) ≡ v
of_le-take_whole w v h =
    rw (take_all w (le_bytes w v) (omega (arith, length-le_bytes w v))) (of_le-le_bytes w v h)
