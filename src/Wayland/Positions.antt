-- ===== src/Wayland/Positions.antt =====
-- wayland/wire.cpp: what the readers of the decoder return at a position where the encoder wrote.
use vulkan_remote.Base.{
  ℕ, ◌+◌, ◌-◌, ◌%◌, ◌^◌, ◌≤◌, ◌<◌, ◌≡◌, refl, ap, ◌∙◌, subst, some, List, [], ◌∷◌, ◌++◌,
  append_assoc, arith,
}
use vulkan_remote.Base.Lists.{
  length, take, drop, replicate, length-append, length-drop, length-replicate, drop-add,
  drop-length_append, take-length_append,
}
use vulkan_remote.Base.Bytes.{le_bytes, of_le, length-le_bytes, of_le-take}
use vulkan_remote.Wayland.Decode.{read_u32, read_blob, blob_at, drop_nul, read_string}
use vulkan_remote.Wayland.Encode.{padded_size, put_blob, nul_terminated}

-- At position `pos` the buffer goes on with `rest`.
pub record At (p : List ℕ) (pos : ℕ) (rest : List ℕ) : Type 0 where
  pub within : pos ≤ length p
  pub ahead : drop pos p ≡ rest

pub At-length : {p rest : List ℕ} {pos : ℕ} → At p pos rest → length p ≡ pos + length rest
At-length {p} {pos = pos} a = omega (arith, a, length-drop pos p, ap length a.ahead)

pub At-skip :
    {p : List ℕ} {pos : ℕ} (front rest : List ℕ)
    → At p pos (front ++ rest)
    → At p (pos + length front) rest
At-skip {p} {pos} front rest a = record {
  within = omega (arith, At-length a, length-append front rest);
  ahead =
      drop-add pos (length front) p
      ∙ ap (drop (length front)) a.ahead
      ∙ drop-length_append front rest;
}

pub read_u32-At :
    (p : List ℕ) (pos v : ℕ) (rest : List ℕ)
    → v < 2 ^ 32
    → At p pos (le_bytes 4 v ++ rest)
    → read_u32 p pos ≡ some (v, pos + 4)
unfolding read_u32
read_u32-At p pos v rest h a = ground (
  arith,
  At-length a,
  length-append (le_bytes 4 v) rest,
  length-le_bytes 4 v,
  ap (λ l. of_le (take 4 l)) a.ahead,
  of_le-take 4 v rest h,
)

pub At-word :
    (p : List ℕ) (pos v : ℕ) (rest : List ℕ) → At p pos (le_bytes 4 v ++ rest) → At p (pos + 4) rest
At-word p pos v rest a =
    subst (λ k. At p (pos + k) rest) (length-le_bytes 4 v) (At-skip (le_bytes 4 v) rest a)

pad : List ℕ → List ℕ
pad b = replicate (padded_size (length b) - length b) 0

length-pad : (b : List ℕ) → length b + length (pad b) ≡ padded_size (length b)
unfolding pad
length-pad b = omega (arith, length-replicate {A = ℕ} (padded_size (length b) - length b) 0)

pub length-put_blob : (b : List ℕ) → length (put_blob b) ≡ 4 + padded_size (length b)
unfolding pad
length-put_blob b = omega (
  arith,
  length-append (le_bytes 4 (length b % 2 ^ 32)) (b ++ pad b),
  length-append b (pad b),
  length-le_bytes 4 (length b % 2 ^ 32),
  length-pad b,
)

blob_at-At :
    (p : List ℕ) (pos : ℕ) (b rest : List ℕ)
    → length b + 3 < 2 ^ 32
    → At p pos ((b ++ pad b) ++ rest)
    → blob_at p (length b) pos ≡ some (b, pos + padded_size (length b))
blob_at-At p pos b rest h a = ground (
  arith,
  h,
  At-length a,
  length-append (b ++ pad b) rest,
  length-append b (pad b),
  length-pad b,
  ap (take (length b)) (a.ahead ∙ append_assoc b (pad b) rest),
  take-length_append b (pad b ++ rest),
)

pub read_blob-At :
    (p : List ℕ) (pos : ℕ) (b rest : List ℕ)
    → length b + 3 < 2 ^ 32
    → At p pos (put_blob b ++ rest)
    → read_blob p pos ≡ some (b, pos + length (put_blob b))
unfolding read_blob pad le_bytes
read_blob-At p pos b rest h a =
    let small : length b % 2 ^ 32 ≡ length b = omega arith in
    let a' : At p pos (le_bytes 4 (length b % 2 ^ 32) ++ ((b ++ pad b) ++ rest)) =
      subst (At p pos) (append_assoc (le_bytes 4 (length b % 2 ^ 32)) (b ++ pad b) rest) a in
    rw (read_u32-At p pos (length b % 2 ^ 32) ((b ++ pad b) ++ rest) (omega arith) a', small)
      (blob_at-At p (pos + 4) b rest h (At-word p pos _ ((b ++ pad b) ++ rest) a')
        ∙ ap (λ k. some (b, k)) (omega (arith, length-put_blob b)))

drop_nul-nul_terminated : (s : List ℕ) → drop_nul (nul_terminated s) ≡ some s
unfolding drop_nul
drop_nul-nul_terminated [] = refl
drop_nul-nul_terminated (c ∷ []) = refl
drop_nul-nul_terminated (c ∷ d ∷ s) = rw (drop_nul-nul_terminated (d ∷ s))

pub read_string-At :
    (p : List ℕ) (pos : ℕ) (s rest : List ℕ)
    → length s + 4 < 2 ^ 32
    → At p pos (put_blob (nul_terminated s) ++ rest)
    → read_string p pos ≡ some (s, pos + length (put_blob (nul_terminated s)))
read_string-At p pos s rest h a = rw (
  read_blob-At p pos (nul_terminated s) rest (omega (arith, length-append s (0 ∷ []))) a,
  drop_nul-nul_terminated s,
)
