-- ===== src/Wayland/Link/Shorter.antt =====
-- wayland/wire.cpp: `take_link_frame` always takes something off the buffer.
use vulkan_remote.Base.{
  ℕ, zero, suc, ◌+◌, ◌≤◌, ◌<◌, ◌≡◌, sym, subst, inl, inr, Bool, true, false, List, [], ◌∷◌, arith,
}
use vulkan_remote.Base.Tests.{ltb, if◌then◌else◌, Bool-cases, if_true, if_false}
use vulkan_remote.Base.Lists.{length, take, drop, length-drop}
use vulkan_remote.Wayland.Decode.{read_u32}
use vulkan_remote.Wayland.Link.{
  LinkFrame, ok, take_link_frame, Scan, short, bad, got, ◌>>=◌, or_short, get_u32, chunk_at,
  take_chunk, take_blobs, scan_frame, finish, max_frame_bytes,
}

-- What a scan has read ends at `n` or later.
abbrev IsPast : {A : Type 0} → ℕ → Scan A → Type 0
IsPast n short = Unit
IsPast n bad = Unit
IsPast n (got a pos) = n ≤ pos

bind-IsPast :
    {A B : Type 0} (n : ℕ) (s : Scan A) (f : A × ℕ → Scan B)
    → IsPast n s
    → ((a : A) (pos : ℕ) → n ≤ pos → IsPast n (f (a, pos)))
    → IsPast n (s >>= f)
bind-IsPast n short f h k = tt
bind-IsPast n bad f h k = tt
bind-IsPast n (got a pos) f h k = k a pos h

either-IsPast :
    {A : Type 0} (n : ℕ) (b : Bool) (s t : Scan A)
    → IsPast n s
    → IsPast n t
    → IsPast n (if b then s else t)
either-IsPast n true s t h k = h
either-IsPast n false s t h k = k

module _ (p : List ℕ) where
  get_u32-IsPast : (pos : ℕ) → IsPast (pos + 4) (get_u32 p pos)
  unfolding get_u32 read_u32
  get_u32-IsPast pos = elim (Bool-cases (ltb (length p) (pos + 4))) [
    | inl e ↦ subst (λ o. IsPast (pos + 4) (or_short o)) (sym (if_true _ _ e)) tt
    | inr e ↦ subst (λ o. IsPast (pos + 4) (or_short o)) (sym (if_false _ _ e)) (omega arith)
  ]

  weaken : {A : Type 0} (n m : ℕ) (s : Scan A) → n ≤ m → IsPast m s → IsPast n s
  weaken n m short l h = tt
  weaken n m bad l h = tt
  weaken n m (got a pos) l h = omega (arith, l, h)

  chunk_at-IsPast : (n len pos : ℕ) → n ≤ pos → IsPast n (chunk_at p len pos)
  chunk_at-IsPast n len pos h = either-IsPast n (ltb max_frame_bytes len) bad _ tt (
      either-IsPast n (ltb (length p) (pos + len)) short (got (take len (drop pos p)) (pos + len))
        tt (omega (arith, h)))

  take_chunk-IsPast : (pos : ℕ) → IsPast (pos + 4) (take_chunk p pos)
  unfolding take_chunk
  take_chunk-IsPast pos =
      bind-IsPast (pos + 4) (get_u32 p pos) (λ (len, pos). chunk_at p len pos) (get_u32-IsPast pos)
        (λ len q h. chunk_at-IsPast (pos + 4) len q h)

  take_blobs-IsPast : (count n pos : ℕ) → n ≤ pos → IsPast n (take_blobs count p pos)
  unfolding take_blobs
  take_blobs-IsPast zero n pos h = h
  take_blobs-IsPast (suc count) n pos h =
      bind-IsPast n (take_chunk p pos) _
        (weaken n (pos + 4) (take_chunk p pos) (omega (arith, h)) (take_chunk-IsPast pos))
        (λ blob q l.
          bind-IsPast n (take_blobs count p q) _ (take_blobs-IsPast count n q l) (λ blobs r k. k))

  scan_frame-IsPast : IsPast 4 (scan_frame p)
  unfolding scan_frame
  scan_frame-IsPast = bind-IsPast 4 (take_chunk p 0) _ (take_chunk-IsPast 0) (λ wire q l.
      bind-IsPast 4 (get_u32 p q) _
        (weaken 4 (q + 4) (get_u32 p q) (omega arith) (get_u32-IsPast q))
        (λ count r k.
          bind-IsPast 4 (if ltb 16 count then bad else take_blobs count p r) _
            (either-IsPast 4 (ltb 16 count) bad (take_blobs count p r) tt
              (take_blobs-IsPast count 4 r k))
            (λ blobs x m. m)))

finish-shorter :
    (buffer : List ℕ) (f : LinkFrame) (rest : List ℕ) (s : Scan LinkFrame)
    → 1 ≤ length buffer
    → IsPast 4 s
    → finish buffer s ≡ ok f rest
    → length rest < length buffer
finish-shorter buffer f rest short h p e = ground (arith, e)
finish-shorter buffer f rest bad h p e = ground (arith, e)
finish-shorter buffer f rest (got a pos) h p e = ground (arith, e, length-drop pos buffer, h, p)

-- A frame that is taken off the buffer shortens it.
pub take_link_frame-shorter :
    (buffer : List ℕ) (f : LinkFrame) (rest : List ℕ)
    → take_link_frame buffer ≡ ok f rest
    → length rest < length buffer
unfolding take_link_frame scan_frame take_chunk get_u32 read_u32
take_link_frame-shorter [] f rest e = ground (arith, e)
take_link_frame-shorter (b ∷ bs) f rest e =
    finish-shorter (b ∷ bs) f rest (scan_frame (b ∷ bs)) (omega arith) (scan_frame-IsPast (b ∷ bs))
      e
