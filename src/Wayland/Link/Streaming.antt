-- ===== src/Wayland/Link/Streaming.antt =====
-- wayland/wire.cpp: how `take_link_frame` answers while the bytes of a stream arrive.
use vulkan_remote.Base.{
  ℕ, zero, suc, ◌+◌, ◌≤◌, ◌≡◌, ◌≢◌, refl, ap, inl, inr, List, [], ◌∷◌, ◌++◌, append-nil, arith,
}
use vulkan_remote.Base.Tests.{ltb, if◌then◌else◌, Bool-cases, ge-ltb}
use vulkan_remote.Base.Lists.{length, take, drop, length-append, drop-append_left, slice-append}
use vulkan_remote.Base.Bytes.{of_le}
use vulkan_remote.Wayland.Link.{
  LinkFrame, FrameResult, need_more_data, ok, malformed, Scan, short, bad, got, ◌>>=◌,
  max_frame_bytes, write_link_frame, get_u32, chunk_at, take_chunk, take_blobs, scan_frame, finish,
  take_link_frame,
}
use vulkan_remote.Wayland.Link.RoundTrip.{IsSendable, take_link_frame-write_link_frame}

-- The scan `s` of a buffer of `n` bytes, against the scan `s'` of that buffer with more behind it.
data Grows {A : Type 0} (n : ℕ) (s s' : Scan A) : Type 0 where
  waits : s ≡ short → Grows n s s'
  refuses : s ≡ bad → s' ≡ bad → Grows n s s'
  yields : (a : A) (pos : ℕ) → s ≡ got a pos → s' ≡ got a pos → pos ≤ n → Grows n s s'

Grows->>= :
    {A B : Type 0} {n : ℕ} {s s' : Scan A} (f f' : A × ℕ → Scan B)
    → Grows n s s'
    → ((a : A) (pos : ℕ) → pos ≤ n → Grows n (f (a, pos)) (f' (a, pos)))
    → Grows n (s >>= f) (s' >>= f')
Grows->>= f f' (waits e) k = waits (rw e)
Grows->>= f f' (refuses e e') k = refuses (rw e) (rw e')
Grows->>= f f' (yields a pos e e' h) k = rw (e, e') (k a pos h)

module _ (p more : List ℕ) where
  get_u32-Grows : (pos : ℕ) → Grows (length p) (get_u32 p pos) (get_u32 (p ++ more) pos)
  unfolding get_u32
  get_u32-Grows pos = elim (Bool-cases (ltb (length p) (pos + 4))) [
    | inl late ↦ waits (rw late)
    | inr here ↦
        yields (of_le (take 4 (drop pos p))) (pos + 4) (rw here)
          (ground
            (arith, length-append p more, ap of_le (slice-append 4 pos p more (ge-ltb _ _ here))))
          (ge-ltb _ _ here)
  ]

  chunk_at-Grows :
      (len pos : ℕ) → Grows (length p) (chunk_at p len pos) (chunk_at (p ++ more) len pos)
  chunk_at-Grows len pos = elim (Bool-cases (ltb max_frame_bytes len)) [
    | inl big ↦ refuses (rw big) (rw big)
    | inr fits ↦ elim (Bool-cases (ltb (length p) (pos + len))) [
      | inl late ↦ waits (rw (fits, late))
      | inr here ↦
          yields (take len (drop pos p)) (pos + len) (rw (fits, here))
            (ground (arith, length-append p more, slice-append len pos p more (ge-ltb _ _ here)))
            (ge-ltb _ _ here)
    ]
  ]

  take_chunk-Grows : (pos : ℕ) → Grows (length p) (take_chunk p pos) (take_chunk (p ++ more) pos)
  unfolding take_chunk
  take_chunk-Grows pos = Grows->>= _ _ (get_u32-Grows pos) (λ len pos' _. chunk_at-Grows len pos')

  take_blobs-Grows :
      (n pos : ℕ)
      → pos ≤ length p
      → Grows (length p) (take_blobs n p pos) (take_blobs n (p ++ more) pos)
  unfolding take_blobs
  take_blobs-Grows zero pos h = yields [] pos refl refl h
  take_blobs-Grows (suc n) pos h = Grows->>= _ _ (take_chunk-Grows pos) λ blob pos₁ h₁.
      Grows->>= _ _ (take_blobs-Grows n pos₁ h₁)
        λ blobs pos₂ h₂. yields (blob ∷ blobs) pos₂ refl refl h₂

  blobs-Grows :
      (count pos : ℕ)
      → pos ≤ length p
      → Grows
          (length p)
          (if ltb 16 count then bad else take_blobs count p pos)
          (if ltb 16 count then bad else take_blobs count (p ++ more) pos)
  blobs-Grows count pos h = elim (Bool-cases (ltb 16 count)) [
    | inl many ↦ rw many (refuses refl refl)
    | inr few ↦ rw few (take_blobs-Grows count pos h)
  ]

  scan_frame-Grows : Grows (length p) (scan_frame p) (scan_frame (p ++ more))
  unfolding scan_frame
  scan_frame-Grows = Grows->>= _ _ (take_chunk-Grows 0) λ wire pos _.
      Grows->>= _ _ (get_u32-Grows pos) λ count pos₁ h₁.
        Grows->>= _ _ (blobs-Grows count pos₁ h₁)
          λ blobs pos₂ h₂. yields (record { wire_bytes = wire; fd_blobs = blobs }) pos₂ refl refl h₂

-- An answer, with more bytes behind the buffer that is left.
abbrev pub extended : {A : Type 0} → FrameResult A → List ℕ → FrameResult A
extended need_more_data more = need_more_data
extended (ok a rest) more = ok a (rest ++ more)
extended malformed more = malformed

-- Once `take_link_frame` has an answer other than to wait, the bytes that arrive later do not change
-- it: the same frame is taken, or the stream is still malformed.
pub take_link_frame-append :
    (buffer more : List ℕ)
    → take_link_frame buffer ≢ need_more_data
    → take_link_frame (buffer ++ more) ≡ extended (take_link_frame buffer) more
unfolding take_link_frame
take_link_frame-append buffer more h = settled (scan_frame-Grows buffer more)
  where
    settled :
        Grows (length buffer) (scan_frame buffer) (scan_frame (buffer ++ more))
        → take_link_frame (buffer ++ more) ≡ extended (take_link_frame buffer) more
    settled (waits e) = absurd (h (ap (finish buffer) e))
    settled (refuses e e') = rw (e, e')
    settled (yields f pos e e' le) = rw (e, e') (ap (ok f) (drop-append_left pos buffer more le))

-- While a frame that the receiving side accepts has arrived in part only, `take_link_frame` waits: it
-- neither gives up nor takes anything.
take_link_frame_waits :
    (f : LinkFrame) (front back : List ℕ) (x : ℕ)
    → IsSendable f
    → write_link_frame f [] ≡ front ++ (x ∷ back)
    → take_link_frame front ≡ need_more_data
take_link_frame_waits f front back x s e = decide (take_link_frame front) refl
  where
    whole : take_link_frame (front ++ (x ∷ back)) ≡ ok f []
    whole = rw (append-nil, e) at (take_link_frame-write_link_frame f [] s)

    grown :
        take_link_frame front ≢ need_more_data
        → take_link_frame (front ++ (x ∷ back)) ≡ extended (take_link_frame front) (x ∷ back)
    grown = take_link_frame-append front (x ∷ back)

    not_nil : (r : List ℕ) → r ++ (x ∷ back) ≢ []
    not_nil [] h = cc
    not_nil (y ∷ r) h = cc

    decide :
        (r : FrameResult LinkFrame)
        → take_link_frame front ≡ r
        → take_link_frame front ≡ need_more_data
    decide need_more_data h = h
    decide (ok g r) h =
        absurd (not_nil r (cc (whole, grown (λ w. cc), ap (λ t. extended t (x ∷ back)) h)))
    decide malformed h = cc (whole, grown (λ w. cc), ap (λ t. extended t (x ∷ back)) h)
