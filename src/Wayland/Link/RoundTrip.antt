-- ===== src/Wayland/Link/RoundTrip.antt =====
-- wayland/wire.cpp: `take_link_frame` on a buffer that begins with what `write_link_frame` wrote.
use vulkan_remote.Base.{
  ℕ, ◌+◌, ◌%◌, ◌^◌, ◌≤◌, ◌<◌, ◌≡◌, ap, ◌∙◌, subst, List, [], ◌∷◌, ◌++◌, append_assoc, arith,
}
use vulkan_remote.Base.Tests.{ltb-ge}
use vulkan_remote.Base.Lists.{length, take, drop, length-append, take-length_append, All}
use vulkan_remote.Base.Bytes.{le_bytes, length-le_bytes}
use vulkan_remote.Wayland.Positions.{At, At-skip, At-length, At-word, read_u32-At}
use vulkan_remote.Wayland.Link.{
  LinkFrame, ok, got, max_frame_bytes, chunk_bytes, blobs_bytes, write_link_frame, get_u32,
  take_chunk, take_blobs, scan_frame, finish, take_link_frame,
}

-- What the receiving side accepts: no part above 16 MiB, and at most 16 descriptors.
pub record IsSendable (f : LinkFrame) : Type 0 where
  pub wire_fits : length f.wire_bytes ≤ max_frame_bytes
  pub few : length f.fd_blobs ≤ 16
  pub blobs_fit : All (λ b. length b ≤ max_frame_bytes) f.fd_blobs

get_u32-At :
    (p : List ℕ) (pos v : ℕ) (rest : List ℕ)
    → v < 2 ^ 32
    → At p pos (le_bytes 4 v ++ rest)
    → get_u32 p pos ≡ got v (pos + 4)
unfolding get_u32
get_u32-At p pos v rest h at = rw (read_u32-At p pos v rest h at)

take_chunk-At :
    (p : List ℕ) (pos : ℕ) (b rest : List ℕ)
    → length b ≤ max_frame_bytes
    → At p pos (chunk_bytes b ++ rest)
    → take_chunk p pos ≡ got b (pos + length (chunk_bytes b))
unfolding take_chunk
take_chunk-At p pos b rest h at =
    let n = length b % 2 ^ 32 in
    let at' : At p pos (le_bytes 4 n ++ (b ++ rest)) =
      subst (At p pos) (append_assoc (le_bytes 4 n) b rest) at in
    let at'' = At-word p pos n (b ++ rest) at' in
    rw (get_u32-At p pos n (b ++ rest) (omega arith) at') (
      ground (
        arith,
        small,
        ap (λ (k : ℕ). take k (drop (pos + 4) p)) small,
        ap (take (length b)) at''.ahead,
        take-length_append b rest,
        At-length at'',
        length-append b rest,
        length-append (le_bytes 4 n) b,
        length-le_bytes 4 n,
      ))
  where
    small : length b % 2 ^ 32 ≡ length b
    small = omega arith

take_blobs-At :
    (bs : List (List ℕ)) (p : List ℕ) (pos : ℕ) (rest : List ℕ)
    → All (λ b. length b ≤ max_frame_bytes) bs
    → At p pos (blobs_bytes bs ++ rest)
    → take_blobs (length bs) p pos ≡ got bs (pos + length (blobs_bytes bs))
unfolding take_blobs
take_blobs-At [] p pos rest h at = ap (got []) (omega arith)
take_blobs-At (b ∷ bs) p pos rest (hb, hs) at =
    let c = chunk_bytes b in
    let at' = subst (At p pos) (append_assoc c (blobs_bytes bs) rest) at in
    rw
      (
        take_chunk-At p pos b (blobs_bytes bs ++ rest) hb at',
        take_blobs-At bs p (pos + length c) rest hs (At-skip c (blobs_bytes bs ++ rest) at'),
      )
      (ap (got (b ∷ bs)) (omega (arith, length-append c (blobs_bytes bs))))

scan_frame-At :
    (f : LinkFrame) (p rest : List ℕ)
    → IsSendable f
    → let wire = chunk_bytes f.wire_bytes in
      let word = le_bytes 4 (length f.fd_blobs % 2 ^ 32) in
      let blobs = blobs_bytes f.fd_blobs in
      At p 0 (wire ++ (word ++ (blobs ++ rest)))
      → (pos : ℕ) × (scan_frame p ≡ got f pos) × (drop pos p ≡ rest)
unfolding scan_frame
scan_frame-At f p rest s at₀ =
    let wire = chunk_bytes f.wire_bytes in
    let n = length f.fd_blobs in
    let blobs = blobs_bytes f.fd_blobs in
    let word = le_bytes 4 (n % 2 ^ 32) in
    let n₁ = 0 + length wire in
    let at₁ = At-skip wire (word ++ (blobs ++ rest)) at₀ in
    let at₂ = At-word p n₁ (n % 2 ^ 32) (blobs ++ rest) at₁ in
    (
      n₁ + 4 + length blobs,
      rw (
        take_chunk-At p 0 f.wire_bytes (word ++ (blobs ++ rest)) s.wire_fits at₀,
        get_u32-At p n₁ (n % 2 ^ 32) (blobs ++ rest) (omega arith) at₁,
        small,
        ltb-ge 16 n s.few,
        take_blobs-At f.fd_blobs p (n₁ + 4) rest s.blobs_fit at₂,
      ),
      (At-skip blobs rest at₂).ahead,
    )
  where
    small : length f.fd_blobs % 2 ^ 32 ≡ length f.fd_blobs
    small = omega (arith, s.few)

-- A frame that the receiving side accepts is taken off the buffer as it was written, and exactly
-- the bytes behind it are left.
pub take_link_frame-write_link_frame :
    (f : LinkFrame) (more : List ℕ)
    → IsSendable f
    → take_link_frame (write_link_frame f [] ++ more) ≡ ok f more
unfolding take_link_frame write_link_frame
take_link_frame-write_link_frame f more s =
    let wire = chunk_bytes f.wire_bytes in
    let word = le_bytes 4 (length f.fd_blobs % 2 ^ 32) in
    let blobs = blobs_bytes f.fd_blobs in
    let (pos, e, rest) = scan_frame-At f ((wire ++ (word ++ blobs)) ++ more) more s (record {
      within = omega arith;
      ahead =
          append_assoc wire (word ++ blobs) more ∙ ap (◌++◌ wire) (append_assoc word blobs more);
    }) in
    ap (finish _) e ∙ ap (ok f) rest
