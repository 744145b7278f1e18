-- ===== src/Wayland/Link.antt =====
-- wayland/wire.cpp: frames on the TCP link between the two proxies, and raw messages on the
-- application's socket, taken off the front of a stream buffer.
pub mod RoundTrip
pub mod Streaming
pub mod Shorter
pub mod Messages
use vulkan_remote.Base.{
  ℕ, zero, suc, ◌+◌, ◌*◌, ◌/◌, ◌%◌, ◌^◌, Bool, true, false, ◌||◌, Option, none, some, List, [], ◌∷◌,
  ◌++◌,
}
use vulkan_remote.Base.Tests.{ltb, if◌then◌else◌}
use vulkan_remote.Base.Lists.{length, take, drop}
use vulkan_remote.Base.Bytes.{le_bytes, of_le}
use vulkan_remote.Wayland.Decode.{read_u32}

pub record LinkFrame : Type 0 where
  pub wire_bytes : List ℕ
  pub fd_blobs : List (List ℕ)

-- `ok` carries what was taken and the buffer that is left; otherwise the buffer is untouched.
pub data FrameResult {ℓ} (A : Type ℓ) : Type ℓ where
  need_more_data : FrameResult A
  ok : A → List ℕ → FrameResult A
  malformed : FrameResult A

abbrev pub max_frame_bytes : ℕ
max_frame_bytes = 16 * 1024 * 1024

-- A chunk with its length in front.
abbrev pub chunk_bytes : List ℕ → List ℕ
chunk_bytes b = le_bytes 4 (length b % 2 ^ 32) ++ b

abbrev pub blobs_bytes : List (List ℕ) → List ℕ
blobs_bytes [] = []
blobs_bytes (b ∷ bs) = chunk_bytes b ++ blobs_bytes bs

-- `out` is appended to.
unfoldable pub write_link_frame : LinkFrame → List ℕ → List ℕ
write_link_frame frame out =
    out
    ++ (chunk_bytes frame.wire_bytes
        ++ (le_bytes 4 (length frame.fd_blobs % 2 ^ 32) ++ blobs_bytes frame.fd_blobs))

-- A part of a frame: its value and the position behind it.
pub data Scan {ℓ} (A : Type ℓ) : Type ℓ where
  short : Scan A
  bad : Scan A
  got : A → ℕ → Scan A

infixl 5 ◌>>=◌
abbrev pub ◌>>=◌ {ℓ κ} : {A : Type ℓ} {B : Type κ} → Scan A → (A × ℕ → Scan B) → Scan B
short >>= f = short
bad >>= f = bad
got a pos >>= f = f (a, pos)

abbrev pub or_short : Option (ℕ × ℕ) → Scan ℕ
or_short none = short
or_short (some (v, pos)) = got v pos

-- `get_u32`, whose body is that of `read_u32`; a false result asks for more data.
unfoldable pub get_u32 : List ℕ → ℕ → Scan ℕ
unfolding read_u32
get_u32 p pos = or_short (read_u32 p pos)

abbrev pub chunk_at : List ℕ → ℕ → ℕ → Scan (List ℕ)
chunk_at p len pos =
    if ltb max_frame_bytes len
    then bad
    else if ltb (length p) (pos + len)
    then short
    else got (take len (drop pos p)) (pos + len)

-- A length that is checked against the cap, and that many bytes.
unfoldable pub take_chunk : List ℕ → ℕ → Scan (List ℕ)
take_chunk p pos = do (len, pos) ← get_u32 p pos; chunk_at p len pos

unfoldable pub take_blobs : ℕ → List ℕ → ℕ → Scan (List (List ℕ))
take_blobs zero p pos = got [] pos
take_blobs (suc n) p pos = do
  (blob, pos) ← take_chunk p pos
  (blobs, pos) ← take_blobs n p pos
  got (blob ∷ blobs) pos

unfoldable pub scan_frame : List ℕ → Scan LinkFrame
scan_frame p = do
  (wire_bytes, pos) ← take_chunk p 0
  (fd_count, pos) ← get_u32 p pos
  (blobs, pos) ← if ltb 16 fd_count then bad else take_blobs fd_count p pos
  got (record { wire_bytes = wire_bytes; fd_blobs = blobs }) pos

abbrev pub finish : List ℕ → Scan LinkFrame → FrameResult LinkFrame
finish buffer short = need_more_data
finish buffer bad = malformed
finish buffer (got frame pos) = ok frame (drop pos buffer)

unfoldable pub take_link_frame : List ℕ → FrameResult LinkFrame
unfolding scan_frame
take_link_frame buffer = finish buffer (scan_frame buffer)

unfoldable pub take_wire_message : List ℕ → FrameResult (List ℕ)
take_wire_message buffer =
    if ltb (length buffer) 8
    then need_more_data
    else let size = of_le (take 4 (drop 4 buffer)) / 2 ^ 16 in
      if ltb size 8 || ltb max_frame_bytes size
      then malformed
      else if ltb (length buffer) size
      then need_more_data
      else ok (take size buffer) (drop size buffer)
