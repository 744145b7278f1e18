-- ===== src/Framing/Bounds.antt =====
-- common/wire.hpp: the reader never reads past its buffer, and stays failed once it failed.
use vulkan_remote.Base.{ℕ, ◌+◌, ◌≤◌, ◌≡◌, true, some, List, arith}
use vulkan_remote.Base.Lists.{length, take, drop, length-take, length-drop}
use vulkan_remote.Base.Bytes.{of_le}
use vulkan_remote.Framing.{Reader, read, get_bytes, remaining}

-- The position lies in the buffer, and the size is that of the bytes behind the pointer.
pub record InBuffer (r : Reader) : Type 0 where
  pub within : r.m_pos ≤ r.m_size
  pub backed : r.m_size ≤ length r.m_data

-- What one read may change: it moves on inside the same buffer, and no failure is forgotten.
pub record Advances (r s : Reader) : Type 0 where
  pub same_data : s.m_data ≡ r.m_data
  pub same_size : s.m_size ≡ r.m_size
  pub forward : r.m_pos ≤ s.m_pos
  pub sticky : r.m_failed ≡ true → (s.m_failed ≡ true) × (s.m_pos ≡ r.m_pos)

read-InBuffer : (w : ℕ) (r : Reader) → InBuffer r → InBuffer (read w r).1
unfolding read
read-InBuffer w r v = ground arith

read-Advances : (w : ℕ) (r : Reader) → Advances r (read w r).1
unfolding read
read-Advances w r = ground arith

get_bytes-InBuffer : (max_size : ℕ) (r : Reader) → InBuffer r → InBuffer (get_bytes max_size r).1
unfolding get_bytes
get_bytes-InBuffer max_size r v = ground arith

get_bytes-Advances : (max_size : ℕ) (r : Reader) → Advances r (get_bytes max_size r).1
unfolding get_bytes
get_bytes-Advances max_size r = ground arith

-- A blob that `bytes` hands out has at most `max_size` bytes, and they were all unread before.
get_bytes-length :
    (max_size : ℕ) (r : Reader) (blob : List ℕ)
    → InBuffer r
    → (get_bytes max_size r).0 ≡ some blob
    → (length blob ≤ max_size)
      × (length blob + 4 + remaining (get_bytes max_size r).1 ≡ remaining r)
unfolding get_bytes remaining
get_bytes-length max_size r blob v h =
    let size = of_le (take 4 (drop r.m_pos r.m_data)) in
    ground
      (arith, length-take size (drop (r.m_pos + 4) r.m_data), length-drop (r.m_pos + 4) r.m_data)
