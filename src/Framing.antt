-- ===== src/Framing.antt =====
-- common/wire.hpp: the bounds-checked writer and reader that every message is built with.
-- A char is a number below 256; `std::vector<char>` and the pointed-to bytes are lists of them.
-- `size_t` has 64 bits, which no buffer that fits in memory exceeds, so sizes do not wrap.
pub mod Fields
pub mod RoundTrip
pub mod Bounds
pub mod Sockets
pub mod Messages
mod Tests
use vulkan_remote.Base.{
  ℕ, zero, suc, ◌+◌, ◌-◌, ◌^◌, ◌%◌, Bool, true, false, ◌||◌, Option, none, some, List, [], ◌∷◌,
  ◌++◌,
}
use vulkan_remote.Base.Tests.{ltb, ◌==◌, if◌then◌else◌}
use vulkan_remote.Base.Lists.{length, take, drop}
use vulkan_remote.Base.Bytes.{le_bytes, of_le}
use vulkan_remote.Base.Words.{ℤ, to_u32, of_u32}

pub data Status : Type 0 where
  ok unsupported_command decode_error : Status

abbrev pub status_code : Status → ℕ
status_code Status.ok = 0
status_code Status.unsupported_command = 1
status_code Status.decode_error = 2

pub record Writer : Type 0 where
  pub m_data : List ℕ

abbrev pub new_writer : Writer
new_writer = record { m_data = [] }

-- `raw` appends `size` bytes at `p`.
unfoldable pub raw : Writer → List ℕ → ℕ → Writer
raw w p size = record { m_data = w.m_data ++ take size p }

unfoldable pub put_u32 : Writer → ℕ → Writer
unfolding raw
put_u32 w v = raw w (le_bytes 4 v) 4

unfoldable pub put_u64 : Writer → ℕ → Writer
unfolding raw
put_u64 w v = raw w (le_bytes 8 v) 8

unfoldable pub put_i32 : Writer → ℤ → Writer
unfolding raw
put_i32 w v = raw w (le_bytes 4 (to_u32 v)) 4

-- A float is its bit pattern, which the code only copies.
unfoldable pub put_f32 : Writer → ℕ → Writer
unfolding raw
put_f32 w v = raw w (le_bytes 4 v) 4

unfoldable pub put_handle : Writer → ℕ → Writer
unfolding put_u64
put_handle w v = put_u64 w v

unfoldable pub put_bytes : Writer → List ℕ → ℕ → Writer
unfolding put_u32 raw
put_bytes w p size = let w' = put_u32 w (size % 2 ^ 32) in if size == 0 then w' else raw w' p size

-- The chars before the first NUL.
unfoldable pub strlen : List ℕ → ℕ
strlen [] = 0
strlen (c ∷ s) = let rest = strlen s in if c == 0 then 0 else suc rest

-- `none` is a null pointer.
unfoldable pub put_string : Writer → Option (List ℕ) → Writer
unfolding put_bytes
put_string w none = put_bytes w [] 0
put_string w (some s) = put_bytes w s (strlen s)

unfoldable pub append : Writer → Writer → Writer
append w other = record { m_data = w.m_data ++ other.m_data }

unfoldable pub clear : Writer → Writer
clear w = record { m_data = [] }

pub record Reader : Type 0 where
  pub m_data : List ℕ
  pub m_size : ℕ
  pub m_pos : ℕ
  pub m_failed : Bool

abbrev pub new_reader : List ℕ → ℕ → Reader
new_reader p size = record { m_data = p; m_size = size; m_pos = 0; m_failed = false }

abbrev pub is_ok : Reader → Bool
is_ok r = if r.m_failed then false else true

unfoldable pub remaining : Reader → ℕ
remaining r = if r.m_failed then 0 else r.m_size - r.m_pos

-- `read<T>` for a type of `w` bytes.
unfoldable pub read : ℕ → Reader → ℕ × Reader
read w r =
    if r.m_failed || ltb r.m_size (r.m_pos + w)
    then (0, record r { m_failed = true })
    else (of_le (take w (drop r.m_pos r.m_data)), record r { m_pos = r.m_pos + w })

unfoldable pub get_u32 : Reader → ℕ × Reader
unfolding read
get_u32 r = read 4 r

unfoldable pub get_u64 : Reader → ℕ × Reader
unfolding read
get_u64 r = read 8 r

unfoldable pub get_i32 : Reader → ℤ × Reader
unfolding read
get_i32 r = let (v, r') = read 4 r in (of_u32 v, r')

unfoldable pub get_f32 : Reader → ℕ × Reader
unfolding read
get_f32 r = read 4 r

unfoldable pub get_handle : Reader → ℕ × Reader
unfolding get_u64
get_handle r = get_u64 r

-- The vector on `true`, `none` on `false`.
unfoldable pub get_bytes : ℕ → Reader → Option (List ℕ) × Reader
unfolding get_u32
get_bytes max_size r =
    let (size, r') = get_u32 r in
    if r'.m_failed || (ltb max_size size || ltb (r'.m_size - r'.m_pos) size)
    then (none, record r' { m_failed = true })
    else (some (take size (drop r'.m_pos r'.m_data)), record r' { m_pos = r'.m_pos + size })

unfoldable pub get_string : Reader → Option (List ℕ) × Reader
unfolding get_bytes
get_string r = get_bytes (2 ^ 32 - 1) r
