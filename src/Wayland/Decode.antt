-- ===== src/Wayland/Decode.antt =====
-- wayland/wire.cpp: decoding the body of one message. Positions do not wrap: `size_t` has 64 bits,
-- and the lengths that are added to one have 32.
use vulkan_remote.Base.{◌%◌, ◌^◌, ℕ, ◌+◌, ◌*◌, ◌/◌, ◌||◌, Option, none, some, List, [], ◌∷◌}
use vulkan_remote.Base.Tests.{ltb, ◌==◌, if◌then◌else◌}
use vulkan_remote.Base.Options.{◌>>=◌}
use vulkan_remote.Base.Lists.{length, take, drop}
use vulkan_remote.Base.Bytes.{of_le}
use vulkan_remote.Base.Words.{of_u32}
use vulkan_remote.Wayland.{ArgType, ArgSpec, MessageSpec, DecodedArg, new_arg}

-- The value and the new position; `none` is a false result.
unfoldable pub read_u32 : List ℕ → ℕ → Option (ℕ × ℕ)
read_u32 p pos =
    if ltb (length p) (pos + 4) then none else some (of_le (take 4 (drop pos p)), pos + 4)

-- `(blob_len + 3) & ~size_t(3)`, where the sum has 32 bits: the next multiple of 4, or 0 if it wraps.
abbrev pub padded : ℕ → ℕ
padded n = (n + 3) % 2 ^ 32 / 4 * 4

abbrev pub blob_at : List ℕ → ℕ → ℕ → Option (List ℕ × ℕ)
blob_at p blob_len pos =
    if ltb (length p) blob_len || ltb (length p) (pos + blob_len)
    then none
    else if ltb (length p) (pos + padded blob_len)
    then none
    else some (take blob_len (drop pos p), pos + padded blob_len)

unfoldable pub read_blob : List ℕ → ℕ → Option (List ℕ × ℕ)
unfolding read_u32
read_blob p pos = do (blob_len, pos) ← read_u32 p pos; blob_at p blob_len pos

-- The blob without its last byte, which has to be there and to be NUL.
unfoldable pub drop_nul : List ℕ → Option (List ℕ)
drop_nul [] = none
drop_nul (c ∷ []) = if c == 0 then some [] else none
drop_nul (c ∷ d ∷ s) = drop_nul (d ∷ s) >>= λ t. some (c ∷ t)

abbrev pub read_string : List ℕ → ℕ → Option (List ℕ × ℕ)
read_string p pos = do (blob, pos) ← read_blob p pos; s ← drop_nul blob; some (s, pos)

-- One argument; `type` and `interface` are those of its specification.
unfoldable pub decode_arg : ArgType → Option (List ℕ) → List ℕ → ℕ → Option (DecodedArg × ℕ)
decode_arg ArgType.int interface p pos = do
  (raw, pos) ← read_u32 p pos
  some (record (new_arg ArgType.int) { i32 = of_u32 raw }, pos)
decode_arg ArgType.fixed interface p pos = do
  (raw, pos) ← read_u32 p pos
  some (record (new_arg ArgType.fixed) { i32 = of_u32 raw }, pos)
decode_arg ArgType.uint interface p pos = do
  (v, pos) ← read_u32 p pos
  some (record (new_arg ArgType.uint) { u32 = v }, pos)
decode_arg ArgType.object interface p pos = do
  (v, pos) ← read_u32 p pos
  some (record (new_arg ArgType.object) { u32 = v }, pos)
decode_arg ArgType.string interface p pos = do
  (s, pos) ← read_string p pos
  some (record (new_arg ArgType.string) { str = s }, pos)
decode_arg ArgType.array interface p pos = do
  (blob, pos) ← read_blob p pos
  some (record (new_arg ArgType.array) { array = blob }, pos)
decode_arg ArgType.new_id none p pos = do
  (s, pos) ← read_string p pos
  (version, pos) ← read_u32 p pos
  (id, pos) ← read_u32 p pos
  some (record (new_arg ArgType.new_id) { str = s; new_id_version = version; u32 = id }, pos)
decode_arg ArgType.new_id (some name) p pos = do
  (id, pos) ← read_u32 p pos
  some (record (new_arg ArgType.new_id) { str = name; u32 = id }, pos)
decode_arg ArgType.fd interface p pos = some (new_arg ArgType.fd, pos)

unfoldable pub decode_args : List ArgSpec → List ℕ → ℕ → Option (List DecodedArg × ℕ)
decode_args [] p pos = some ([], pos)
decode_args (spec ∷ specs) p pos = do
  (arg, pos) ← decode_arg spec.type spec.interface p pos
  (args, pos) ← decode_args specs p pos
  some (arg ∷ args, pos)

-- The arguments that a true result leaves in `out->args`.
unfoldable pub decode_message : MessageSpec → List ℕ → Option (List DecodedArg)
unfolding decode_args
decode_message msg payload = do
  (args, pos) ← decode_args msg.args payload 0
  if pos == length payload then some args else none
