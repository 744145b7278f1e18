-- ===== src/Wayland/Encode.antt =====
-- wayland/wire.cpp: serialising a message.
use Prim.Native.Nat.{bit_or}
use vulkan_remote.Base.{
  ◌/◌, ℕ, ◌+◌, ◌-◌, ◌*◌, ◌%◌, ◌^◌, Bool, true, false, not, ◌&&◌, Option, none, some, List, [], ◌∷◌,
  ◌++◌,
}
use vulkan_remote.Base.Tests.{ltb, ◌==◌, if◌then◌else◌}
use vulkan_remote.Base.Lists.{length, replicate}
use vulkan_remote.Base.Bytes.{le_bytes}
use vulkan_remote.Base.Words.{to_u32}
use vulkan_remote.Wayland.{ArgType, DecodedArg}

-- `(len + 3) & ~size_t(3)`, of a `size_t`.
abbrev pub padded_size : ℕ → ℕ
padded_size n = (n + 3) / 4 * 4

abbrev pub put_blob : List ℕ → List ℕ
put_blob b =
    le_bytes 4 (length b % 2 ^ 32) ++ (b ++ replicate (padded_size (length b) - length b) 0)

abbrev pub nul_terminated : List ℕ → List ℕ
nul_terminated s = s ++ (0 ∷ [])

abbrev pub is_empty : List ℕ → Bool
is_empty [] = true
is_empty (c ∷ s) = false

abbrev pub encode_typed : ArgType → DecodedArg → List ℕ
encode_typed ArgType.int arg = le_bytes 4 (to_u32 arg.i32)
encode_typed ArgType.fixed arg = le_bytes 4 (to_u32 arg.i32)
encode_typed ArgType.uint arg = le_bytes 4 arg.u32
encode_typed ArgType.object arg = le_bytes 4 arg.u32
encode_typed ArgType.string arg = put_blob (nul_terminated arg.str)
encode_typed ArgType.array arg = put_blob arg.array
encode_typed ArgType.new_id arg =
    if not (is_empty arg.str) && not (arg.new_id_version == 0)
    then put_blob (nul_terminated arg.str) ++ (le_bytes 4 arg.new_id_version ++ le_bytes 4 arg.u32)
    else le_bytes 4 arg.u32
encode_typed ArgType.fd arg = []

-- What one argument adds to the body.
abbrev pub encode_arg : DecodedArg → List ℕ
encode_arg arg = encode_typed arg.type arg

unfoldable pub encode_args : List DecodedArg → List ℕ
encode_args [] = []
encode_args (arg ∷ args) = encode_arg arg ++ encode_args args

-- The second header word is computed in 32 bits.
unfoldable pub header2 : ℕ → ℕ → ℕ
header2 body_size opcode = bit_or ((body_size + 8) % 2 ^ 32 * 2 ^ 16 % 2 ^ 32) opcode

-- `none` is a false result.
unfoldable pub encode_message : ℕ → ℕ → List DecodedArg → Option (List ℕ)
encode_message object_id opcode args =
    let body = encode_args args in
    if ltb 0xffff (length body)
    then none
    else some (le_bytes 4 object_id ++ (le_bytes 4 (header2 (length body) opcode) ++ body))
