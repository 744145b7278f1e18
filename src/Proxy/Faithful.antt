-- ===== src/Proxy/Faithful.antt =====
-- wayland/proxy_server.cpp against wayland/wire.cpp: a request that was encoded for an object is
-- replayed on its proxy with the arguments that were encoded.
use vulkan_remote.Base.{ℕ, ◌≡◌, Bool, true, false, List}
use vulkan_remote.Wayland.{ArgType, DecodedArg}
use vulkan_remote.Proxy.{ObjectEntry, WlArgument, signed, unsigned, object, text, blob, reference}

-- The argument that libwayland gets for an argument of a request that creates nothing.
abbrev passed_as : List (ℕ × ObjectEntry) → ArgType → DecodedArg → WlArgument
passed_as objects ArgType.int arg = signed arg.i32
passed_as objects ArgType.fixed arg = signed arg.i32
passed_as objects ArgType.string arg = text arg.str
passed_as objects ArgType.array arg = blob arg.array
passed_as objects ArgType.object arg = object (reference objects arg.u32)
passed_as objects _ arg = unsigned arg.u32

abbrev pub passed : List (ℕ × ObjectEntry) → DecodedArg → WlArgument
passed objects arg = passed_as objects arg.type arg

-- An argument that creates no object and carries no descriptor.
abbrev is_plain : ArgType → Bool
is_plain ArgType.new_id = false
is_plain ArgType.fd = false
is_plain _ = true

abbrev pub IsPlain : DecodedArg → Type 0
IsPlain arg = is_plain arg.type ≡ true
