-- ===== src/Wayland/Tests.antt =====
-- wayland/wire.cpp: concrete runs, and the theorems at concrete inputs.
use vulkan_remote.Base.{ℕ, ◌≡◌, refl, false, none, some, List, [], ◌∷◌, ◌++◌, arith}
use vulkan_remote.Base.Lists.{length, drop, replicate, length-append, length-replicate}
use vulkan_remote.Base.Bytes.{le_bytes, of_le}
use vulkan_remote.Base.Text.{codes}
use vulkan_remote.Wayland.{ArgType, MessageSpec, DecodedArg, DecodedMessage, new_arg}
use vulkan_remote.Wayland.Decode.{decode_message}
use vulkan_remote.Wayland.Encode.{encode_args, encode_message, put_blob}
use vulkan_remote.Wayland.Positions.{length-put_blob}
use vulkan_remote.Wayland.Objects.{delete_id}
use vulkan_remote.Wayland.Link.{
  LinkFrame, ok, malformed, write_link_frame, take_link_frame, take_wire_message, take_chunk,
  get_u32,
}
use vulkan_remote.Wayland.Link.RoundTrip.{take_link_frame-write_link_frame}
use vulkan_remote.Wayland.Link.Streaming.{take_link_frame-append}
use vulkan_remote.Wayland.Link.Messages.{take_wire_message-encode_message, encode_message_wraps}

-- `wl_registry.bind`, and a request with an integer and a string.
abbrev bind : MessageSpec
bind = record {
  name = codes "bind";
  opcode = 0;
  args =
      record { type = ArgType.uint; interface = none }
      ∷ record { type = ArgType.new_id; interface = none }
      ∷ [];
  is_destructor = false;
}

abbrev bound : DecodedArg
bound = record (new_arg ArgType.new_id) { str = codes "wl_seat"; new_id_version = 5; u32 = 9 }

abbrev bind_args : List DecodedArg
bind_args = record (new_arg ArgType.uint) { u32 = 3 } ∷ bound ∷ []

take_wire_message-encode_message_example :
    (whole : List ℕ) × (encode_message 2 0 bind_args ≡ some whole)
    × (take_wire_message (whole ++ (1 ∷ [])) ≡ ok whole (1 ∷ []))
    × (decode_message bind (drop 8 whole) ≡ some bind_args)
unfolding encode_args le_bytes
take_wire_message-encode_message_example =
    take_wire_message-encode_message bind 2 0 bind_args (1 ∷ []) (omega arith) (omega arith) (
      (refl, omega arith),
      ((refl, omega arith, omega arith, omega arith, omega arith, omega arith), tt),
    )

long_bytes : List ℕ
long_bytes = replicate 65524 0

abbrev long_array : List DecodedArg
long_array = record (new_arg ArgType.array) { array = long_bytes } ∷ []

length-long_array : length (encode_args long_array) ≡ 65528
unfolding encode_args long_bytes
length-long_array = omega (
  arith,
  length-append (put_blob long_bytes) [],
  length-put_blob long_bytes,
  length-replicate {A = ℕ} 65524 0,
)

encode_message_wraps_example :
    (whole : List ℕ) × (encode_message 2 0 long_array ≡ some whole)
    × (take_wire_message (whole ++ []) ≡ malformed)
encode_message_wraps_example =
    encode_message_wraps 2 0 long_array [] (omega arith) (omega (arith, length-long_array))
      (omega (arith, length-long_array))

abbrev frame : LinkFrame
frame = record { wire_bytes = 1 ∷ 2 ∷ []; fd_blobs = (7 ∷ []) ∷ [] ∷ [] }

take_link_frame-write_link_frame_example :
    take_link_frame (write_link_frame frame [] ++ (5 ∷ [])) ≡ ok frame (5 ∷ [])
take_link_frame-write_link_frame_example =
    take_link_frame-write_link_frame frame (5 ∷ [])
      (record { wire_fits = omega arith; few = omega arith; blobs_fit = omega arith })

-- A length above the cap.
abbrev absurd_frame : List ℕ
absurd_frame = 1 ∷ 0 ∷ 0 ∷ 1 ∷ []

take_link_frame-append_example : take_link_frame (absurd_frame ++ (5 ∷ [])) ≡ malformed
unfolding take_link_frame take_chunk get_u32 of_le
take_link_frame-append_example = take_link_frame-append absurd_frame (5 ∷ []) (λ e. cc)

abbrev delete_event : MessageSpec
delete_event = record {
  name = delete_id;
  opcode = 1;
  args = record { type = ArgType.uint; interface = none } ∷ [];
  is_destructor = false;
}

abbrev delete_nine : DecodedMessage
delete_nine = record {
  object_id = 1;
  opcode = 1;
  size = 12;
  args = record (new_arg ArgType.uint) { u32 = 9 } ∷ [];
}
