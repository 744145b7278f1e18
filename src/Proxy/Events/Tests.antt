-- ===== src/Proxy/Events/Tests.antt =====
-- wayland/proxy_server.cpp: concrete events, and the theorems at concrete inputs.
use vulkan_remote.Base.{◌≡◌, refl, true, false, none, some, List, [], ◌∷◌, ◌++◌, arith}
use vulkan_remote.Base.Lists.{drop}
use vulkan_remote.Base.Bytes.{le_bytes}
use vulkan_remote.Base.Text.{codes}
use vulkan_remote.Base.Words.{pos}
use vulkan_remote.Wayland.{
  ArgType, MessageSpec, InterfaceSpec, DecodedArg, find_interface, find_message,
}
use vulkan_remote.Wayland.Decode.{decode_message}
use vulkan_remote.Wayland.Encode.{encode_args, encode_message}
use vulkan_remote.Wayland.Link.{LinkFrame, ok, take_link_frame, write_link_frame}
use vulkan_remote.Proxy.Events.{EventArg, WaylandProxy, convert_event, generic_dispatcher}
use vulkan_remote.Proxy.Events.Said.{SaysAll}
use vulkan_remote.Proxy.Events.Conveyed.{generic_dispatcher-take_link_frame}

-- `wl_keyboard.keymap`, and `wl_data_device.data_offer`.
abbrev keymap : MessageSpec
keymap = record {
  name = codes "keymap";
  opcode = 0;
  args =
      record { type = ArgType.uint; interface = none }
      ∷ record { type = ArgType.fd; interface = none }
      ∷ record { type = ArgType.uint; interface = none }
      ∷ [];
  is_destructor = false;
}

abbrev data_offer : MessageSpec
data_offer = record {
  name = codes "data_offer";
  opcode = 0;
  args = record { type = ArgType.new_id; interface = some (codes "wl_data_offer") } ∷ [];
  is_destructor = false;
}

abbrev table : List InterfaceSpec
table =
    record { name = codes "wl_keyboard"; version = 5; requests = []; events = keymap ∷ [] }
    ∷ record { name = codes "wl_data_device"; version = 3; requests = []; events = data_offer ∷ [] }
    ∷ []

abbrev idle_proxy : WaylandProxy
idle_proxy = record {
  linked = true;
  rx_buf = [];
  tx_buf = 5 ∷ [];
  objects = [];
  next_server_side_id = 0xff000000;
}

abbrev nothing : EventArg
nothing = record { i = pos 0; u = 0; s = none; a = none; o = 0; h = 0 }

-- The keymap has three bytes and is read of the descriptor 9.
abbrev keymap_values : List EventArg
keymap_values = record nothing { u = 1 } ∷ record nothing { h = 9 } ∷ record nothing { u = 3 } ∷ []

generic_dispatcher-take_link_frame_example :
    (args : List DecodedArg) × (frame : LinkFrame) × SaysAll
      (λ p. 4)
      (λ p. 3)
      (λ h. 7 ∷ 8 ∷ 9 ∷ [])
      keymap.args
      keymap_values
      0xff000000
      args
    × (frame.fd_blobs ≡ (7 ∷ 8 ∷ 9 ∷ []) ∷ [])
    × (encode_message 4 0 args ≡ some frame.wire_bytes)
    × (decode_message keymap (drop 8 frame.wire_bytes) ≡ some args)
    × ((generic_dispatcher
          (λ p. 4)
          (λ p. 3)
          (λ h. 7 ∷ 8 ∷ 9 ∷ [])
          table
          idle_proxy
          (codes "wl_keyboard")
          80
          0
          keymap_values).tx_buf
        ≡ (5 ∷ []) ++ write_link_frame frame [])
    × (take_link_frame (write_link_frame frame [] ++ (2 ∷ [])) ≡ ok frame (2 ∷ []))
unfolding convert_event encode_args le_bytes find_interface find_message
generic_dispatcher-take_link_frame_example =
    generic_dispatcher-take_link_frame (λ p. 4) (λ p. 3) (λ h. 7 ∷ 8 ∷ 9 ∷ []) table idle_proxy
      (codes "wl_keyboard") 80 0 keymap_values keymap (2 ∷ []) refl
      (omega arith, (tt, (omega arith, tt))) (omega arith) (omega arith) (omega arith)
      (omega arith, tt)
