-- ===== src/Proxy/Events.antt =====
-- wayland/proxy_server.cpp: `generic_dispatcher`, which encodes an event of the compositor for the
-- application. libwayland calls it; the class, the user data and the version of its proxies, and what
-- can be read of a file descriptor, are arguments. The generated tables say which arguments there are.
pub mod Said
pub mod Conveyed
pub mod Kept
mod Tests
use vulkan_remote.Base.{
  ℕ, ◌+◌, ◌%◌, ◌^◌, Bool, true, false, ◌&&◌, Option, none, some, List, [], ◌∷◌, ◌++◌,
}
use vulkan_remote.Base.Tests.{◌==◌, if◌then◌else◌}
use vulkan_remote.Base.Maps.{insert, erase}
use vulkan_remote.Base.Words.{ℤ}
use vulkan_remote.Wayland.{
  ArgType, ArgSpec, MessageSpec, InterfaceSpec, DecodedArg, new_arg, find_interface, find_message,
  str_eq,
}
use vulkan_remote.Wayland.Encode.{encode_message}
use vulkan_remote.Wayland.Link.{write_link_frame}
use vulkan_remote.Wayland.Objects.{wl_display, delete_id}
use vulkan_remote.Proxy.{ObjectEntry}

-- The members of a `wl_argument` of an event; the null pointers are `none` and 0.
pub record EventArg : Type 0 where
  pub i : ℤ
  pub u : ℕ
  pub s : Option (List ℕ)
  pub a : Option (List ℕ)
  pub o : ℕ
  pub h : ℕ

-- The members of the proxy server that a request or an event changes.
pub record WaylandProxy : Type 0 where
  pub linked : Bool
  pub rx_buf : List ℕ
  pub tx_buf : List ℕ
  pub objects : List (ℕ × ObjectEntry)
  pub next_server_side_id : ℕ

abbrev pub drop_link : WaylandProxy → WaylandProxy
drop_link w = record w { linked = false; rx_buf = []; tx_buf = [] }

-- What the loop over the arguments comes to.
pub record Converted : Type 0 where
  pub args : List DecodedArg
  pub fd_blobs : List (List ℕ)
  pub objects : List (ℕ × ObjectEntry)
  pub next_server_side_id : ℕ

abbrev pub bytes_at : Option (List ℕ) → List ℕ
bytes_at none = []
bytes_at (some s) = s

abbrev pub id_after : ArgType → ℕ → ℕ
id_after ArgType.new_id next = (next + 1) % 2 ^ 32
id_after _ next = next

module _ (user_data version_of : ℕ → ℕ) (contents : ℕ → List ℕ) where
  abbrev pub client_id : ℕ → ℕ
  client_id p = if p == 0 then 0 else user_data p % 2 ^ 32

  abbrev pub event_arg : ArgType → Option (List ℕ) → EventArg → ℕ → DecodedArg
  event_arg ArgType.int interface v next = record (new_arg ArgType.int) { i32 = v.i }
  event_arg ArgType.fixed interface v next = record (new_arg ArgType.fixed) { i32 = v.i }
  event_arg ArgType.uint interface v next = record (new_arg ArgType.uint) { u32 = v.u }
  event_arg ArgType.string interface v next = record (new_arg ArgType.string) { str = bytes_at v.s }
  event_arg ArgType.array interface v next = record (new_arg ArgType.array) { array = bytes_at v.a }
  event_arg ArgType.object interface v next = record (new_arg ArgType.object) {
    u32 = client_id v.o;
  }
  event_arg ArgType.new_id interface v next = record (new_arg ArgType.new_id) {
    str = bytes_at interface;
    u32 = next;
  }
  event_arg ArgType.fd interface v next = new_arg ArgType.fd

  abbrev pub event_blobs : ArgType → EventArg → List (List ℕ)
  event_blobs ArgType.fd v = contents v.h ∷ []
  event_blobs _ v = []

  -- The entry of an object that the event creates.
  abbrev pub with_event_object :
      ArgType → Option (List ℕ) → EventArg → ℕ → List (ℕ × ObjectEntry) → List (ℕ × ObjectEntry)
  with_event_object ArgType.new_id interface v next objects =
      insert next (record { interface = bytes_at interface; version = version_of v.o; proxy = v.o })
        objects
  with_event_object _ interface v next objects = objects

  -- The loop over the arguments. An event has one for each that its specification has.
  unfoldable pub convert_event :
      List ArgSpec → List EventArg → ℕ → List (ℕ × ObjectEntry) → Converted
  unfolding insert
  convert_event [] values next objects = record {
    args = [];
    fd_blobs = [];
    objects = objects;
    next_server_side_id = next;
  }
  convert_event (s ∷ specs) [] next objects = record {
    args = [];
    fd_blobs = [];
    objects = objects;
    next_server_side_id = next;
  }
  convert_event (s ∷ specs) (v ∷ values) next objects =
      let rest =
        convert_event specs values (id_after s.type next)
          (with_event_object s.type s.interface v next objects) in
      record rest {
        args = event_arg s.type s.interface v next ∷ rest.args;
        fd_blobs = event_blobs s.type v ++ rest.fd_blobs;
      }

  abbrev pub erase_first : List DecodedArg → List (ℕ × ObjectEntry) → List (ℕ × ObjectEntry)
  erase_first [] objects = objects
  erase_first (arg ∷ args) objects = erase arg.u32 objects

  -- The event once it is encoded, or could not be.
  abbrev pub send_event :
      WaylandProxy → List ℕ → MessageSpec → Converted → Option (List ℕ) → WaylandProxy
  send_event w iface_name spec c none =
      drop_link (record w { objects = c.objects; next_server_side_id = c.next_server_side_id })
  send_event w iface_name spec c (some wire_bytes) = record w {
    objects =
        if str_eq iface_name wl_display && str_eq spec.name delete_id
        then erase_first c.args c.objects
        else c.objects;
    next_server_side_id = c.next_server_side_id;
    tx_buf = write_link_frame (record { wire_bytes = wire_bytes; fd_blobs = c.fd_blobs }) w.tx_buf;
  }

  abbrev pub dispatch_known :
      WaylandProxy → List ℕ → ℕ → ℕ → List EventArg → Option MessageSpec → WaylandProxy
  dispatch_known w iface_name target opcode values none = drop_link w
  dispatch_known w iface_name target opcode values (some spec) =
      let c = convert_event spec.args values w.next_server_side_id w.objects in
      send_event w iface_name spec c
        (encode_message (user_data target % 2 ^ 32) (opcode % 2 ^ 16) c.args)

  unfoldable pub generic_dispatcher :
      List InterfaceSpec → WaylandProxy → List ℕ → ℕ → ℕ → List EventArg → WaylandProxy
  unfolding convert_event encode_message write_link_frame erase find_interface find_message
  generic_dispatcher table w iface_name target opcode values =
      dispatch_known w iface_name target opcode values
        (find_message (find_interface table iface_name) true opcode)
