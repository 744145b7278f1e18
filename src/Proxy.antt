-- ===== src/Proxy.antt =====
-- wayland/proxy_server.cpp: the half of the Wayland proxy beside the compositor. It replays the requests
-- of the application that arrive on the link and sends back the events of the compositor. A `wl_proxy*`
-- is a number and 0 is the null pointer. libwayland is outside the model: which interfaces there are,
-- the version of a proxy and what a marshalled request returns are arguments. The protocol tables are
-- generated, as for Wayland.
pub mod Faithful
pub mod Live
pub mod Replays
pub mod Kept
pub mod Frames
pub mod Events
pub mod Sessions
mod Tests
use vulkan_remote.Base.{
  ℕ, zero, suc, ◌+◌, ◌/◌, ◌%◌, ◌^◌, Bool, true, false, not, ◌&&◌, ◌||◌, Option, none, some, List,
  [], ◌∷◌, ◌++◌,
}
use vulkan_remote.Base.Tests.{ltb, leb, ◌==◌, if◌then◌else◌}
use vulkan_remote.Base.Lists.{length, take, drop}
use vulkan_remote.Base.Bytes.{of_le}
use vulkan_remote.Base.Maps.{find, insert, erase}
use vulkan_remote.Base.Words.{ℤ}
use vulkan_remote.Wayland.{
  ArgType, MessageSpec, InterfaceSpec, DecodedArg, new_arg, find_interface, find_message,
  count_fd_args, str_eq,
}
use vulkan_remote.Wayland.Decode.{decode_message}
use vulkan_remote.Wayland.Encode.{encode_message}
use vulkan_remote.Wayland.Objects.{wl_display}
use vulkan_remote.Wayland.Link.{
  LinkFrame, FrameResult, need_more_data, ok, malformed, take_link_frame, write_link_frame,
}

pub record ObjectEntry : Type 0 where
  pub interface : List ℕ
  pub version : ℕ
  pub proxy : ℕ

-- The entry of the display, with which `start` begins.
abbrev pub start_objects : ℕ → List (ℕ × ObjectEntry)
start_objects display_proxy =
    (1, record { interface = wl_display; version = 1; proxy = display_proxy }) ∷ []

-- A `wl_argument`; `object` holds the proxy.
pub data WlArgument : Type 0 where
  signed : ℤ → WlArgument
  unsigned object : ℕ → WlArgument
  text blob : List ℕ → WlArgument

-- One call of wl_proxy_marshal_array_flags.
pub record Marshal : Type 0 where
  pub proxy : ℕ
  pub opcode : ℕ
  pub interface : Option (List ℕ)
  pub version : ℕ
  pub destroys : Bool
  pub args : List WlArgument

-- The object that a request creates.
pub record NewObject : Type 0 where
  pub id : ℕ
  pub interface : List ℕ
  pub version : ℕ

-- What the loop over the arguments comes to: an inert stub, or the arguments.
pub data Built : Type 0 where
  stub : NewObject → Built
  built : List WlArgument → Option NewObject → Built

abbrev pub or_new : NewObject → Option NewObject → Option NewObject
or_new n none = some n
or_new n (some later) = some later

-- More arguments in front.
abbrev pub in_front : List WlArgument → Built → Built
in_front values (stub n) = stub n
in_front values (built args new) = built (values ++ args) new

abbrev pub creating : NewObject → Built → Built
creating n (stub later) = stub later
creating n (built args new) = built args (or_new n new)

abbrev pub proxy_of : Option ObjectEntry → ℕ
proxy_of none = 0
proxy_of (some e) = e.proxy

unfoldable pub reference : List (ℕ × ObjectEntry) → ℕ → ℕ
unfolding find
reference objects id = if id == 0 then 0 else proxy_of (find id objects)

module _ (known : List ℕ → Bool) (objects : List (ℕ × ObjectEntry)) (version : ℕ) where
  abbrev pub new_object : DecodedArg → NewObject
  new_object arg = record {
    id = arg.u32;
    interface = arg.str;
    version = (if arg.new_id_version == 0 then version else arg.new_id_version);
  }

  -- The slots of a new id: a bound one has the interface and the version in front.
  abbrev pub new_id_slots : DecodedArg → List WlArgument
  new_id_slots arg =
      if arg.new_id_version == 0
      then object 0 ∷ []
      else text arg.str ∷ unsigned arg.new_id_version ∷ object 0 ∷ []

  abbrev pub add_argument : ArgType → DecodedArg → Built → Built
  add_argument ArgType.int arg rest = in_front (signed arg.i32 ∷ []) rest
  add_argument ArgType.fixed arg rest = in_front (signed arg.i32 ∷ []) rest
  add_argument ArgType.uint arg rest = in_front (unsigned arg.u32 ∷ []) rest
  add_argument ArgType.string arg rest = in_front (text arg.str ∷ []) rest
  add_argument ArgType.array arg rest = in_front (blob arg.array ∷ []) rest
  add_argument ArgType.object arg rest = in_front (object (reference objects arg.u32) ∷ []) rest
  add_argument ArgType.new_id arg rest =
      if known arg.str
      then in_front (new_id_slots arg) (creating (new_object arg) rest)
      else stub (new_object arg)
  add_argument ArgType.fd arg rest = rest

  -- The loop over the decoded arguments.
  unfoldable pub build_arguments : List DecodedArg → Built
  unfolding reference
  build_arguments [] = built [] none
  build_arguments (arg ∷ args) = add_argument arg.type arg (build_arguments args)

-- Whether the request was applied, the objects afterwards, and the call that was made.
pub record Applied : Type 0 where
  pub applied : Bool
  pub objects : List (ℕ × ObjectEntry)
  pub call : Option Marshal

abbrev pub refuse : List (ℕ × ObjectEntry) → Applied
refuse objects = record { applied = false; objects = objects; call = none }

abbrev pub is_destructor : Option MessageSpec → Bool
is_destructor none = false
is_destructor (some spec) = spec.is_destructor

abbrev pub is_none {ℓ} : {A : Type ℓ} → List A → Bool
is_none [] = true
is_none (x ∷ xs) = false

abbrev pub erase_if_destructor : Bool → ℕ → List (ℕ × ObjectEntry) → List (ℕ × ObjectEntry)
erase_if_destructor destroys id objects = if destroys then erase id objects else objects

abbrev pub with_created : Option NewObject → ℕ → List (ℕ × ObjectEntry) → List (ℕ × ObjectEntry)
with_created none result objects = objects
with_created (some n) result objects =
    insert n.id (record { interface = n.interface; version = n.version; proxy = result }) objects

abbrev pub interface_of : Option NewObject → Option (List ℕ)
interface_of none = none
interface_of (some n) = some n.interface

abbrev pub version_for : ℕ → Option NewObject → ℕ
version_for version none = version
version_for version (some n) = n.version

abbrev pub creates : Option NewObject → Bool
creates none = false
creates (some n) = true

module _ (table : List InterfaceSpec) (known : List ℕ → Bool) (version_of : ℕ → ℕ)
    (marshal : Marshal → ℕ) where
  -- The request once its arguments are built.
  abbrev pub replay : List (ℕ × ObjectEntry) → ℕ → ℕ → ObjectEntry → MessageSpec → Built → Applied
  replay objects object_id opcode entry spec (stub n) = record {
    applied = true;
    objects =
        insert n.id (record { interface = n.interface; version = n.version; proxy = 0 }) objects;
    call = none;
  }
  replay objects object_id opcode entry spec (built args new) =
      let call : Marshal = record {
        proxy = entry.proxy;
        opcode = opcode;
        interface = interface_of new;
        version = version_for (version_of entry.proxy) new;
        destroys = spec.is_destructor;
        args = args;
      } in
      if creates new && marshal call == 0
      then record { applied = false; objects = objects; call = some call }
      else record {
        applied = true;
        objects =
            erase_if_destructor spec.is_destructor object_id
              (with_created new (marshal call) objects);
        call = some call;
      }

  abbrev pub replay_decoded :
      List (ℕ × ObjectEntry)
      → ℕ
      → ℕ
      → ObjectEntry
      → MessageSpec
      → List (List ℕ)
      → Option (List DecodedArg)
      → Applied
  replay_decoded objects object_id opcode entry spec fd_blobs none = refuse objects
  replay_decoded objects object_id opcode entry spec fd_blobs (some args) =
      if not (is_none fd_blobs) || ltb 0 (count_fd_args spec)
      then refuse objects
      else replay objects object_id opcode entry spec
          (build_arguments known objects (version_of entry.proxy) args)

  abbrev pub replay_known :
      List (ℕ × ObjectEntry)
      → ℕ
      → ℕ
      → ObjectEntry
      → List ℕ
      → List (List ℕ)
      → Option MessageSpec
      → Applied
  replay_known objects object_id opcode entry payload fd_blobs none = refuse objects
  replay_known objects object_id opcode entry payload fd_blobs (some spec) =
      replay_decoded objects object_id opcode entry spec fd_blobs (decode_message spec payload)

  -- A request on an object: one without a proxy only loses its entry.
  abbrev pub replay_on :
      List (ℕ × ObjectEntry) → ℕ → ℕ → List ℕ → List (List ℕ) → Option ObjectEntry → Applied
  replay_on objects object_id opcode payload fd_blobs none = refuse objects
  replay_on objects object_id opcode payload fd_blobs (some entry) =
      let spec = find_message (find_interface table entry.interface) false opcode in
      if entry.proxy == 0
      then record {
        applied = true;
        objects = erase_if_destructor (is_destructor spec) object_id objects;
        call = none;
      }
      else replay_known objects object_id opcode entry payload fd_blobs spec

  unfoldable pub handle_request_frame : List (ℕ × ObjectEntry) → List ℕ → List (List ℕ) → Applied
  unfolding find insert erase find_interface find_message decode_message count_fd_args
      build_arguments
  handle_request_frame objects wire_bytes fd_blobs =
      let object_id = of_le (take 4 wire_bytes) in
      let header2 = of_le (take 4 (drop 4 wire_bytes)) in
      if ltb (length wire_bytes) 8 || not (header2 / 2 ^ 16 == length wire_bytes)
      then refuse objects
      else replay_on objects object_id (header2 % 2 ^ 16) (drop 8 wire_bytes) fd_blobs
          (find object_id objects)
