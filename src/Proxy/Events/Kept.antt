-- ===== src/Proxy/Events/Kept.antt =====
-- wayland/proxy_server.cpp: what `generic_dispatcher` leaves in the table of objects.
use vulkan_remote.Base.{
  ℕ, ◌%◌, ◌^◌, ◌≡◌, Bool, true, false, ◌&&◌, Option, none, some, List, [], ◌∷◌,
}
use vulkan_remote.Base.Tests.{if◌then◌else◌}
use vulkan_remote.Wayland.{
  ArgType, ArgSpec, MessageSpec, InterfaceSpec, DecodedArg, find_interface, find_message, str_eq,
}
use vulkan_remote.Wayland.Encode.{encode_message}
use vulkan_remote.Wayland.Objects.{wl_display, delete_id}
use vulkan_remote.Proxy.{ObjectEntry}
use vulkan_remote.Proxy.Live.{IsLive, revived}
use vulkan_remote.Proxy.Replays.{inserted-IsLive, erase-IsLive}
use vulkan_remote.Proxy.Events.{
  EventArg, WaylandProxy, Converted, bytes_at, id_after, with_event_object, convert_event,
  erase_first, send_event, dispatch_known, generic_dispatcher,
}

-- What is live after an argument: a new object brings in its proxy.
abbrev brought : ArgType → EventArg → (ℕ → Bool) → ℕ → Bool
brought ArgType.new_id v live = revived v.o live
brought _ v live = live

abbrev pub after_event : List ArgSpec → List EventArg → (ℕ → Bool) → ℕ → Bool
after_event [] values live = live
after_event (s ∷ specs) [] live = live
after_event (s ∷ specs) (v ∷ values) live = after_event specs values (brought s.type v live)

abbrev IsNew : ArgType → EventArg → (ℕ → Bool) → Type 0
IsNew ArgType.new_id v live = live v.o ≡ false
IsNew _ v live = Unit

-- libwayland has made a new proxy for each new object of the event.
abbrev pub AreNew : List ArgSpec → List EventArg → (ℕ → Bool) → Type 0
AreNew [] values live = Unit
AreNew (s ∷ specs) [] live = Unit
AreNew (s ∷ specs) (v ∷ values) live =
    IsNew s.type v live × AreNew specs values (brought s.type v live)

-- The arguments that an event has; none if it is unknown.
abbrev pub args_of : Option MessageSpec → List ArgSpec
args_of none = []
args_of (some spec) = spec.args

module _ (user_data version_of : ℕ → ℕ) (contents : ℕ → List ℕ) where
  with_event_object-IsLive :
      (t : ArgType) (interface : Option (List ℕ)) (v : EventArg) (next : ℕ) (live : ℕ → Bool)
      (objects : List (ℕ × ObjectEntry))
      → IsNew t v live
      → IsLive live objects
      → IsLive
          (brought t v live)
          (with_event_object user_data version_of contents t interface v next objects)
  with_event_object-IsLive ArgType.int interface v next live objects h ok = ok
  with_event_object-IsLive ArgType.uint interface v next live objects h ok = ok
  with_event_object-IsLive ArgType.fixed interface v next live objects h ok = ok
  with_event_object-IsLive ArgType.string interface v next live objects h ok = ok
  with_event_object-IsLive ArgType.object interface v next live objects h ok = ok
  with_event_object-IsLive ArgType.new_id interface v next live objects h ok =
      inserted-IsLive live next
        (record { interface = bytes_at interface; version = version_of v.o; proxy = v.o }) objects h
        ok
  with_event_object-IsLive ArgType.array interface v next live objects h ok = ok
  with_event_object-IsLive ArgType.fd interface v next live objects h ok = ok

  convert_event-IsLive :
      (specs : List ArgSpec) (values : List EventArg) (next : ℕ) (live : ℕ → Bool)
      (objects : List (ℕ × ObjectEntry))
      → AreNew specs values live
      → IsLive live objects
      → IsLive
          (after_event specs values live)
          (convert_event user_data version_of contents specs values next objects).objects
  unfolding convert_event
  convert_event-IsLive [] values next live objects h ok = ok
  convert_event-IsLive (s ∷ specs) [] next live objects h ok = ok
  convert_event-IsLive (s ∷ specs) (v ∷ values) next live objects (h, hs) ok =
      convert_event-IsLive specs values (id_after s.type next) (brought s.type v live)
        (with_event_object user_data version_of contents s.type s.interface v next objects) hs
        (with_event_object-IsLive s.type s.interface v next live objects h ok)

  erase_first-IsLive :
      (b : Bool) (live : ℕ → Bool) (args : List DecodedArg) (objects : List (ℕ × ObjectEntry))
      → IsLive live objects
      → IsLive live (if b then erase_first user_data version_of contents args objects else objects)
  erase_first-IsLive true live [] objects ok = ok
  erase_first-IsLive true live (arg ∷ args) objects ok = erase-IsLive live arg.u32 objects ok
  erase_first-IsLive false live args objects ok = ok

  send_event-IsLive :
      (w : WaylandProxy) (iface_name : List ℕ) (spec : MessageSpec) (c : Converted)
      (encoded : Option (List ℕ)) (live : ℕ → Bool)
      → IsLive live c.objects
      → IsLive live (send_event user_data version_of contents w iface_name spec c encoded).objects
  send_event-IsLive w iface_name spec c none live ok = ok
  send_event-IsLive w iface_name spec c (some bytes) live ok =
      erase_first-IsLive (str_eq iface_name wl_display && str_eq spec.name delete_id) live c.args
        c.objects ok

  dispatch_known-IsLive :
      (w : WaylandProxy) (iface_name : List ℕ) (target opcode : ℕ) (values : List EventArg)
      (spec : Option MessageSpec) (live : ℕ → Bool)
      → AreNew (args_of spec) values live
      → IsLive live w.objects
      → IsLive
          (after_event (args_of spec) values live)
          (dispatch_known user_data version_of contents w iface_name target opcode values
            spec).objects
  dispatch_known-IsLive w iface_name target opcode values none live h ok = ok
  dispatch_known-IsLive w iface_name target opcode values (some spec) live h ok =
      let c =
        convert_event user_data version_of contents spec.args values w.next_server_side_id
          w.objects in
      send_event-IsLive w iface_name spec c
        (encode_message (user_data target % 2 ^ 32) (opcode % 2 ^ 16) c.args)
        (after_event spec.args values live)
        (convert_event-IsLive spec.args values w.next_server_side_id live w.objects h ok)

  -- Whatever event arrives, known or not, encoded or too long, the table that `generic_dispatcher`
  -- leaves is live with the proxies that the event brings in, if they are new.
  pub generic_dispatcher-IsLive :
      (table : List InterfaceSpec) (w : WaylandProxy) (iface_name : List ℕ) (target opcode : ℕ)
      (values : List EventArg) (live : ℕ → Bool)
      → let specs = args_of (find_message (find_interface table iface_name) true opcode) in
        AreNew specs values live
        → IsLive live w.objects
        → IsLive
            (after_event specs values live)
            (generic_dispatcher user_data version_of contents table w iface_name target opcode
              values).objects
  unfolding generic_dispatcher
  generic_dispatcher-IsLive table w iface_name target opcode values live h ok =
      dispatch_known-IsLive w iface_name target opcode values
        (find_message (find_interface table iface_name) true opcode) live h ok
