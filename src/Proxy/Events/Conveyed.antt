-- ===== src/Proxy/Events/Conveyed.antt =====
-- wayland/proxy_server.cpp against wayland/wire.cpp: what the application's side reads of an event.
use vulkan_remote.Base.{
  ℕ, ◌%◌, ◌^◌, ◌≤◌, ◌<◌, ◌≡◌, refl, sym, ap, subst, ◌∙◌, true, Option, none, some, List, [], ◌∷◌,
  ◌++◌, arith,
}
use vulkan_remote.Base.Lists.{length, drop, All}
use vulkan_remote.Wayland.{
  ArgType, ArgSpec, MessageSpec, InterfaceSpec, DecodedArg, find_interface, find_message,
}
use vulkan_remote.Wayland.Decode.{decode_message}
use vulkan_remote.Wayland.Encode.{encode_args, encode_message}
use vulkan_remote.Wayland.RoundTrip.{Fits, FitsType, decode_message-encode_args}
use vulkan_remote.Wayland.Link.{LinkFrame, ok, max_frame_bytes, take_link_frame, write_link_frame}
use vulkan_remote.Wayland.Link.RoundTrip.{take_link_frame-write_link_frame}
use vulkan_remote.Wayland.Link.Messages.{message, encode_message_lem, length-message, drop_header}
use vulkan_remote.Proxy.{ObjectEntry}
use vulkan_remote.Proxy.Events.{
  EventArg, WaylandProxy, client_id, event_arg, id_after, with_event_object, convert_event,
  send_event, dispatch_known, generic_dispatcher,
}
use vulkan_remote.Proxy.Events.Said.{
  IsArgument, AreArguments, SaysAll, descriptors, convert_event-SaysAll,
}

id_after_fits : (t : ArgType) (next : ℕ) → next < 2 ^ 32 → id_after t next < 2 ^ 32
id_after_fits ArgType.int next h = h
id_after_fits ArgType.uint next h = h
id_after_fits ArgType.fixed next h = h
id_after_fits ArgType.string next h = h
id_after_fits ArgType.object next h = h
id_after_fits ArgType.new_id next h = omega arith
id_after_fits ArgType.array next h = h
id_after_fits ArgType.fd next h = h

module _ (user_data version_of : ℕ → ℕ) (contents : ℕ → List ℕ) where
  client_id_fits : (p : ℕ) → client_id user_data version_of contents p < 2 ^ 32
  client_id_fits p = ground arith

  event_arg-FitsType :
      (t : ArgType) (interface : Option (List ℕ)) (v : EventArg) (next : ℕ)
      → IsArgument t interface v
      → next < 2 ^ 32
      → FitsType t interface (event_arg user_data version_of contents t interface v next)
  event_arg-FitsType ArgType.int interface v next h k = (refl, h)
  event_arg-FitsType ArgType.uint interface v next h k = (refl, h)
  event_arg-FitsType ArgType.fixed interface v next h k = (refl, h)
  event_arg-FitsType ArgType.string interface v next h k = (refl, h)
  event_arg-FitsType ArgType.object interface v next h k = (refl, client_id_fits v.o)
  event_arg-FitsType ArgType.new_id none v next h k = absurd h
  event_arg-FitsType ArgType.new_id (some name) v next h k = (refl, k)
  event_arg-FitsType ArgType.array interface v next h k = (refl, h)
  event_arg-FitsType ArgType.fd interface v next h k = refl

  convert_event-Fits :
      (specs : List ArgSpec) (values : List EventArg) (next : ℕ) (objects : List (ℕ × ObjectEntry))
      → AreArguments specs values
      → next < 2 ^ 32
      → Fits specs (convert_event user_data version_of contents specs values next objects).args
  unfolding convert_event
  convert_event-Fits [] [] next objects h k = tt
  convert_event-Fits [] (v ∷ values) next objects h k = absurd h
  convert_event-Fits (s ∷ specs) [] next objects h k = absurd h
  convert_event-Fits (s ∷ specs) (v ∷ values) next objects (h, hs) k = (
    event_arg-FitsType s.type s.interface v next h k,
    convert_event-Fits specs values (id_after s.type next)
        (with_event_object user_data version_of contents s.type s.interface v next objects) hs
        (id_after_fits s.type next k),
  )

  abbrev event_args : WaylandProxy → MessageSpec → List EventArg → List DecodedArg
  event_args w spec values =
      (convert_event user_data version_of contents spec.args values w.next_server_side_id
        w.objects).args

  -- A known event with an argument for each of its specification, encoded in less than 65528 bytes and
  -- with at most 16 descriptors of at most 16 MiB, is put behind what is still to be sent as one frame.
  -- Whatever follows on the stream, the other side takes that frame off it, with what is read of the
  -- event's descriptors, in order; and it decodes the message, which is for the object's id, to arguments
  -- that say what the event's do.
  pub generic_dispatcher-take_link_frame :
      (table : List InterfaceSpec) (w : WaylandProxy) (iface_name : List ℕ) (target opcode : ℕ)
      (values : List EventArg) (spec : MessageSpec) (more : List ℕ)
      → find_message (find_interface table iface_name) true opcode ≡ some spec
      → AreArguments spec.args values
      → w.next_server_side_id < 2 ^ 32
      → length (encode_args (event_args w spec values)) < 0xfff8
      → length (descriptors user_data version_of contents spec.args values) ≤ 16
      → All
          (λ b. length b ≤ max_frame_bytes)
          (descriptors user_data version_of contents spec.args values)
      → (args : List DecodedArg) × (frame : LinkFrame) × SaysAll user_data version_of contents
          spec.args values w.next_server_side_id args
        × (frame.fd_blobs ≡ descriptors user_data version_of contents spec.args values)
        × (encode_message (user_data target % 2 ^ 32) (opcode % 2 ^ 16) args
            ≡ some frame.wire_bytes)
        × (decode_message spec (drop 8 frame.wire_bytes) ≡ some args)
        × ((generic_dispatcher user_data version_of contents table w iface_name target opcode
              values).tx_buf
            ≡ w.tx_buf ++ write_link_frame frame [])
        × (take_link_frame (write_link_frame frame [] ++ more) ≡ ok frame more)
  unfolding generic_dispatcher
  generic_dispatcher-take_link_frame table w iface_name target opcode values spec more known h k
        small few blobs_fit =
      let c =
        convert_event user_data version_of contents spec.args values w.next_server_side_id
          w.objects in
      let id = user_data target % 2 ^ 32 in
      let (says, blobs) =
        convert_event-SaysAll user_data version_of contents spec.args values w.next_server_side_id
          w.objects h in
      let encoded = encode_message_lem id (opcode % 2 ^ 16) c.args (omega (arith, small)) in
      let frame : LinkFrame = record {
        wire_bytes = message id (opcode % 2 ^ 16) c.args;
        fd_blobs = c.fd_blobs;
      } in
      (
        c.args,
        frame,
        says,
        blobs,
        encoded,
        ap (decode_message spec) (drop_header id (opcode % 2 ^ 16) c.args)
            ∙ decode_message-encode_args spec c.args
                (convert_event-Fits spec.args values w.next_server_side_id w.objects h k),
        ap (λ (x : WaylandProxy). x.tx_buf)
            (ap (dispatch_known user_data version_of contents w iface_name target opcode values)
                known
              ∙ ap (send_event user_data version_of contents w iface_name spec c) encoded),
        take_link_frame-write_link_frame frame more (record {
          wire_fits = omega (arith, small, length-message id (opcode % 2 ^ 16) c.args);
          few = subst (λ b. length b ≤ 16) (sym blobs) few;
          blobs_fit = subst (All (λ b. length b ≤ max_frame_bytes)) (sym blobs) blobs_fit;
        }),
      )
