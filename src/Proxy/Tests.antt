-- ===== src/Proxy/Tests.antt =====
-- wayland/proxy_server.cpp: concrete requests, and the theorems at concrete inputs.
use vulkan_remote.Base.{Bool, ℕ, ◌≡◌, refl, true, false, none, some, List, [], ◌∷◌, ◌++◌, arith}
use vulkan_remote.Base.Bytes.{of_le}
use vulkan_remote.Base.Maps.{find, insert}
use vulkan_remote.Base.Text.{codes}
use vulkan_remote.Wayland.{ArgType, MessageSpec, InterfaceSpec, DecodedArg, new_arg}
use vulkan_remote.Wayland.Decode.{decode_arg, read_u32}
use vulkan_remote.Wayland.Link.{LinkFrame, take_link_frame, take_chunk, get_u32}
use vulkan_remote.Proxy.{start_objects, Applied, ObjectEntry, handle_request_frame}
use vulkan_remote.Proxy.Live.{IsSafeCall, IsLive, revived}
use vulkan_remote.Proxy.Replays.{inserted-IsLive}
use vulkan_remote.Proxy.Kept.{IsKept, handle_request_frame-IsKept}
use vulkan_remote.Proxy.Sessions.{after_request, starts, request, Reach-IsSafeCall}
use vulkan_remote.Proxy.Frames.{
  pump_frames, Pumps, stream, Ends, pump_frames-stream, pump_frames-Ends,
}

-- `wl_compositor.create_surface`, `wl_display.sync` and `wl_data_offer.accept`.
abbrev create_surface : MessageSpec
create_surface = record {
  name = codes "create_surface";
  opcode = 0;
  args = record { type = ArgType.new_id; interface = some (codes "wl_surface") } ∷ [];
  is_destructor = false;
}

abbrev sync : MessageSpec
sync = record {
  name = codes "sync";
  opcode = 0;
  args = record { type = ArgType.new_id; interface = some (codes "wl_callback") } ∷ [];
  is_destructor = false;
}

abbrev accept : MessageSpec
accept = record {
  name = codes "accept";
  opcode = 0;
  args =
      record { type = ArgType.uint; interface = none }
      ∷ record { type = ArgType.string; interface = none }
      ∷ [];
  is_destructor = false;
}

abbrev table : List InterfaceSpec
table =
    record {
      name = codes "wl_compositor";
      version = 5;
      requests = create_surface ∷ [];
      events = [];
    }
    ∷ record { name = codes "wl_data_offer"; version = 3; requests = accept ∷ []; events = [] }
    ∷ []

abbrev display_table : List InterfaceSpec
display_table =
    record { name = codes "wl_display"; version = 1; requests = sync ∷ []; events = [] } ∷ []

abbrev compositor : ObjectEntry
compositor = record { interface = codes "wl_compositor"; version = 5; proxy = 70 }

abbrev offer : ObjectEntry
offer = record { interface = codes "wl_data_offer"; version = 3; proxy = 60 }

abbrev objects : List (ℕ × ObjectEntry)
objects = insert 3 compositor []

abbrev accept_args : List DecodedArg
accept_args =
    record (new_arg ArgType.uint) { u32 = 17 }
    ∷ record (new_arg ArgType.string) { str = codes "text" }
    ∷ []

objects-IsLive : IsLive (revived 70 (λ p. false)) objects
unfolding find
objects-IsLive =
    inserted-IsLive (λ p. false) 3 compositor [] refl
      (record {
        alive = λ id e f nz. ground (arith, f);
        apart = λ id id' e e' f f' nz same. ground (arith, f);
      })

-- The compositor creates the surface with the id 9.
abbrev create_nine : List ℕ
create_nine = 3 ∷ 0 ∷ 0 ∷ 0 ∷ 0 ∷ 0 ∷ 12 ∷ 0 ∷ 9 ∷ 0 ∷ 0 ∷ 0 ∷ []

surface :
    (handle_request_frame table (λ name. true) (λ p. 5) (λ c. 71) objects create_nine []).objects
    ≡ (9, record { interface = codes "wl_surface"; version = 5; proxy = 71 }) ∷ objects
unfolding handle_request_frame of_le decode_arg read_u32
surface = refl

handle_request_frame-IsKept_example :
    IsKept
      (λ c. 71)
      (revived 70 (λ p. false))
      objects
      (handle_request_frame table (λ name. true) (λ p. 5) (λ c. 71) objects create_nine [])
handle_request_frame-IsKept_example =
    handle_request_frame-IsKept table (λ name. true) (λ p. 5) (λ c. 71) (revived 70 (λ p. false))
      objects objects-IsLive (λ c nz. refl) create_nine []

abbrev frame : LinkFrame
frame = record { wire_bytes = create_nine; fd_blobs = [] }

pump_frames-stream_example :
    Pumps table
      (λ name. true)
      (λ p. 5)
      (λ c. 71)
      objects
      (frame ∷ frame ∷ [])
      (2 ∷ 0 ∷ [])
      (pump_frames table
        (λ name. true)
        (λ p. 5)
        (λ c. 71)
        3
        objects
        (stream (frame ∷ frame ∷ []) ++ (2 ∷ 0 ∷ [])))
unfolding take_link_frame take_chunk get_u32
pump_frames-stream_example =
    pump_frames-stream table (λ name. true) (λ p. 5) (λ c. 71) (frame ∷ frame ∷ []) (2 ∷ 0 ∷ []) 3
      objects
      (
        record { wire_fits = omega arith; few = omega arith; blobs_fit = tt },
        (record { wire_fits = omega arith; few = omega arith; blobs_fit = tt }, tt),
      )
      refl (omega arith)

pump_frames-Ends_example :
    Ends (pump_frames table (λ name. true) (λ p. 5) (λ c. 71) 3 objects (2 ∷ 0 ∷ []))
pump_frames-Ends_example =
    pump_frames-Ends table (λ name. true) (λ p. 5) (λ c. 71) 3 objects (2 ∷ 0 ∷ []) (omega arith)

-- The application asks for two callbacks, with the ids 2 and 3.
abbrev sync_two : List ℕ
sync_two = 1 ∷ 0 ∷ 0 ∷ 0 ∷ 0 ∷ 0 ∷ 12 ∷ 0 ∷ 2 ∷ 0 ∷ 0 ∷ 0 ∷ []

abbrev sync_three : List ℕ
sync_three = 1 ∷ 0 ∷ 0 ∷ 0 ∷ 0 ∷ 0 ∷ 12 ∷ 0 ∷ 3 ∷ 0 ∷ 0 ∷ 0 ∷ []

abbrev synced : Applied
synced =
    handle_request_frame display_table (λ name. true) (λ p. 1) (λ c. 71) (start_objects 70) sync_two
      []

abbrev at_start : ℕ → Bool
at_start = revived 70 (λ p. false)

Reach-IsSafeCall_example :
    IsSafeCall
      (after_request (λ c. 71) synced at_start)
      (handle_request_frame display_table
        (λ name. true)
        (λ p. 1)
        (λ c. 72)
        synced.objects
        sync_three
        []).call
unfolding handle_request_frame of_le decode_arg read_u32
Reach-IsSafeCall_example =
    Reach-IsSafeCall display_table (λ name. true) 70 (after_request (λ c. 71) synced at_start)
      synced.objects (λ p. 1) (λ c. 72) sync_three []
      (request at_start (start_objects 70) (λ p. 1) (λ c. 71) sync_two [] starts (λ c nz. refl)
        (λ e. refl))
      (λ c nz. refl)
