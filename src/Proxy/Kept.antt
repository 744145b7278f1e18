-- ===== src/Proxy/Kept.antt =====
-- wayland/proxy_server.cpp: what `handle_request_frame` calls and leaves, for any bytes.
use vulkan_remote.Base.{
  ℕ, ◌/◌, ◌%◌, ◌^◌, ◌≡◌, ◌≢◌, refl, sym, ap, ◌∙◌, inl, inr, Bool, true, false, not, ◌&&◌, ◌||◌,
  Option, none, some, List, arith,
}
use vulkan_remote.Base.Tests.{ltb, ◌==◌, if◌then◌else◌}
use vulkan_remote.Base.Lists.{length, take, drop}
use vulkan_remote.Base.Bytes.{of_le}
use vulkan_remote.Base.Maps.{find, erase, find-erase}
use vulkan_remote.Wayland.{
  MessageSpec, InterfaceSpec, DecodedArg, find_interface, find_message, count_fd_args,
}
use vulkan_remote.Wayland.Decode.{decode_message}
use vulkan_remote.Proxy.{
  ObjectEntry, Marshal, NewObject, Built, stub, built, Applied, build_arguments, refuse, is_none,
  is_destructor, erase_if_destructor, with_created, creates, interface_of, version_for, replay,
  replay_decoded, replay_known, replay_on, handle_request_frame,
}
use vulkan_remote.Proxy.Live.{
  IsLive, IsSafeCall, IsSafeBuilt, opened, closed, after_call, IsFresh, build_arguments-IsSafe,
}
use vulkan_remote.Proxy.Replays.{insert-cases, stub-IsLive, inserted-IsLive, erased-IsLive}

-- The call, if there is one, passes live proxies only. A request that is refused leaves the objects
-- as they were; after any other the table is live again.
pub record IsKept (marshal : Marshal → ℕ) (live : ℕ → Bool) (objects : List (ℕ × ObjectEntry))
    (r : Applied) : Type 0 where
  pub safe : IsSafeCall live r.call
  pub refused : r.applied ≡ false → r.objects ≡ objects
  pub kept : r.applied ≡ true → IsLive (after_call marshal r.call live) r.objects

module _ (table : List InterfaceSpec) (known : List ℕ → Bool) (version_of : ℕ → ℕ)
    (marshal : Marshal → ℕ) (live : ℕ → Bool) (objects : List (ℕ × ObjectEntry))
    (ok : IsLive live objects) (fresh : IsFresh marshal live) where
  refuse-IsKept : IsKept marshal live objects (refuse objects)
  refuse-IsKept = record { safe = tt; refused = λ e. refl; kept = λ e. ground (arith, e) }

  either-IsKept :
      (b : Bool) (r s : Applied)
      → (b ≡ true → IsKept marshal live objects r)
      → (b ≡ false → IsKept marshal live objects s)
      → IsKept marshal live objects (if b then r else s)
  either-IsKept true r s h k = h refl
  either-IsKept false r s h k = k refl

  with_created-IsLive :
      (new : Option NewObject) (result : ℕ)
      → (creates new ≡ true → live result ≡ false)
      → IsLive (opened (interface_of new) result live) (with_created new result objects)
  with_created-IsLive none result h = ok
  with_created-IsLive (some n) result h =
      inserted-IsLive live n.id
        (record { interface = n.interface; version = n.version; proxy = result }) objects (h refl)
        ok

  with_created-others :
      (new : Option NewObject) (result object_id : ℕ) (entry : ObjectEntry)
      → (creates new ≡ true → live result ≡ false)
      → find object_id objects ≡ some entry
      → entry.proxy ≢ 0
      → (j : ℕ) (e : ObjectEntry) → j ≢ object_id
      → find j (with_created new result objects) ≡ some e
      → e.proxy ≢ 0
      → e.proxy ≢ entry.proxy
  with_created-others none result object_id entry h found nz j e other f ez same =
      other (ok.apart j object_id e entry f found ez same)
  with_created-others (some n) result object_id entry h found nz j e other f ez same =
      elim (insert-cases j n.id
        (record { interface = n.interface; version = n.version; proxy = result }) e objects f) [
          | inl (_, new) ↦
              let here : result ≡ entry.proxy = sym (ap (λ x. x.proxy) new) ∙ same in
              ground (arith, ok.alive object_id entry found nz, ap live (sym here) ∙ h refl)
          | inr (_, g) ↦ other (ok.apart j object_id e entry g found ez same)
        ]

  closed-IsLive :
      (destroys : Bool) (new : Option NewObject) (result object_id : ℕ) (entry : ObjectEntry)
      → (creates new ≡ true → live result ≡ false)
      → find object_id objects ≡ some entry
      → entry.proxy ≢ 0
      → IsLive
          (closed destroys entry.proxy (opened (interface_of new) result live))
          (erase_if_destructor destroys object_id (with_created new result objects))
  closed-IsLive true new result object_id entry h found nz =
      erased-IsLive (opened (interface_of new) result live) object_id entry.proxy
        (with_created new result objects)
        (with_created-others new result object_id entry h found nz)
        (with_created-IsLive new result h)
  closed-IsLive false new result object_id entry h found nz = with_created-IsLive new result h

  replay-IsKept :
      (object_id opcode : ℕ) (entry : ObjectEntry) (spec : MessageSpec) (b : Built)
      → find object_id objects ≡ some entry
      → entry.proxy ≢ 0
      → IsSafeBuilt live b
      → IsKept marshal live objects
          (replay table known version_of marshal objects object_id opcode entry spec b)
  replay-IsKept object_id opcode entry spec (stub n) found nz h = record {
    safe = tt;
    refused = λ e. ground (arith, e);
    kept = λ e.
        stub-IsLive live n.id (record { interface = n.interface; version = n.version; proxy = 0 })
          objects refl ok;
  }
  replay-IsKept object_id opcode entry spec (built args new) found nz h =
      let call : Marshal = record {
        proxy = entry.proxy;
        opcode = opcode;
        interface = interface_of new;
        version = version_for (version_of entry.proxy) new;
        destroys = spec.is_destructor;
        args = args;
      } in
      let safe : IsSafeCall live (some call) = (ok.alive object_id entry found nz, h) in
      either-IsKept (creates new && marshal call == 0)
        (record { applied = false; objects = objects; call = some call })
        (record {
          applied = true;
          objects =
              erase_if_destructor spec.is_destructor object_id
                (with_created new (marshal call) objects);
          call = some call;
        })
        (λ failed. record { safe = safe; refused = λ e. refl; kept = λ e. ground (arith, e) })
        (λ made. record {
          safe = safe;
          refused = λ e. ground (arith, e);
          kept = λ e.
              closed-IsLive spec.is_destructor new (marshal call) object_id entry
                (λ c. fresh call (λ z. ground (arith, made, c, z))) found nz;
        })

  replay_decoded-IsKept :
      (object_id opcode : ℕ) (entry : ObjectEntry) (spec : MessageSpec) (fds : List (List ℕ))
      (o : Option (List DecodedArg))
      → find object_id objects ≡ some entry
      → entry.proxy ≢ 0
      → IsKept marshal live objects
          (replay_decoded table known version_of marshal objects object_id opcode entry spec fds o)
  replay_decoded-IsKept object_id opcode entry spec fds none found nz = refuse-IsKept
  replay_decoded-IsKept object_id opcode entry spec fds (some args) found nz =
      let b = build_arguments known objects (version_of entry.proxy) args in
      either-IsKept (not (is_none fds) || ltb 0 (count_fd_args spec)) (refuse objects)
        (replay table known version_of marshal objects object_id opcode entry spec b)
        (λ e. refuse-IsKept)
        (λ e.
          replay-IsKept object_id opcode entry spec b found nz
            (build_arguments-IsSafe known objects (version_of entry.proxy) live ok args))

  replay_known-IsKept :
      (object_id opcode : ℕ) (entry : ObjectEntry) (payload : List ℕ) (fds : List (List ℕ))
      (o : Option MessageSpec)
      → find object_id objects ≡ some entry
      → entry.proxy ≢ 0
      → IsKept marshal live objects
          (replay_known table known version_of marshal objects object_id opcode entry payload fds o)
  replay_known-IsKept object_id opcode entry payload fds none found nz = refuse-IsKept
  replay_known-IsKept object_id opcode entry payload fds (some spec) found nz =
      replay_decoded-IsKept object_id opcode entry spec fds (decode_message spec payload) found nz

  -- Erasing an inert stub.
  inert-IsLive :
      (destroys : Bool) (object_id : ℕ) (entry : ObjectEntry)
      → find object_id objects ≡ some entry
      → entry.proxy ≡ 0
      → IsLive live (erase_if_destructor destroys object_id objects)
  inert-IsLive false object_id entry found z = ok
  inert-IsLive true object_id entry found z = record {
    alive = λ j e f nz. ok.alive j e (left j e f) nz;
    apart = λ j j' e e' f f' nz same. ok.apart j j' e e' (left j e f) (left j' e' f') nz same;
  }
    where
      left :
          (j : ℕ) (e : ObjectEntry)
          → find j (erase object_id objects) ≡ some e
          → find j objects ≡ some e
      left j e f = ground (arith, f, find-erase j object_id objects)

  replay_on-IsKept :
      (object_id opcode : ℕ) (payload : List ℕ) (fds : List (List ℕ)) (o : Option ObjectEntry)
      → find object_id objects ≡ o
      → IsKept marshal live objects
          (replay_on table known version_of marshal objects object_id opcode payload fds o)
  replay_on-IsKept object_id opcode payload fds none found = refuse-IsKept
  replay_on-IsKept object_id opcode payload fds (some entry) found =
      let spec = find_message (find_interface table entry.interface) false opcode in
      either-IsKept (entry.proxy == 0)
        (record {
          applied = true;
          objects = erase_if_destructor (is_destructor spec) object_id objects;
          call = none;
        })
        (replay_known table known version_of marshal objects object_id opcode entry payload fds
          spec)
        (λ z. record {
          safe = tt;
          refused = λ e. ground (arith, e);
          kept = λ e. inert-IsLive (is_destructor spec) object_id entry found (ground (arith, z));
        })
        (λ nz.
          replay_known-IsKept object_id opcode entry payload fds spec found (ground (arith, nz)))

  -- Whatever the bytes of a request are, `handle_request_frame` passes libwayland live proxies only,
  -- leaves the objects as they were if it refuses, and keeps the table live otherwise, if libwayland
  -- returns new proxies.
  pub handle_request_frame-IsKept :
      (wire_bytes : List ℕ) (fds : List (List ℕ))
      → IsKept marshal live objects
          (handle_request_frame table known version_of marshal objects wire_bytes fds)
  unfolding handle_request_frame
  handle_request_frame-IsKept wire_bytes fds =
      let object_id = of_le (take 4 wire_bytes) in
      let header2 = of_le (take 4 (drop 4 wire_bytes)) in
      either-IsKept (ltb (length wire_bytes) 8 || not (header2 / 2 ^ 16 == length wire_bytes))
        (refuse objects)
        (replay_on table known version_of marshal objects object_id (header2 % 2 ^ 16)
          (drop 8 wire_bytes) fds (find object_id objects))
        (λ e. refuse-IsKept)
        (λ e.
          replay_on-IsKept object_id (header2 % 2 ^ 16) (drop 8 wire_bytes) fds
            (find object_id objects) refl)
