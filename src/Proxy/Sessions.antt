-- ===== src/Proxy/Sessions.antt =====
-- wayland/proxy_server.cpp: requests and events in any order. Each step has its own answers of
-- libwayland.
use vulkan_remote.Base.{
  ℕ, ◌≡◌, refl, sym, ap, ◌∙◌, subst, inl, inr, Bool, true, false, Option, none, some, List, [],
  arith,
}
use vulkan_remote.Base.Tests.{if◌then◌else◌, Bool-cases, if_true, if_false}
use vulkan_remote.Base.Maps.{find, insert}
use vulkan_remote.Wayland.{ArgSpec, InterfaceSpec, find_interface, find_message}
use vulkan_remote.Wayland.Objects.{wl_display}
use vulkan_remote.Proxy.{ObjectEntry, Marshal, Applied, start_objects, handle_request_frame}
use vulkan_remote.Proxy.Live.{IsLive, IsSafeCall, IsFresh, revived, closed, after_call}
use vulkan_remote.Proxy.Replays.{inserted-IsLive}
use vulkan_remote.Proxy.Kept.{IsKept, handle_request_frame-IsKept}
use vulkan_remote.Proxy.Events.{EventArg, WaylandProxy, generic_dispatcher}
use vulkan_remote.Proxy.Events.Kept.{AreNew, after_event, args_of, generic_dispatcher-IsLive}

-- A call that fails still destroys the proxy that it is made on, if it is a destructor.
abbrev after_refusal : Option Marshal → (ℕ → Bool) → ℕ → Bool
after_refusal none live = live
after_refusal (some c) live = closed c.destroys c.proxy live

-- The proxies that are live after a request.
abbrev pub after_request : (Marshal → ℕ) → Applied → (ℕ → Bool) → ℕ → Bool
after_request marshal r live =
    if r.applied then after_call marshal r.call live else after_refusal r.call live

abbrev DestroysNone : Option Marshal → Type 0
DestroysNone none = Unit
DestroysNone (some c) = c.destroys ≡ false

-- A request that is refused destroys nothing: only a call that should create an object can fail, and no
-- request of the protocols both creates an object and is a destructor.
abbrev pub IsIntact : Applied → Type 0
IsIntact r = r.applied ≡ false → DestroysNone r.call

after_refusal_lem :
    (o : Option Marshal) (live : ℕ → Bool) → DestroysNone o → after_refusal o live ≡ live
after_refusal_lem none live h = refl
after_refusal_lem (some c) live h = ap (λ b. closed b c.proxy live) h

module _ (table : List InterfaceSpec) (known : List ℕ → Bool) (display_proxy : ℕ) where
  abbrev event_args : List ℕ → ℕ → List ArgSpec
  event_args iface_name opcode =
      args_of (find_message (find_interface table iface_name) true opcode)

  -- The live proxies and the objects that the proxy server can come to.
  pub data Reach : (ℕ → Bool) → List (ℕ × ObjectEntry) → Type 0 where
    starts : Reach (revived display_proxy (λ p. false)) (start_objects display_proxy)
    request :
        (live : ℕ → Bool) (objects : List (ℕ × ObjectEntry)) (version_of : ℕ → ℕ)
        (marshal : Marshal → ℕ) (wire_bytes : List ℕ) (fd_blobs : List (List ℕ))
        → Reach live objects
        → IsFresh marshal live
        → IsIntact (handle_request_frame table known version_of marshal objects wire_bytes fd_blobs)
        → Reach
            (after_request marshal
              (handle_request_frame table known version_of marshal objects wire_bytes fd_blobs)
              live)
            (handle_request_frame table known version_of marshal objects wire_bytes
              fd_blobs).objects
    event :
        (live : ℕ → Bool) (w : WaylandProxy) (user_data version_of : ℕ → ℕ) (contents : ℕ → List ℕ)
        (iface_name : List ℕ) (target opcode : ℕ) (values : List EventArg)
        → Reach live w.objects
        → AreNew (event_args iface_name opcode) values live
        → Reach
            (after_event (event_args iface_name opcode) values live)
            (generic_dispatcher user_data version_of contents table w iface_name target opcode
              values).objects

  after_request-IsLive :
      (live : ℕ → Bool) (objects : List (ℕ × ObjectEntry)) (marshal : Marshal → ℕ) (r : Applied)
      → IsLive live objects
      → IsKept marshal live objects r
      → IsIntact r
      → IsLive (after_request marshal r live) r.objects
  after_request-IsLive live objects marshal r ok k intact = elim (Bool-cases r.applied) [
    | inl done ↦
        subst (λ l. IsLive l r.objects)
          (sym (
            if_true {c = r.applied} (after_call marshal r.call live) (after_refusal r.call live)
              done))
          (k.kept done)
    | inr refused ↦
        subst (λ l. IsLive l r.objects)
          (sym (
            if_false {c = r.applied} (after_call marshal r.call live) (after_refusal r.call live)
              refused
            ∙ after_refusal_lem r.call live (intact refused)))
          (subst (λ o. IsLive live o) (sym (k.refused refused)) ok)
  ]

  pub Reach-IsLive :
      {live : ℕ → Bool} {objects : List (ℕ × ObjectEntry)}
      → Reach live objects
      → IsLive live objects
  unfolding insert find
  Reach-IsLive starts =
      inserted-IsLive (λ p. false) 1
        (record { interface = wl_display; version = 1; proxy = display_proxy }) [] refl
        (record {
          alive = λ id e f nz. ground (arith, f);
          apart = λ id id' e e' f f' nz same. ground (arith, f);
        })
  Reach-IsLive (request live objects version_of marshal wire_bytes fd_blobs reach fresh intact) =
      let ok = Reach-IsLive reach in
      after_request-IsLive live objects marshal
        (handle_request_frame table known version_of marshal objects wire_bytes fd_blobs) ok
        (handle_request_frame-IsKept table known version_of marshal live objects ok fresh wire_bytes
          fd_blobs)
        intact
  Reach-IsLive
        (event live w user_data version_of contents iface_name target opcode values reach new) =
      generic_dispatcher-IsLive user_data version_of contents table w iface_name target opcode
        values live new (Reach-IsLive reach)

  -- After any requests and events, in any order and whatever their bytes, a further request hands
  -- libwayland live proxies only, if libwayland makes proxies that are not live yet and no request that
  -- was refused is a destructor.
  pub Reach-IsSafeCall :
      (live : ℕ → Bool) (objects : List (ℕ × ObjectEntry)) (version_of : ℕ → ℕ)
      (marshal : Marshal → ℕ) (wire_bytes : List ℕ) (fd_blobs : List (List ℕ))
      → Reach live objects
      → IsFresh marshal live
      → IsSafeCall live
          (handle_request_frame table known version_of marshal objects wire_bytes fd_blobs).call
  Reach-IsSafeCall live objects version_of marshal wire_bytes fd_blobs reach fresh =
      (handle_request_frame-IsKept table known version_of marshal live objects (Reach-IsLive reach)
        fresh wire_bytes fd_blobs).safe
