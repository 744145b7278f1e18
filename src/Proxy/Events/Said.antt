-- ===== src/Proxy/Events/Said.antt =====
-- wayland/proxy_server.cpp: what the arguments of an event say, and that the loop of
-- `generic_dispatcher` passes it on.
use vulkan_remote.Base.{
  ℕ, ◌+◌, ◌%◌, ◌^◌, ◌<◌, ◌≡◌, ◌≢◌, refl, ap, ◌∙◌, subst, Option, none, some, List, [], ◌∷◌, ◌++◌,
  arith,
}
use vulkan_remote.Base.Tests.{if◌then◌else◌}
use vulkan_remote.Base.Lists.{length}
use vulkan_remote.Base.Words.{IsI32}
use vulkan_remote.Wayland.{ArgType, ArgSpec, DecodedArg, is_fd}
use vulkan_remote.Wayland.Objects.{is_new_id}
use vulkan_remote.Proxy.{ObjectEntry}
use vulkan_remote.Proxy.Events.{
  EventArg, bytes_at, event_arg, event_blobs, id_after, with_event_object, convert_event,
}

-- An argument that libwayland may hand over for a type: the numbers have 32 bits, and so have the
-- padded lengths; the interface of a new object is known.
abbrev pub IsArgument : ArgType → Option (List ℕ) → EventArg → Type 0
IsArgument ArgType.int interface v = IsI32 v.i
IsArgument ArgType.fixed interface v = IsI32 v.i
IsArgument ArgType.uint interface v = v.u < 2 ^ 32
IsArgument ArgType.string interface v = length (bytes_at v.s) + 4 < 2 ^ 32
IsArgument ArgType.array interface v = length (bytes_at v.a) + 3 < 2 ^ 32
IsArgument ArgType.object interface v = Unit
IsArgument ArgType.new_id none v = ⊥
IsArgument ArgType.new_id (some name) v = Unit
IsArgument ArgType.fd interface v = Unit

abbrev pub AreArguments : List ArgSpec → List EventArg → Type 0
AreArguments [] [] = Unit {0}
AreArguments [] (v ∷ values) = ⊥
AreArguments (s ∷ specs) [] = ⊥
AreArguments (s ∷ specs) (v ∷ values) = IsArgument s.type s.interface v × AreArguments specs values

module _ (user_data version_of : ℕ → ℕ) (contents : ℕ → List ℕ) where
  -- What the argument of an event says to the application: the value, the id of an object in place of its
  -- proxy, and `next` for the id of a new one. A descriptor says nothing in the message itself.
  abbrev pub Says : ArgType → Option (List ℕ) → EventArg → ℕ → DecodedArg → Type 0
  Says ArgType.int interface v next arg = (arg.type ≡ ArgType.int) × (arg.i32 ≡ v.i)
  Says ArgType.fixed interface v next arg = (arg.type ≡ ArgType.fixed) × (arg.i32 ≡ v.i)
  Says ArgType.uint interface v next arg = (arg.type ≡ ArgType.uint) × (arg.u32 ≡ v.u)
  Says ArgType.string interface v next arg =
      (arg.type ≡ ArgType.string)
      × (v.s ≡ none → arg.str ≡ [])
      × ((s : List ℕ) → v.s ≡ some s → arg.str ≡ s)
  Says ArgType.array interface v next arg =
      (arg.type ≡ ArgType.array)
      × (v.a ≡ none → arg.array ≡ [])
      × ((a : List ℕ) → v.a ≡ some a → arg.array ≡ a)
  Says ArgType.object interface v next arg =
      (arg.type ≡ ArgType.object)
      × (v.o ≡ 0 → arg.u32 ≡ 0)
      × (v.o ≢ 0 → arg.u32 ≡ user_data v.o % 2 ^ 32)
  Says ArgType.new_id interface v next arg =
      (arg.type ≡ ArgType.new_id) × (arg.u32 ≡ next) × (some arg.str ≡ interface)
  Says ArgType.fd interface v next arg = arg.type ≡ ArgType.fd

  -- One argument for each, where the new objects have the ids from `next` on.
  abbrev pub SaysAll : List ArgSpec → List EventArg → ℕ → List DecodedArg → Type 0
  SaysAll [] [] next [] = Unit {0}
  SaysAll [] [] next (arg ∷ args) = ⊥
  SaysAll [] (v ∷ values) next args = ⊥
  SaysAll (s ∷ specs) [] next args = ⊥
  SaysAll (s ∷ specs) (v ∷ values) next [] = ⊥
  SaysAll (s ∷ specs) (v ∷ values) next (arg ∷ args) =
      Says s.type s.interface v next arg
      × SaysAll specs values (if is_new_id s.type then (next + 1) % 2 ^ 32 else next) args

  -- What is read of the descriptors of an event, in order.
  abbrev pub descriptors : List ArgSpec → List EventArg → List (List ℕ)
  descriptors [] values = []
  descriptors (s ∷ specs) [] = []
  descriptors (s ∷ specs) (v ∷ values) =
      if is_fd s.type then contents v.h ∷ descriptors specs values else descriptors specs values

  event_arg-Says :
      (t : ArgType) (interface : Option (List ℕ)) (v : EventArg) (next : ℕ)
      → IsArgument t interface v
      → Says t interface v next (event_arg user_data version_of contents t interface v next)
  event_arg-Says ArgType.int interface v next h = (refl, refl)
  event_arg-Says ArgType.uint interface v next h = (refl, refl)
  event_arg-Says ArgType.fixed interface v next h = (refl, refl)
  event_arg-Says ArgType.string interface v next h =
      (refl, λ e. ap bytes_at e, λ s e. ap bytes_at e)
  event_arg-Says ArgType.object interface v next h =
      (refl, λ z. ground (arith, z), λ nz. ground (arith, nz))
  event_arg-Says ArgType.new_id none v next h = absurd h
  event_arg-Says ArgType.new_id (some name) v next h = (refl, refl, refl)
  event_arg-Says ArgType.array interface v next h = (refl, λ e. ap bytes_at e, λ a e. ap bytes_at e)
  event_arg-Says ArgType.fd interface v next h = refl

  id_after_lem :
      (t : ArgType) (next : ℕ)
      → id_after t next ≡ (if is_new_id t then (next + 1) % 2 ^ 32 else next)
  id_after_lem ArgType.int next = refl
  id_after_lem ArgType.uint next = refl
  id_after_lem ArgType.fixed next = refl
  id_after_lem ArgType.string next = refl
  id_after_lem ArgType.object next = refl
  id_after_lem ArgType.new_id next = refl
  id_after_lem ArgType.array next = refl
  id_after_lem ArgType.fd next = refl

  event_blobs_lem :
      (t : ArgType) (v : EventArg) (blobs : List (List ℕ))
      → event_blobs user_data version_of contents t v ++ blobs
        ≡ (if is_fd t then contents v.h ∷ blobs else blobs)
  event_blobs_lem ArgType.int v blobs = refl
  event_blobs_lem ArgType.uint v blobs = refl
  event_blobs_lem ArgType.fixed v blobs = refl
  event_blobs_lem ArgType.string v blobs = refl
  event_blobs_lem ArgType.object v blobs = refl
  event_blobs_lem ArgType.new_id v blobs = refl
  event_blobs_lem ArgType.array v blobs = refl
  event_blobs_lem ArgType.fd v blobs = refl

  pub convert_event-SaysAll :
      (specs : List ArgSpec) (values : List EventArg) (next : ℕ) (objects : List (ℕ × ObjectEntry))
      → AreArguments specs values
      → let c = convert_event user_data version_of contents specs values next objects in
        SaysAll specs values next c.args × (c.fd_blobs ≡ descriptors specs values)
  unfolding convert_event
  convert_event-SaysAll [] [] next objects h = (tt, refl)
  convert_event-SaysAll [] (v ∷ values) next objects h = absurd h
  convert_event-SaysAll (s ∷ specs) [] next objects h = absurd h
  convert_event-SaysAll (s ∷ specs) (v ∷ values) next objects (h, hs) =
      let others =
        with_event_object user_data version_of contents s.type s.interface v next objects in
      let c =
        convert_event user_data version_of contents specs values (id_after s.type next) others in
      let (says, blobs) = convert_event-SaysAll specs values (id_after s.type next) others hs in
      (
        (
          event_arg-Says s.type s.interface v next h,
          subst (λ n. SaysAll specs values n c.args) (id_after_lem s.type next) says,
        ),
        event_blobs_lem s.type v c.fd_blobs
            ∙ ap (λ b. if is_fd s.type then contents v.h ∷ b else b) blobs,
      )
