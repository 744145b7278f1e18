-- ===== src/Proxy/Live.antt =====
-- wayland/proxy_server.cpp: no request, whatever its bytes are, makes the proxy hand libwayland a
-- wl_proxy that was destroyed. A set of live proxies stands for what libwayland has allocated.
use vulkan_remote.Base.{
  ℕ, ◌≡◌, ◌≢◌, refl, sym, subst, ◌⊎◌, inl, inr, Bool, true, false, Option, none, some, List, [],
  ◌∷◌,
}
use vulkan_remote.Base.Tests.{◌==◌, if◌then◌else◌, Bool-cases, if_true, if_false, equal_or_not}
use vulkan_remote.Base.Lists.{All, All-append}
use vulkan_remote.Base.Maps.{find}
use vulkan_remote.Wayland.{ArgType, DecodedArg}
use vulkan_remote.Proxy.{
  ObjectEntry, WlArgument, signed, unsigned, object, text, blob, Marshal, NewObject, Built, stub,
  built, in_front, creating, proxy_of, reference, new_object, new_id_slots, add_argument,
  build_arguments,
}

-- Every proxy of the table is live, and no two ids have the same one.
pub record IsLive (live : ℕ → Bool) (objects : List (ℕ × ObjectEntry)) : Type 0 where
  pub alive :
      (id : ℕ) (e : ObjectEntry) → find id objects ≡ some e → e.proxy ≢ 0 → live e.proxy ≡ true
  pub apart :
      (id id' : ℕ) (e e' : ObjectEntry)
      → find id objects ≡ some e
      → find id' objects ≡ some e'
      → e.proxy ≢ 0
      → e.proxy ≡ e'.proxy
      → id ≡ id'

-- An argument holds no proxy, a null pointer, or a live one.
abbrev pub IsSafeArgument : (ℕ → Bool) → WlArgument → Type 0
IsSafeArgument live (signed v) = Unit
IsSafeArgument live (unsigned v) = Unit
IsSafeArgument live (object p) = (p ≡ 0) ⊎ (live p ≡ true)
IsSafeArgument live (text s) = Unit
IsSafeArgument live (blob b) = Unit

-- No call, or one on a live proxy with such arguments.
abbrev pub IsSafeCall : (ℕ → Bool) → Option Marshal → Type 0
IsSafeCall live none = Unit
IsSafeCall live (some c) = (live c.proxy ≡ true) × All (IsSafeArgument live) c.args

abbrev pub IsSafeBuilt : (ℕ → Bool) → Built → Type 0
IsSafeBuilt live (stub n) = Unit
IsSafeBuilt live (built args new) = All (IsSafeArgument live) args

abbrev pub revived : ℕ → (ℕ → Bool) → ℕ → Bool
revived p live q = if q == p then true else live q

abbrev pub killed : ℕ → (ℕ → Bool) → ℕ → Bool
killed p live q = if q == p then false else live q

abbrev pub opened : Option (List ℕ) → ℕ → (ℕ → Bool) → ℕ → Bool
opened none result live = live
opened (some interface) result live = revived result live

abbrev pub closed : Bool → ℕ → (ℕ → Bool) → ℕ → Bool
closed true p live = killed p live
closed false p live = live

-- What is live after a call: a request that creates an object brings in the proxy that is returned,
-- and a destructor takes away the one that it is made on.
abbrev pub after_call : (Marshal → ℕ) → Option Marshal → (ℕ → Bool) → ℕ → Bool
after_call marshal none live = live
after_call marshal (some c) live = closed c.destroys c.proxy (opened c.interface (marshal c) live)

-- libwayland returns a new proxy, or the null pointer.
abbrev pub IsFresh : (Marshal → ℕ) → (ℕ → Bool) → Type 0
IsFresh marshal live = (c : Marshal) → marshal c ≢ 0 → live (marshal c) ≡ false

in_front-IsSafe :
    (live : ℕ → Bool) (values : List WlArgument) (b : Built)
    → All (IsSafeArgument live) values
    → IsSafeBuilt live b
    → IsSafeBuilt live (in_front values b)
in_front-IsSafe live values (stub n) h k = tt
in_front-IsSafe live values (built args new) h k = All-append (IsSafeArgument live) values args h k

creating-IsSafe :
    (live : ℕ → Bool) (n : NewObject) (b : Built)
    → IsSafeBuilt live b
    → IsSafeBuilt live (creating n b)
creating-IsSafe live n (stub later) h = tt
creating-IsSafe live n (built args new) h = h

either-IsSafe :
    (live : ℕ → Bool) (c : Bool) (a b : Built)
    → IsSafeBuilt live a
    → IsSafeBuilt live b
    → IsSafeBuilt live (if c then a else b)
either-IsSafe live true a b h k = h
either-IsSafe live false a b h k = k

slots-IsSafe :
    (live : ℕ → Bool) (c : Bool) (name : List ℕ) (version : ℕ)
    → All
        (IsSafeArgument live)
        (if c then object 0 ∷ [] else text name ∷ unsigned version ∷ object 0 ∷ [])
slots-IsSafe live true name version = (inl refl, tt)
slots-IsSafe live false name version = (tt, (tt, (inl refl, tt)))

module _ (known : List ℕ → Bool) (objects : List (ℕ × ObjectEntry)) (version : ℕ) (live : ℕ → Bool)
    (ok : IsLive live objects) where
  proxy_of-IsSafe :
      (id : ℕ) (o : Option ObjectEntry)
      → find id objects ≡ o
      → IsSafeArgument live (object (proxy_of o))
  proxy_of-IsSafe id none e = inl refl
  proxy_of-IsSafe id (some entry) e = elim (equal_or_not entry.proxy 0) [
    | inl z ↦ inl z
    | inr nz ↦ inr (ok.alive id entry e nz)
  ]

  reference-IsSafe : (id : ℕ) → IsSafeArgument live (object (reference objects id))
  unfolding reference
  reference-IsSafe id = elim (Bool-cases (id == 0)) [
    | inl z ↦ inl (if_true {c = id == 0} 0 (proxy_of (find id objects)) z)
    | inr nz ↦
        subst (λ p. IsSafeArgument live (object p))
          (sym (if_false {c = id == 0} 0 (proxy_of (find id objects)) nz))
          (proxy_of-IsSafe id (find id objects) refl)
  ]

  add_argument-IsSafe :
      (t : ArgType) (arg : DecodedArg) (b : Built)
      → IsSafeBuilt live b
      → IsSafeBuilt live (add_argument known objects version t arg b)
  add_argument-IsSafe ArgType.int arg b h = in_front-IsSafe live (signed arg.i32 ∷ []) b (tt, tt) h
  add_argument-IsSafe ArgType.fixed arg b h =
      in_front-IsSafe live (signed arg.i32 ∷ []) b (tt, tt) h
  add_argument-IsSafe ArgType.uint arg b h =
      in_front-IsSafe live (unsigned arg.u32 ∷ []) b (tt, tt) h
  add_argument-IsSafe ArgType.string arg b h = in_front-IsSafe live (text arg.str ∷ []) b (tt, tt) h
  add_argument-IsSafe ArgType.array arg b h =
      in_front-IsSafe live (blob arg.array ∷ []) b (tt, tt) h
  add_argument-IsSafe ArgType.object arg b h =
      in_front-IsSafe live (object (reference objects arg.u32) ∷ []) b
        (reference-IsSafe arg.u32, tt) h
  add_argument-IsSafe ArgType.new_id arg b h =
      let n = new_object known objects version arg in
      either-IsSafe live (known arg.str)
        (in_front (new_id_slots known objects version arg) (creating n b)) (stub n)
        (in_front-IsSafe live (new_id_slots known objects version arg) (creating n b)
          (slots-IsSafe live (arg.new_id_version == 0) arg.str arg.new_id_version)
          (creating-IsSafe live n b h))
        tt
  add_argument-IsSafe ArgType.fd arg b h = h

  pub build_arguments-IsSafe :
      (args : List DecodedArg) → IsSafeBuilt live (build_arguments known objects version args)
  unfolding build_arguments
  build_arguments-IsSafe [] = tt
  build_arguments-IsSafe (arg ∷ args) =
      add_argument-IsSafe arg.type arg (build_arguments known objects version args)
        (build_arguments-IsSafe args)
