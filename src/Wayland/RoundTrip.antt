-- ===== src/Wayland/RoundTrip.antt =====
-- wayland/wire.cpp: the arguments of a message decode to those that were encoded.
use vulkan_remote.Base.{
  ℕ, ◌+◌, ◌^◌, ◌<◌, ◌≡◌, refl, sym, ap, subst, true, false, not, ◌&&◌, Option, none, some, List, [],
  ◌∷◌, ◌++◌, append_assoc, append-nil, arith,
}
use vulkan_remote.Base.Tests.{◌==◌, ==_iff}
use vulkan_remote.Base.Lists.{length, length-append}
use vulkan_remote.Base.Bytes.{le_bytes, length-le_bytes}
use vulkan_remote.Base.Words.{IsI32, to_u32, to_u32-lt, of_u32-to_u32}
use vulkan_remote.Wayland.{ArgType, ArgSpec, MessageSpec, DecodedArg, new_arg}
use vulkan_remote.Wayland.Decode.{decode_arg, decode_args, decode_message}
use vulkan_remote.Wayland.Encode.{put_blob, nul_terminated, encode_arg, encode_args, is_empty}
use vulkan_remote.Wayland.Positions.{
  At, At-skip, At-word, read_u32-At, read_blob-At, read_string-At,
}

-- The argument has the specification's type, its value is one of the C++ type, and only the members
-- that the type uses are set. Padded lengths have 32 bits. A bound object has an interface name and a version.
abbrev pub FitsType : ArgType → Option (List ℕ) → DecodedArg → Type 0
FitsType ArgType.int interface a = (a ≡ record (new_arg ArgType.int) { i32 = a.i32 }) × IsI32 a.i32
FitsType ArgType.fixed interface a =
    (a ≡ record (new_arg ArgType.fixed) { i32 = a.i32 }) × IsI32 a.i32
FitsType ArgType.uint interface a =
    (a ≡ record (new_arg ArgType.uint) { u32 = a.u32 }) × (a.u32 < 2 ^ 32)
FitsType ArgType.object interface a =
    (a ≡ record (new_arg ArgType.object) { u32 = a.u32 }) × (a.u32 < 2 ^ 32)
FitsType ArgType.string interface a =
    (a ≡ record (new_arg ArgType.string) { str = a.str }) × (length a.str + 4 < 2 ^ 32)
FitsType ArgType.array interface a =
    (a ≡ record (new_arg ArgType.array) { array = a.array }) × (length a.array + 3 < 2 ^ 32)
FitsType ArgType.new_id none a =
    (a ≡ record (new_arg ArgType.new_id) {
      str = a.str;
      new_id_version = a.new_id_version;
      u32 = a.u32;
    })
    × (length a.str + 4 < 2 ^ 32)
    × (0 < length a.str)
    × (0 < a.new_id_version)
    × (a.new_id_version < 2 ^ 32)
    × (a.u32 < 2 ^ 32)
FitsType ArgType.new_id (some name) a =
    (a ≡ record (new_arg ArgType.new_id) { str = name; u32 = a.u32 }) × (a.u32 < 2 ^ 32)
FitsType ArgType.fd interface a = a ≡ new_arg ArgType.fd

abbrev pub Fits : List ArgSpec → List DecodedArg → Type 0
Fits [] [] = Unit {0}
Fits [] (a ∷ args) = ⊥
Fits (s ∷ specs) [] = ⊥
Fits (s ∷ specs) (a ∷ args) = FitsType s.type s.interface a × Fits specs args

-- The decoder at an argument, over the bytes `e` of the argument `a`.
abbrev Decodes : ArgType → Option (List ℕ) → DecodedArg → List ℕ → Type 0
Decodes t interface a e =
    (p : List ℕ) (pos : ℕ) (rest : List ℕ)
    → At p pos (e ++ rest)
    → decode_arg t interface p pos ≡ some (a, pos + length e)

word_end : (pos v : ℕ) → pos + 4 ≡ pos + length (le_bytes 4 v)
word_end pos v = omega (arith, length-le_bytes 4 v)

bound_end :
    (pos version id : ℕ) (b : List ℕ)
    → pos + length b + 4 + 4 ≡ pos + length (b ++ (le_bytes 4 version ++ le_bytes 4 id))
bound_end pos version id b = omega (
  arith,
  length-append b (le_bytes 4 version ++ le_bytes 4 id),
  length-append (le_bytes 4 version) (le_bytes 4 id),
  length-le_bytes 4 version,
  length-le_bytes 4 id,
)

bound_test : (s : List ℕ) (v : ℕ) → 0 < length s → 0 < v → (not (is_empty s) && not (v == 0)) ≡ true
bound_test [] v h k = absurd (omega arith)
bound_test (c ∷ s) v h k = ground arith

unversioned_test : (s : List ℕ) → (not (is_empty s) && false) ≡ false
unversioned_test [] = refl
unversioned_test (c ∷ s) = refl

decode_bound :
    (s : List ℕ) (version id : ℕ)
    → length s + 4 < 2 ^ 32
    → version < 2 ^ 32
    → id < 2 ^ 32
    → Decodes ArgType.new_id none
        (record (new_arg ArgType.new_id) { str = s; new_id_version = version; u32 = id })
        (put_blob (nul_terminated s) ++ (le_bytes 4 version ++ le_bytes 4 id))
unfolding decode_arg
decode_bound s version id hs hv hi p pos rest a =
    let b = put_blob (nul_terminated s) in
    let n = pos + length b in
    let a₁ = subst (At p pos) (append_assoc b (le_bytes 4 version ++ le_bytes 4 id) rest) a in
    let a₂ =
      subst (At p n) (append_assoc (le_bytes 4 version) (le_bytes 4 id) rest)
        (At-skip b ((le_bytes 4 version ++ le_bytes 4 id) ++ rest) a₁) in
    let a₃ = At-word p n version (le_bytes 4 id ++ rest) a₂ in
    rw
      (
        read_string-At p pos s ((le_bytes 4 version ++ le_bytes 4 id) ++ rest) hs a₁,
        read_u32-At p n version (le_bytes 4 id ++ rest) hv a₂,
        read_u32-At p (n + 4) id rest hi a₃,
      )
      (ap
        (λ k.
          some (record (new_arg ArgType.new_id) { str = s; new_id_version = version; u32 = id }, k))
        (bound_end pos version id b))

decode_arg-FitsType :
    (t : ArgType) (interface : Option (List ℕ)) (a : DecodedArg)
    → FitsType t interface a
    → Decodes t interface a (encode_arg a)
unfolding decode_arg
decode_arg-FitsType ArgType.int interface a (e, h) =
    subst (λ b. Decodes ArgType.int interface b (encode_arg b)) (sym e)
      λ p pos rest at. rw (
        read_u32-At p pos (to_u32 a.i32) rest (to_u32-lt a.i32) at,
        of_u32-to_u32 a.i32 h,
        ← word_end pos (to_u32 a.i32),
      )
decode_arg-FitsType ArgType.fixed interface a (e, h) =
    subst (λ b. Decodes ArgType.fixed interface b (encode_arg b)) (sym e)
      λ p pos rest at. rw (
        read_u32-At p pos (to_u32 a.i32) rest (to_u32-lt a.i32) at,
        of_u32-to_u32 a.i32 h,
        ← word_end pos (to_u32 a.i32),
      )
decode_arg-FitsType ArgType.uint interface a (e, h) =
    subst (λ b. Decodes ArgType.uint interface b (encode_arg b)) (sym e)
      λ p pos rest at. rw (read_u32-At p pos a.u32 rest h at, ← word_end pos a.u32)
decode_arg-FitsType ArgType.object interface a (e, h) =
    subst (λ b. Decodes ArgType.object interface b (encode_arg b)) (sym e)
      λ p pos rest at. rw (read_u32-At p pos a.u32 rest h at, ← word_end pos a.u32)
decode_arg-FitsType ArgType.string interface a (e, h) =
    subst (λ b. Decodes ArgType.string interface b (encode_arg b)) (sym e)
      λ p pos rest at. rw (read_string-At p pos a.str rest h at)
decode_arg-FitsType ArgType.array interface a (e, h) =
    subst (λ b. Decodes ArgType.array interface b (encode_arg b)) (sym e)
      λ p pos rest at. rw (read_blob-At p pos a.array rest h at)
decode_arg-FitsType ArgType.new_id none a (e, hs, nonempty, versioned, hv, hi) =
    subst (λ b. Decodes ArgType.new_id none b (encode_arg b)) (sym e)
      (rw (bound_test a.str a.new_id_version nonempty versioned)
        (decode_bound a.str a.new_id_version a.u32 hs hv hi))
decode_arg-FitsType ArgType.new_id (some name) a (e, h) =
    subst (λ b. Decodes ArgType.new_id (some name) b (encode_arg b)) (sym e)
      (rw (unversioned_test name)
        λ p pos rest at. rw (read_u32-At p pos a.u32 rest h at, ← word_end pos a.u32))
decode_arg-FitsType ArgType.fd interface a e =
    subst (λ b. Decodes ArgType.fd interface b (encode_arg b)) (sym e)
      λ p pos rest at. ap (λ k. some (new_arg ArgType.fd, k)) (omega arith)

decode_args-encode_args :
    (specs : List ArgSpec) (args : List DecodedArg) (p : List ℕ) (pos : ℕ) (rest : List ℕ)
    → Fits specs args
    → At p pos (encode_args args ++ rest)
    → decode_args specs p pos ≡ some (args, pos + length (encode_args args))
unfolding decode_args encode_args
decode_args-encode_args [] [] p pos rest f at = ap (λ k. some ([], k)) (omega arith)
decode_args-encode_args [] (a ∷ args) p pos rest f at = absurd f
decode_args-encode_args (s ∷ specs) [] p pos rest f at = absurd f
decode_args-encode_args (s ∷ specs) (a ∷ args) p pos rest (f, fs) at =
    let e = encode_arg a in
    let es = encode_args args in
    let at' = subst (At p pos) (append_assoc e es rest) at in
    rw
      (
        decode_arg-FitsType s.type s.interface a f p pos (es ++ rest) at',
        decode_args-encode_args specs args p (pos + length e) rest fs (At-skip e (es ++ rest) at'),
      )
      (ap (λ k. some (a ∷ args, k)) (omega (arith, length-append e es)))

-- The decoder, given the specification that the arguments fit, accepts the body that the encoder
-- writes and returns the same arguments.
pub decode_message-encode_args :
    (msg : MessageSpec) (args : List DecodedArg)
    → Fits msg.args args
    → decode_message msg (encode_args args) ≡ some args
unfolding decode_message
decode_message-encode_args msg args f =
    let body = encode_args args in
    let at : At body 0 (body ++ []) = record {
      within = omega arith;
      ahead = sym (append-nil body);
    } in
    rw (decode_args-encode_args msg.args args body 0 [] f at)
      (rw ((==_iff (0 + length body) (length body)).1 (omega arith)))
