-- ===== src/Transfers/Flushes.antt =====
-- `RemoteDevice::flush_mapped` of client/remote_objects.cpp against `handle_FlushMappedMemory` of
-- server/handlers_memory.cpp: a flush of the client, message by message, in the memory of the device.
use vulkan_remote.Base.{
  ℕ, ◌+◌, ◌-◌, ◌%◌, ◌^◌, ◌≤◌, ◌<◌, ◌≡◌, refl, sym, ap, ◌∙◌, subst, inl, inr, Bool, true, false, not,
  ◌&&◌, Option, none, some, List, [], ◌∷◌, ◌++◌, arith,
}
use vulkan_remote.Base.Tests.{◌==◌, if◌then◌else◌, Bool-cases, Option-cases, if_true, if_false}
use vulkan_remote.Base.Lists.{length, drop, length-append, length-take, length-drop}
use vulkan_remote.Base.Bytes.{le_bytes, of_le}
use vulkan_remote.Base.Maps.{find}
use vulkan_remote.Base.Words.{ℤ, IsI32}
use vulkan_remote.Framing.{Status, put_u32}
use vulkan_remote.Objects.{get}
use vulkan_remote.Objects.Teardown.{ServerMemory, ObjectTables}
use vulkan_remote.Mapped.{Transfer, VkResult, success, MemoryAllocation, MappedRange, flush_range}
use vulkan_remote.Mapped.Chunks.{joined, Consecutive, flush_range_lem}
use vulkan_remote.Transfers.{
  Driver, is_zero, validate_in, validate_transfer, transfer_fits, map_upload, status_reply,
  handle_FlushMappedMemory, flush_validated,
}
use vulkan_remote.Transfers.Alignment.{IsAlignment, IsTransfer}
use vulkan_remote.Transfers.Requests.{
  flush_request, read_flush_reply, IsRequest, head_of, handle_FlushMappedMemory-flush_request,
  flush_request-round_trip,
}
use vulkan_remote.Mapped.Writes.{slice}
use vulkan_remote.Transfers.Views.{Views}
use vulkan_remote.Transfers.Uploads.{map_upload-Uploaded}
use vulkan_remote.Transfers.Written.{
  Written, Uploaded-Written, nothing-Written, Written-append, Written-device,
}

module _ {S : Type 0} (driver : Driver S) (t : ObjectTables) (remote_id : ℕ) where
  -- The messages of a flush, each handled by the server when the client has read that the one before
  -- it succeeded.
  unfoldable pub serve_flushes : S → List Transfer → Bool × S
  unfolding flush_request read_flush_reply handle_FlushMappedMemory
  serve_flushes s [] = (true, s)
  serve_flushes s (x ∷ xs) =
      let (reply, s') = handle_FlushMappedMemory driver t s (flush_request remote_id x) in
      let rest = serve_flushes s' xs in
      if is_zero (read_flush_reply reply) then rest else (false, s')

-- What validated, is the memory of that id, and the transfer has bytes and lies in it.
validate_in-fits :
    (device offset size : ℕ) (o : Option ServerMemory) (m : ServerMemory)
    → validate_in device offset size o ≡ some m
    → (o ≡ some m) × (1 ≤ size) × (offset + size ≤ m.size)
validate_in-fits device offset size none m e = ground (arith, e)
validate_in-fits device offset size (some k) m e =
    elim (Bool-cases (not (device == 0) && (k.owner == device && transfer_fits k offset size))) [
      | inl b ↦
          let same : some k ≡ some m = sym (if_true _ _ b) ∙ e in
          (same, ground (arith, b), ground (arith, b, same))
      | inr b ↦ ground (arith, sym (if_false _ _ b) ∙ e)
    ]

validate_transfer-fits :
    (t : ObjectTables) (device_id memory_id offset size : ℕ) (m : ServerMemory)
    → validate_transfer t device_id memory_id offset size ≡ some m
    → (find memory_id t.memory_metadata ≡ some m) × (1 ≤ size) × (offset + size ≤ m.size)
unfolding validate_transfer
validate_transfer-fits t device_id memory_id offset size =
    validate_in-fits (get t.devices device_id) offset size (find memory_id t.memory_metadata)

-- The reply to a transfer that does not validate is read as a failure.
refused_flush : is_zero (read_flush_reply (status_reply Status.decode_error)) ≡ false
unfolding read_flush_reply put_u32 le_bytes of_le
refused_flush = refl

-- The memory of the transfers: the server has it under the id, its atom size is a power of two that
-- divides its size, and the results of the driver for it are int32 values.
pub record IsUploadTarget {S : Type 0} (driver : Driver S) (t : ObjectTables) (memory_id : ℕ)
    (m : ServerMemory) : Type 0 where
  pub named : memory_id < 2 ^ 64
  pub found : find memory_id t.memory_metadata ≡ some m
  pub atom : IsAlignment m.non_coherent_atom_size
  pub small : m.size ≤ 2 ^ 63
  pub whole : m.size % m.non_coherent_atom_size ≡ 0
  pub results :
      (s : S) (offset : ℕ) (bytes : List ℕ)
      → IsI32 (map_upload driver s m offset (length bytes) bytes).0

module _ {S : Type 0} (driver : Driver S) (t : ObjectTables) (remote_id memory_id : ℕ)
    (m : ServerMemory) (v : Views driver m) (target : IsUploadTarget driver t memory_id m) where
  abbrev upload : S → Transfer → ℤ × S
  upload s x = map_upload driver s m x.offset (length x.bytes) x.bytes

  -- One message of a flush that succeeds.
  abbrev Succeeds : S → Transfer → List Transfer → Type 0
  Succeeds s x xs =
      (is_zero (upload s x).0 ≡ true)
      × (serve_flushes driver t remote_id s (x ∷ xs)
          ≡ serve_flushes driver t remote_id (upload s x).1 xs)
      × (1 ≤ length x.bytes)
      × (x.offset + length x.bytes ≤ m.size)

  refused_first :
      (s : S) (x : Transfer) (xs : List Transfer)
      → IsRequest remote_id x
      → validate_transfer t remote_id x.memory x.offset (length x.bytes) ≡ none
      → (serve_flushes driver t remote_id s (x ∷ xs)).0 ≡ false
  unfolding serve_flushes
  refused_first s x xs q n =
      let (reply, s') = handle_FlushMappedMemory driver t s (flush_request remote_id x) in
      ap (λ (p : Bool × S). p.0)
        (ap
            (λ (p : List ℕ × S).
              if is_zero (read_flush_reply p.0)
              then serve_flushes driver t remote_id p.1 xs
              else (false, p.1))
            (handle_FlushMappedMemory-flush_request driver t s remote_id x q
              ∙ ap (flush_validated driver s (head_of remote_id x) x.bytes) n)
          ∙ if_false _ _ refused_flush)

  uploaded_first :
      (s : S) (x : Transfer) (xs : List Transfer)
      → IsRequest remote_id x
      → validate_transfer t remote_id x.memory x.offset (length x.bytes) ≡ some m
      → serve_flushes driver t remote_id s (x ∷ xs) ≡ (
          if is_zero (upload s x).0
          then serve_flushes driver t remote_id (upload s x).1 xs
          else (false, (upload s x).1))
  unfolding serve_flushes
  uploaded_first s x xs q e =
      ap
        (λ (p : ℤ × S).
          if is_zero p.0 then serve_flushes driver t remote_id p.1 xs else (false, p.1))
        (flush_request-round_trip driver t s remote_id x m q e (target.results s x.offset x.bytes))

  first_Succeeds :
      (s : S) (x : Transfer) (xs : List Transfer)
      → IsRequest remote_id x
      → x.memory ≡ memory_id
      → (serve_flushes driver t remote_id s (x ∷ xs)).0 ≡ true
      → Succeeds s x xs
  first_Succeeds s x xs q e ok =
      elim (Option-cases (validate_transfer t remote_id x.memory x.offset (length x.bytes))) [
        | inl n ↦ ground (arith, ok, refused_first s x xs q n)
        | inr (k, f) ↦
            let (found, low, high) = validate_transfer-fits t remote_id x.memory x.offset _ k f in
            let same : some k ≡ some m =
              sym found ∙ (ap (λ i. find i t.memory_metadata) e ∙ target.found) in
            let step = uploaded_first s x xs q (f ∙ same) in
            elim (Bool-cases (is_zero (upload s x).0)) [
              | inl z ↦ (z, step ∙ if_true _ _ z, low, ground (arith, high, same))
              | inr z ↦ ground (arith, ok, ap (λ (p : Bool × S). p.0) (step ∙ if_false _ _ z))
            ]
      ]

  serve_flushes-Written :
      (s : S) (p : ℕ) (xs : List Transfer)
      → remote_id < 2 ^ 64
      → p ≤ m.size
      → Consecutive memory_id p xs
      → (serve_flushes driver t remote_id s xs).0 ≡ true
      → Written driver m v s (serve_flushes driver t remote_id s xs).1 p (joined xs)
        × (p + length (joined xs) ≤ m.size)
  unfolding serve_flushes
  serve_flushes-Written s p [] r l c ok = (nothing-Written driver m v s p, omega (arith, l))
  serve_flushes-Written s p (x ∷ xs) r l (em, eo, short, c) ok =
      let q : IsRequest remote_id x = record {
        device = r;
        memory = omega (arith, em, target.named);
        offset = omega (arith, eo, l, target.small);
        chunk = short;
      } in
      let (z, step, low, high) = first_Succeeds s x xs q em ok in
      let s₁ = (upload s x).1 in
      let transfer : IsTransfer m x.offset (length x.bytes) = record {
        atom = target.atom;
        small = target.small;
        some_bytes = low;
        within = high;
        rounds = inl target.whole;
      } in
      let here : Written driver m v s s₁ p x.bytes =
        subst (λ k. Written driver m v s s₁ k x.bytes) eo
          (Uploaded-Written driver m v s s₁ x.offset x.bytes high
            (map_upload-Uploaded driver m v s x.offset x.bytes transfer z)) in
      let (rest, bound) =
        serve_flushes-Written s₁ (p + length x.bytes) xs r (omega (arith, high, eo)) c
          (sym (ap (λ (k : Bool × S). k.0) step) ∙ ok) in
      (
        subst (λ (k : Bool × S). Written driver m v s k.1 p (x.bytes ++ joined xs)) (sym step)
            (Written-append driver m v s s₁ _ p x.bytes (joined xs) here rest),
        omega (arith, bound, length-append x.bytes (joined xs)),
      )

  -- A flush whose messages go to the memory one behind the other from `p` on, and all of which the
  -- client reads as a success, leaves exactly their bytes at `p` in what the device sees.
  pub serve_flushes-device :
      (s : S) (p : ℕ) (xs : List Transfer)
      → remote_id < 2 ^ 64
      → p ≤ m.size
      → Consecutive memory_id p xs
      → (serve_flushes driver t remote_id s xs).0 ≡ true
      → slice p (length (joined xs)) (v.device (serve_flushes driver t remote_id s xs).1)
        ≡ joined xs
  serve_flushes-device s p xs r l c ok =
      let (w, bound) = serve_flushes-Written s p xs r l c ok in
      Written-device driver m v s (serve_flushes driver t remote_id s xs).1 p (joined xs) bound w

  -- The whole path of a flush: if `flush_mapped` of the client ends with success for a range of a
  -- mapping, and each of its messages is answered by the server as it handles them, the device sees
  -- the bytes of the host copy in that range.
  pub flush_range-device :
      (answer : Transfer → VkResult) (memories : List (ℕ × MemoryAllocation)) (range : MappedRange)
      (offset size : ℕ) (s : S)
      → remote_id < 2 ^ 64
      → range.memory_id ≡ memory_id
      → offset ≤ m.size
      → offset - range.offset + size ≤ length range.shadow
      → let (result, xs) = flush_range answer memories range offset size in
        result ≡ some success
        → (serve_flushes driver t remote_id s xs).0 ≡ true
        → slice offset size (v.device (serve_flushes driver t remote_id s xs).1)
          ≡ slice (offset - range.offset) size range.shadow
  flush_range-device answer memories range offset size s r e l h ok served =
      let xs = (flush_range answer memories range offset size).1 in
      let (total, all, order) = flush_range_lem answer memories range offset size h in
      let bytes : joined xs ≡ slice (offset - range.offset) size range.shadow = all ok in
      let width : length (joined xs) ≡ size = omega (
        arith,
        ap length bytes,
        length-take size (drop (offset - range.offset) range.shadow),
        length-drop (offset - range.offset) range.shadow,
        h,
      ) in
      ap (λ k. slice offset k (v.device (serve_flushes driver t remote_id s xs).1)) (sym width)
      ∙ (serve_flushes-device s offset xs r l (subst (λ k. Consecutive k offset xs) e order) served
          ∙ bytes)
