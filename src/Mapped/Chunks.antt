-- ===== src/Mapped/Chunks.antt =====
-- client/remote_objects.cpp: `flush_mapped` and `download_mapped` split a range into messages.
use vulkan_remote.Base.{
  ℕ, zero, suc, ◌+◌, ◌-◌, ◌≤◌, ◌<◌, ◌≡◌, refl, sym, ap, ◌∙◌, subst, inl, inr, min, Bool, false,
  Option, none, some, List, [], ◌∷◌, ◌++◌, arith,
}
use vulkan_remote.Base.Tests.{ltb, if◌then◌else◌, Bool-cases, if_true, if_false}
use vulkan_remote.Base.Lists.{length, take, drop, take-add, drop-add, length-take, length-drop}
use vulkan_remote.Base.Maps.{find}
use vulkan_remote.Mapped.{
  MemoryAllocation, MappedRange, VkResult, success, Transfer, max_mapped_chunk, round_chunk,
  chunk_of, is_success, send_chunk, flush_from, flush_range,
}

round_chunk-bounds :
    (chunk c : ℕ) (o : Option MemoryAllocation)
    → round_chunk chunk o ≡ some c
    → (1 ≤ c) × (c ≤ chunk)
round_chunk-bounds chunk c none e = ground (arith, e)
round_chunk-bounds chunk c (some a) e = ground (arith, e)

chunk_of-bounds :
    (memories : List (ℕ × MemoryAllocation)) (id left c : ℕ)
    → 1 ≤ left
    → chunk_of memories id left ≡ some c
    → (1 ≤ c) × (c ≤ left) × (c ≤ max_mapped_chunk)
unfolding chunk_of
chunk_of-bounds memories id left c p e = elim (Bool-cases (ltb (min max_mapped_chunk left) left)) [
  | inl b ↦
      let (low, high) =
        round_chunk-bounds (min max_mapped_chunk left) c (find id memories)
          (sym (if_true _ _ b) ∙ e) in
      (low, omega (arith, high), omega (arith, high))
  | inr b ↦
      let same : some (min max_mapped_chunk left) ≡ some c = sym (if_false _ _ b) ∙ e in
      ground (arith, same, p)
]

-- The bytes of the transfers, one behind the other.
abbrev pub joined : List Transfer → List ℕ
joined [] = []
joined (t ∷ ts) = t.bytes ++ joined ts

-- Each transfer is to the memory and begins where the one before it ends; none is above the limit.
abbrev pub Consecutive : ℕ → ℕ → List Transfer → Type 0
Consecutive memory offset [] = Unit
Consecutive memory offset (t ∷ ts) =
    (t.memory ≡ memory)
    × (t.offset ≡ offset)
    × (length t.bytes ≤ max_mapped_chunk)
    × Consecutive memory (offset + length t.bytes) ts

record Flushed (m : MappedRange) (offset size done : ℕ) (r : Option VkResult × List Transfer)
    : Type 0 where
  total : (v : VkResult) × (r.0 ≡ some v)
  all :
      r.0 ≡ some success
      → joined r.1 ≡ take (size - done) (drop (offset - m.offset + done) m.shadow)
  in_order : Consecutive m.memory_id (offset + done) r.1

success_of : Option VkResult → Bool
success_of none = false
success_of (some v) = is_success v

-- A transfer that was refused is the last one.
stopped-Flushed :
    (m : MappedRange) (offset size done : ℕ) (v : VkResult) (t : Transfer)
    → is_success v ≡ false
    → t.memory ≡ m.memory_id
    → t.offset ≡ offset + done
    → length t.bytes ≤ max_mapped_chunk
    → Flushed m offset size done (some v, t ∷ [])
unfolding success_of
stopped-Flushed m offset size done v t bad em eo le = record {
  total = (v, refl);
  all = λ e. ground (arith, bad, ap success_of e);
  in_order = (em, eo, le, tt);
}

-- A transfer in front of the others, after it was answered.
answered-Flushed :
    (m : MappedRange) (offset size done chunk : ℕ) (v : VkResult) (t : Transfer)
    (r : Option VkResult × List Transfer)
    → t.memory ≡ m.memory_id
    → t.offset ≡ offset + done
    → t.bytes ≡ take chunk (drop (offset - m.offset + done) m.shadow)
    → length t.bytes ≡ chunk
    → chunk ≤ max_mapped_chunk
    → done + chunk ≤ size
    → Flushed m offset size (done + chunk) r
    → Flushed m offset size done (if is_success v then (r.0, t ∷ r.1) else (some v, t ∷ []))
answered-Flushed m offset size done chunk success t r em eo eb el le fit h = record {
  total = h.total;
  all = λ e.
      ap (λ b. b ++ joined r.1) eb
      ∙ (ap (λ b. take chunk (drop (offset - m.offset + done) m.shadow) ++ b) (h.all e)
          ∙ (ap
                (λ b.
                  take chunk (drop (offset - m.offset + done) m.shadow)
                  ++ take (size - (done + chunk)) b)
                (ap (λ k. drop k m.shadow) {x = offset - m.offset + (done + chunk)}
                    {y = offset - m.offset + done + chunk} (omega arith)
                  ∙ drop-add (offset - m.offset + done) chunk m.shadow)
              ∙ (sym (
                    take-add chunk (size - (done + chunk))
                      (drop (offset - m.offset + done) m.shadow))
                  ∙ ap (λ k. take k (drop (offset - m.offset + done) m.shadow))
                      {x = chunk + (size - (done + chunk))} {y = size - done}
                      (omega (arith, fit)))));
  in_order = (
    em,
    eo,
    omega (arith, el, le),
    subst (λ k. Consecutive m.memory_id k r.1) {x = offset + (done + chunk)}
        {y = offset + done + length t.bytes} (omega (arith, el)) h.in_order,
  );
}
answered-Flushed m offset size done chunk VkResult.device_lost t r em eo eb el le fit h =
    stopped-Flushed m offset size done VkResult.device_lost t refl em eo (omega (arith, el, le))
answered-Flushed m offset size done chunk VkResult.memory_map_failed t r em eo eb el le fit h =
    stopped-Flushed m offset size done VkResult.memory_map_failed t refl em eo
      (omega (arith, el, le))
answered-Flushed m offset size done chunk VkResult.out_of_host_memory t r em eo eb el le fit h =
    stopped-Flushed m offset size done VkResult.out_of_host_memory t refl em eo
      (omega (arith, el, le))
answered-Flushed m offset size done chunk VkResult.out_of_device_memory t r em eo eb el le fit h =
    stopped-Flushed m offset size done VkResult.out_of_device_memory t refl em eo
      (omega (arith, el, le))
answered-Flushed m offset size done chunk (VkResult.vk_error k) t r em eo eb el le fit h =
    stopped-Flushed m offset size done (VkResult.vk_error k) t refl em eo (omega (arith, el, le))

send_chunk-Flushed :
    (answer : Transfer → VkResult) (m : MappedRange) (offset size done : ℕ)
    (rest : ℕ → Option VkResult × List Transfer) (o : Option ℕ)
    → offset - m.offset + size ≤ length m.shadow
    → ((c : ℕ) → o ≡ some c → (1 ≤ c) × (c ≤ size - done) × (c ≤ max_mapped_chunk))
    → ((d : ℕ) → done < d → d ≤ size → Flushed m offset size d (rest d))
    → Flushed m offset size done (send_chunk answer m offset done rest o)
unfolding success_of
send_chunk-Flushed answer m offset size done rest none h b r = record {
  total = (VkResult.device_lost, refl);
  all = λ e. ground (arith, ap success_of e);
  in_order = tt;
}
send_chunk-Flushed answer m offset size done rest (some c) h b r =
    let (low, fits, small) = b c refl in
    let t : Transfer = record {
      memory = m.memory_id;
      offset = offset + done;
      bytes = take c (drop (offset - m.offset + done) m.shadow);
    } in
    answered-Flushed m offset size done c (answer t) t (rest (done + c)) refl refl refl
      (omega (
        arith,
        length-take c (drop (offset - m.offset + done) m.shadow),
        length-drop (offset - m.offset + done) m.shadow,
        fits,
        h,
        low,
      ))
      small (omega (arith, fits, low))
      (r (done + c) (omega (arith, low)) (omega (arith, fits, low)))

finished-Flushed :
    (m : MappedRange) (offset size done : ℕ)
    → size ≤ done
    → Flushed m offset size done (some success, [])
finished-Flushed m offset size done h = record {
  total = (success, refl);
  all = λ e.
      ap (λ k. take k (drop (offset - m.offset + done) m.shadow)) {x = 0} {y = size - done}
        (omega arith);
  in_order = tt;
}

flush_from-Flushed :
    (answer : Transfer → VkResult) (rounds : ℕ) (memories : List (ℕ × MemoryAllocation))
    (m : MappedRange) (offset size done : ℕ)
    → offset - m.offset + size ≤ length m.shadow
    → size - done < rounds
    → done ≤ size
    → Flushed m offset size done (flush_from answer rounds memories m offset size done)
unfolding flush_from
flush_from-Flushed answer zero memories m offset size done h l d = absurd (omega (arith, l))
flush_from-Flushed answer (suc rounds) memories m offset size done h l d =
    elim (Bool-cases (ltb done size)) [
      | inl more ↦
          rw
            (if_true {c = ltb done size}
              (send_chunk answer m offset done
                (λ k. flush_from answer rounds memories m offset size k)
                (chunk_of memories m.memory_id (size - done)))
              (some success, []) more)
            (send_chunk-Flushed answer m offset size done
              (λ k. flush_from answer rounds memories m offset size k)
              (chunk_of memories m.memory_id (size - done)) h
              (λ c e. chunk_of-bounds memories m.memory_id (size - done) c (ground (arith, more)) e)
              (λ k lo hi.
                flush_from-Flushed answer rounds memories m offset size k h (omega (arith, l, lo))
                  hi))
      | inr over ↦
          rw
            (if_false {c = ltb done size}
              (send_chunk answer m offset done
                (λ k. flush_from answer rounds memories m offset size k)
                (chunk_of memories m.memory_id (size - done)))
              (some success, []) over)
            (finished-Flushed m offset size done (ground (arith, over)))
    ]

-- `flush_mapped` never runs out of rounds. The messages of one range go to the memory in order, each
-- begins where the one before it ends and none is above the limit, whatever the server answers; if
-- it succeeds, their bytes together are the bytes of the range.
pub flush_range_lem :
    (answer : Transfer → VkResult) (memories : List (ℕ × MemoryAllocation)) (m : MappedRange)
    (offset size : ℕ)
    → offset - m.offset + size ≤ length m.shadow
    → let r = flush_range answer memories m offset size in
      ((v : VkResult) × (r.0 ≡ some v))
      × (r.0 ≡ some success → joined r.1 ≡ take size (drop (offset - m.offset) m.shadow))
      × Consecutive m.memory_id offset r.1
flush_range_lem answer memories m offset size h =
    let f =
      flush_from-Flushed answer (suc size) memories m offset size 0 h (omega arith) (omega arith) in
    (
      f.total,
      λ e.
          f.all e
          ∙ (ap (λ k. take k (drop (offset - m.offset + 0) m.shadow)) {x = size - 0} {y = size}
                (omega arith)
              ∙ ap (λ k. take size (drop k m.shadow)) {x = offset - m.offset + 0}
                  {y = offset - m.offset} (omega arith)),
      subst (λ k. Consecutive m.memory_id k (flush_range answer memories m offset size).1)
          {x = offset + 0} {y = offset} (omega arith) f.in_order,
    )
