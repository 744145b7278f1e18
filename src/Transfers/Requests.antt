-- ===== src/Transfers/Requests.antt =====
-- client/remote_objects.cpp against server/handlers_memory.cpp: the messages of a mapped transfer, as
-- the client writes and reads them and as the server reads and writes them.
use vulkan_remote.Base.{
  ℕ, ◌+◌, ◌^◌, ◌≤◌, ◌<◌, ◌≡◌, refl, ap, ◌∙◌, subst, not, ◌&&◌, some, List, [], ◌∷◌, ◌++◌,
  append_assoc, arith,
}
use vulkan_remote.Base.Tests.{◌==◌, if◌then◌else◌, if_true}
use vulkan_remote.Base.Lists.{length}
use vulkan_remote.Base.Bytes.{le_bytes}
use vulkan_remote.Base.Words.{ℤ, negsuc, IsI32, to_u32, of_u32-to_u32, to_u32-lt}
use vulkan_remote.Framing.{
  new_writer, put_u64, put_handle, put_bytes, Reader, new_reader, is_ok, get_u32, get_u64, get_i32,
  get_handle, get_bytes, read,
}
use vulkan_remote.Framing.Fields.{Field, put, encodings}
use vulkan_remote.Framing.RoundTrip.{Unread, skip-Unread, read_past, get_bytes-Unread, put_all_lem}
use vulkan_remote.Objects.Teardown.{ServerMemory, ObjectTables}
use vulkan_remote.Mapped.{Transfer, max_mapped_chunk}
use vulkan_remote.Transfers.{
  Driver, TransferHead, read_head, flush_read, flush_validated, validate_transfer, map_upload,
  result_writer, handle_FlushMappedMemory,
}

-- The request of one round of `flush_mapped`.
unfoldable pub flush_request : ℕ → Transfer → List ℕ
unfolding put_handle put_u64 put_bytes
flush_request remote_id t =
    let chunk = length t.bytes in
    let w₁ = put_handle (put_handle new_writer remote_id) t.memory in
    let w₂ = put_u64 (put_u64 w₁ t.offset) chunk in (put_bytes w₂ t.bytes chunk).m_data

-- VK_ERROR_DEVICE_LOST.
abbrev pub device_lost_code : ℤ
device_lost_code = negsuc 3

-- What the client makes of the reply.
unfoldable pub read_flush_reply : List ℕ → ℤ
unfolding get_u32 get_i32
read_flush_reply reply =
    let (status, r) = get_u32 (new_reader reply (length reply)) in
    let (result, r') = get_i32 r in
    if not (status == 0) then device_lost_code else if is_ok r' then result else device_lost_code

new_reader-Unread : (bytes : List ℕ) → Unread (new_reader bytes (length bytes)) bytes
new_reader-Unread bytes = record { sound = refl; sized = refl; within = omega arith; ahead = refl }

-- The fields of the request.
abbrev request_fields : ℕ → Transfer → List Field
request_fields remote_id t =
    Field.handle remote_id
    ∷ Field.handle t.memory
    ∷ Field.u64 t.offset
    ∷ Field.u64 (length t.bytes)
    ∷ Field.bytes t.bytes
    ∷ []

-- The values of the request are those of their C++ types, and the chunk is one that is taken.
pub record IsRequest (remote_id : ℕ) (t : Transfer) : Type 0 where
  pub device : remote_id < 2 ^ 64
  pub memory : t.memory < 2 ^ 64
  pub offset : t.offset < 2 ^ 64
  pub chunk : length t.bytes ≤ max_mapped_chunk

flush_request-encodings :
    (remote_id : ℕ) (t : Transfer)
    → IsRequest remote_id t
    → flush_request remote_id t ≡ encodings (request_fields remote_id t)
unfolding flush_request put
flush_request-encodings remote_id t q =
    put_all_lem new_writer (request_fields remote_id t)
      (q.device, (q.memory, (q.offset, (omega (arith, q.chunk), (omega (arith, q.chunk), tt)))))

-- A handle or a 64-bit number is read, and the reader goes on behind it.
read_word :
    (v : ℕ) (r : Reader) (rest : List ℕ)
    → v < 2 ^ 64
    → Unread r (le_bytes 8 v ++ rest)
    → (r' : Reader) × (read 8 r ≡ (v, r')) × Unread r' rest
read_word v r rest h u = (
  record r { m_pos = r.m_pos + length (le_bytes 8 v) },
  read_past 8 v r rest h u,
  skip-Unread r (le_bytes 8 v) rest u,
)

abbrev pub head_of : ℕ → Transfer → TransferHead
head_of remote_id t = record {
  device_id = remote_id;
  memory_id = t.memory;
  offset = t.offset;
  size = length t.bytes;
}

read_head_lem :
    (remote_id : ℕ) (t : Transfer) (rest : List ℕ) (r : Reader)
    → IsRequest remote_id t
    → Unread r (
        le_bytes 8 remote_id
        ++ (le_bytes 8 t.memory ++ (le_bytes 8 t.offset ++ (le_bytes 8 (length t.bytes) ++ rest))))
    → (r' : Reader) × (read_head r ≡ (head_of remote_id t, r')) × Unread r' rest
unfolding get_handle get_u64
read_head_lem remote_id t rest r q u =
    let (r₁, e₁, u₁) = read_word remote_id r _ q.device u in
    let (r₂, e₂, u₂) = read_word t.memory r₁ _ q.memory u₁ in
    let (r₃, e₃, u₃) = read_word t.offset r₂ _ q.offset u₂ in
    let (r₄, e₄, u₄) = read_word (length t.bytes) r₃ rest (omega (arith, q.chunk)) u₃ in
    (r₄, rw (e₁, e₂, e₃, e₄) refl, u₄)

abbrev reply_fields : ℤ → List Field
reply_fields result = Field.u32 0 ∷ Field.i32 result ∷ []

-- What the server writes for a result, the client reads as that result.
read_flush_reply-result_writer :
    (result : ℤ) → IsI32 result → read_flush_reply (result_writer result).m_data ≡ result
unfolding read_flush_reply put
read_flush_reply-result_writer result h =
    let bytes = (result_writer result).m_data in
    let written : bytes ≡ le_bytes 4 0 ++ (le_bytes 4 (to_u32 result) ++ []) =
      put_all_lem new_writer (reply_fields result) (omega arith, (h, tt)) in
    let u = subst (Unread (new_reader bytes (length bytes))) written (new_reader-Unread bytes) in
    let r = new_reader bytes (length bytes) in
    let r₁ = record r { m_pos = 0 + length (le_bytes 4 0) } in
    let e₁ = read_past 4 0 r (le_bytes 4 (to_u32 result) ++ []) (omega arith) u in
    let u₁ = skip-Unread r (le_bytes 4 0) (le_bytes 4 (to_u32 result) ++ []) u in
    let e₂ = read_past 4 (to_u32 result) r₁ [] (to_u32-lt result) u₁ in
    rw (e₁, e₂, of_u32-to_u32 result h) refl

module _ {S : Type 0} (driver : Driver S) (t : ObjectTables) (s : S) (remote_id : ℕ)
    (x : Transfer) where
  -- The server reads the request as the client wrote it.
  pub handle_FlushMappedMemory-flush_request :
      IsRequest remote_id x
      → handle_FlushMappedMemory driver t s (flush_request remote_id x)
        ≡ flush_validated driver s
            (head_of remote_id x)
            x.bytes
            (validate_transfer t remote_id x.memory x.offset (length x.bytes))
  unfolding handle_FlushMappedMemory
  handle_FlushMappedMemory-flush_request q =
      ap (handle_FlushMappedMemory driver t s) (flush_request-encodings remote_id x q) ∙ handled
    where
      payload : List ℕ
      payload = encodings (request_fields remote_id x)

      tail : List ℕ
      tail = (le_bytes 4 (length x.bytes) ++ x.bytes) ++ []

      handled :
          handle_FlushMappedMemory driver t s payload
          ≡ flush_validated driver s
              (head_of remote_id x)
              x.bytes
              (validate_transfer t remote_id x.memory x.offset (length x.bytes))
      handled =
          let (r, e, u) =
            read_head_lem remote_id x tail (new_reader payload (length payload)) q
              (new_reader-Unread payload) in
          let b =
            get_bytes-Unread max_mapped_chunk r x.bytes [] q.chunk (omega arith)
              (subst (Unread r) (append_assoc (le_bytes 4 (length x.bytes)) x.bytes []) u) in
          let r' = record r { m_pos = r.m_pos + 4 + length x.bytes } in
          ap (λ p. flush_read driver t s p.0 (get_bytes max_mapped_chunk p.1)) e
          ∙ (ap (flush_read driver t s (head_of remote_id x)) b
              ∙ if_true {c = length x.bytes == length x.bytes && is_ok r'} _ _
                  (ground (arith, u.sound)))

  -- A transfer of the client is carried out by the server, if it validates: the driver is left as by
  -- the upload of exactly those bytes to exactly that memory, and the client gets its result.
  pub flush_request-round_trip :
      (m : ServerMemory)
      → IsRequest remote_id x
      → validate_transfer t remote_id x.memory x.offset (length x.bytes) ≡ some m
      → IsI32 (map_upload driver s m x.offset (length x.bytes) x.bytes).0
      → let (reply, s') = handle_FlushMappedMemory driver t s (flush_request remote_id x) in
        (read_flush_reply reply, s') ≡ map_upload driver s m x.offset (length x.bytes) x.bytes
  flush_request-round_trip m q v i =
      let done = map_upload driver s m x.offset (length x.bytes) x.bytes in
      ap (λ p. (read_flush_reply p.0, p.1))
        (handle_FlushMappedMemory-flush_request q
          ∙ ap (flush_validated driver s (head_of remote_id x) x.bytes) v)
      ∙ ap (λ (k : ℤ). (k, done.1)) (read_flush_reply-result_writer done.0 i)
