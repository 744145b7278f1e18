-- ===== src/Framing/Messages.antt =====
-- common/wire.cpp: whole messages, a 16-byte header and a payload, over the socket loops.
use vulkan_remote.Base.{
  ℕ, ◌*◌, ◌^◌, ◌%◌, ◌≤◌, ◌<◌, ◌≡◌, refl, ap, sym, ◌∙◌, true, false, some, List, [], ◌∷◌, ◌++◌,
  append_assoc, append-nil, arith,
}
use mathlib.Core.Path.{ap₂}
use vulkan_remote.Base.Tests.{ltb, ◌==◌, if◌then◌else◌, lt→ltb}
use vulkan_remote.Base.Lists.{
  length, take, drop, length-append, take-length_append, drop-length_append,
}
use vulkan_remote.Base.Bytes.{
  le_bytes, of_le, length-le_bytes, of_le-take, drop-le_bytes, of_le-take_whole,
}
use vulkan_remote.Framing.Sockets.{
  IoResult, Outcome, returned, blocked, write_all, read_all, carry, write_all-carry, read_all-carry,
}

pub record MessageHeader : Type 0 where
  pub opcode : ℕ
  pub payload_size : ℕ
  pub request_id : ℕ

-- The struct in memory: its members have no padding between them.
unfoldable pub header_bytes : MessageHeader → List ℕ
header_bytes h = le_bytes 4 h.opcode ++ (le_bytes 4 h.payload_size ++ le_bytes 8 h.request_id)

unfoldable pub header_of : List ℕ → MessageHeader
header_of bs = record {
  opcode = of_le (take 4 bs);
  payload_size = of_le (take 4 (drop 4 bs));
  request_id = of_le (take 8 (drop 4 (drop 4 bs)));
}

abbrev pub max_payload : ℕ
max_payload = 64 * 1024 * 1024

abbrev then_payload : Outcome × List ℕ × List IoResult → List ℕ → Outcome × List ℕ × List IoResult
then_payload (returned true, sent, os) [] = (returned true, sent, os)
then_payload (returned true, sent, os) (b ∷ bs) =
    let (o, sent', os') = write_all os (b ∷ bs) in (o, sent ++ sent', os')
then_payload (returned false, sent, os) payload = (returned false, sent, os)
then_payload (blocked, sent, os) payload = (blocked, sent, os)

unfoldable pub send_message : List IoResult → ℕ → List ℕ → ℕ → Outcome × List ℕ × List IoResult
send_message os opcode payload request_id =
    let header : MessageHeader = record {
      opcode = opcode;
      payload_size = length payload % 2 ^ 32;
      request_id = request_id;
    } in
    then_payload (write_all os (header_bytes header)) payload

-- What `recv_message` leaves: its result, the header and the payload as far as they were filled,
-- the bytes still to come and the answers still to come.
pub record Received : Type 0 where
  pub outcome : Outcome
  pub header : MessageHeader
  pub payload : List ℕ
  pub coming : List ℕ
  pub os : List IoResult

abbrev zero_header : MessageHeader
zero_header = record { opcode = 0; payload_size = 0; request_id = 0 }

abbrev read_payload : MessageHeader → List ℕ → List IoResult → Received
read_payload h coming os =
    if ltb max_payload h.payload_size
    then record { outcome = returned false; header = h; payload = []; coming = coming; os = os }
    else if h.payload_size == 0
    then record { outcome = returned true; header = h; payload = []; coming = coming; os = os }
    else let (o, got, coming', os') = read_all os coming h.payload_size in
      record { outcome = o; header = h; payload = got; coming = coming'; os = os' }

abbrev after_header : Outcome × List ℕ × List ℕ × List IoResult → Received
after_header (returned true, got, coming, os) = read_payload (header_of got) coming os
after_header (returned false, got, coming, os) = record {
  outcome = returned false;
  header = zero_header;
  payload = [];
  coming = coming;
  os = os;
}
after_header (blocked, got, coming, os) = record {
  outcome = blocked;
  header = zero_header;
  payload = [];
  coming = coming;
  os = os;
}

unfoldable pub recv_message : List IoResult → List ℕ → Received
recv_message os coming = after_header (read_all os coming 16)

abbrev pub IsHeader : MessageHeader → Type 0
IsHeader h = (h.opcode < 2 ^ 32) × (h.payload_size < 2 ^ 32) × (h.request_id < 2 ^ 64)

length-header_bytes : (h : MessageHeader) → length (header_bytes h) ≡ 16
unfolding header_bytes
length-header_bytes h = omega (
  arith,
  length-append (le_bytes 4 h.opcode) (le_bytes 4 h.payload_size ++ le_bytes 8 h.request_id),
  length-append (le_bytes 4 h.payload_size) (le_bytes 8 h.request_id),
  length-le_bytes 4 h.opcode,
  length-le_bytes 4 h.payload_size,
  length-le_bytes 8 h.request_id,
)

header_of-header_bytes : (h : MessageHeader) → IsHeader h → header_of (header_bytes h) ≡ h
unfolding header_of header_bytes
header_of-header_bytes h (ho, hs, hr) =
    let tail = le_bytes 4 h.payload_size ++ le_bytes 8 h.request_id in
    simp (
      drop-le_bytes 4 h.opcode tail,
      drop-le_bytes 4 h.payload_size (le_bytes 8 h.request_id),
      of_le-take 4 h.opcode tail ho,
      of_le-take 4 h.payload_size (le_bytes 8 h.request_id) hs,
      of_le-take_whole 8 h.request_id hr,
    )

-- The bytes of a message on the wire.
abbrev pub message_bytes : ℕ → List ℕ → ℕ → List ℕ
message_bytes opcode payload request_id =
    header_bytes
      (record { opcode = opcode; payload_size = length payload; request_id = request_id })
    ++ payload

read_header :
    (os : List IoResult) (h : MessageHeader) (more : List ℕ) {os₁ : List IoResult}
    → carry os 16 ≡ some os₁
    → read_all os (header_bytes h ++ more) 16 ≡ (returned true, header_bytes h, more, os₁)
read_header os h more {os₁} c =
    read_all-carry os (header_bytes h ++ more) 16 enough c
    ∙ ap₂ (λ l r. (returned true, l, r, os₁))
        (ap (λ n. take n (header_bytes h ++ more)) size ∙ take-length_append (header_bytes h) more)
        (ap (λ n. drop n (header_bytes h ++ more)) size ∙ drop-length_append (header_bytes h) more)
  where
    size : 16 ≡ length (header_bytes h)
    size = sym (length-header_bytes h)

    enough : 16 ≤ length (header_bytes h ++ more)
    enough = omega (arith, length-header_bytes h, length-append (header_bytes h) more)

write_header :
    (os : List IoResult) (h : MessageHeader) {os₁ : List IoResult}
    → carry os 16 ≡ some os₁
    → write_all os (header_bytes h) ≡ (returned true, header_bytes h, os₁)
write_header os h c =
    write_all-carry os (header_bytes h) (ap (carry os) (length-header_bytes h) ∙ c)

then_payload-carry :
    (os₁ os₂ : List IoResult) (sent payload : List ℕ)
    → carry os₁ (length payload) ≡ some os₂
    → then_payload (returned true, sent, os₁) payload ≡ (returned true, sent ++ payload, os₂)
then_payload-carry os₁ os₂ sent [] c = rw append-nil (ground arith)
then_payload-carry os₁ os₂ sent (b ∷ bs) c = rw (write_all-carry os₁ (b ∷ bs) c)

read_payload-carry :
    (os₁ os₂ : List IoResult) (h : MessageHeader) (payload more : List ℕ)
    → h.payload_size ≡ length payload
    → length payload ≤ max_payload
    → carry os₁ (length payload) ≡ some os₂
    → read_payload h (payload ++ more) os₁
      ≡ record { outcome = returned true; header = h; payload = payload; coming = more; os = os₂ }
read_payload-carry os₁ os₂ h [] more e hp c = ground arith
read_payload-carry os₁ os₂ h (b ∷ bs) more e hp c =
    let p = b ∷ bs in
    ground (
      arith,
      read_all-carry os₁ (p ++ more) h.payload_size (omega (arith, length-append p more))
          (ap (carry os₁) e ∙ c),
      ap (λ n. take n (p ++ more)) e ∙ take-length_append p more,
      ap (λ n. drop n (p ++ more)) e ∙ drop-length_append p more,
    )

-- A message goes out whole if the system moves the header and then the payload.
send_message-carry :
    (os os₁ os₂ : List IoResult) (opcode request_id : ℕ) (payload : List ℕ)
    → length payload < 2 ^ 32
    → carry os 16 ≡ some os₁
    → carry os₁ (length payload) ≡ some os₂
    → send_message os opcode payload request_id
      ≡ (returned true, message_bytes opcode payload request_id, os₂)
unfolding send_message
send_message-carry os os₁ os₂ opcode request_id payload fits c₁ c₂ =
    let h : MessageHeader = record {
      opcode = opcode;
      payload_size = length payload % 2 ^ 32;
      request_id = request_id;
    } in
    ap (λ r. then_payload r payload) (write_header os h c₁)
    ∙ then_payload-carry os₁ os₂ (header_bytes h) payload c₂
    ∙ ap
        (λ n. (
          returned true,
          header_bytes (record { opcode = opcode; payload_size = n; request_id = request_id })
              ++ payload,
          os₂,
        ))
        small
  where
    small : length payload % 2 ^ 32 ≡ length payload
    small = omega arith

-- A message of at most 64 MiB, whose opcode and id fit their fields, is received as it was sent, and
-- what follows it in the stream is untouched, however the system cuts the transfer into pieces.
pub recv_message-message_bytes :
    (os os₁ os₂ : List IoResult) (opcode request_id : ℕ) (payload more : List ℕ)
    → opcode < 2 ^ 32
    → request_id < 2 ^ 64
    → length payload ≤ max_payload
    → carry os 16 ≡ some os₁
    → carry os₁ (length payload) ≡ some os₂
    → recv_message os (message_bytes opcode payload request_id ++ more) ≡ record {
      outcome = returned true;
      header = record { opcode = opcode; payload_size = length payload; request_id = request_id };
      payload = payload;
      coming = more;
      os = os₂;
    }
unfolding recv_message
recv_message-message_bytes os os₁ os₂ opcode request_id payload more ho hr hp c₁ c₂ =
    let h : MessageHeader = record {
      opcode = opcode;
      payload_size = length payload;
      request_id = request_id;
    } in
    ap (λ l. recv_message os l) (append_assoc (header_bytes h) payload more)
    ∙ ap after_header (read_header os h (payload ++ more) c₁)
    ∙ ap (λ h'. read_payload h' (payload ++ more) os₁)
        (header_of-header_bytes h (ho, omega arith, hr))
    ∙ read_payload-carry os₁ os₂ h payload more refl hp c₂

-- A header that announces more than 64 MiB ends the connection before anything is allocated or read
-- behind it.
recv_message_refuses :
    (os os₁ : List IoResult) (h : MessageHeader) (more : List ℕ)
    → IsHeader h
    → max_payload < h.payload_size
    → carry os 16 ≡ some os₁
    → recv_message os (header_bytes h ++ more)
      ≡ record { outcome = returned false; header = h; payload = []; coming = more; os = os₁ }
unfolding recv_message
recv_message_refuses os os₁ h more ih big c =
    ap after_header (read_header os h more c)
    ∙ ap (λ h'. read_payload h' more os₁) (header_of-header_bytes h ih)
    ∙ rw (lt→ltb max_payload h.payload_size big)
