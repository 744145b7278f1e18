-- ===== src/Wayland/Link/Messages.antt =====
-- wayland/wire.cpp: raw messages on a stream, as `encode_message` writes them.
use vulkan_remote.Base.{
  ℕ, ◌+◌, ◌*◌, ◌/◌, ◌%◌, ◌^◌, ◌≤◌, ◌<◌, ◌≡◌, refl, ap, ◌∙◌, some, List, ◌++◌, append_assoc, arith,
}
use vulkan_remote.Base.Tests.{ltb-ge}
use vulkan_remote.Base.Bits.{bit_or_disjoint}
use vulkan_remote.Base.Lists.{
  length, take, drop, length-append, take-length_append, drop-length_append,
}
use vulkan_remote.Base.Bytes.{le_bytes, of_le, length-le_bytes, of_le-take, drop-le_bytes}
use vulkan_remote.Wayland.{MessageSpec, DecodedArg}
use vulkan_remote.Wayland.Decode.{decode_message}
use vulkan_remote.Wayland.Encode.{encode_args, header2, encode_message}
use vulkan_remote.Wayland.RoundTrip.{Fits, decode_message-encode_args}
use vulkan_remote.Wayland.Link.{ok, malformed, take_wire_message}

-- The size field is the low 16 bits of the message's length, and the opcode is below it.
pub header2_lem :
    (n opcode : ℕ)
    → n ≤ 0xffff
    → opcode < 2 ^ 16
    → header2 n opcode ≡ (n + 8) % 2 ^ 16 * 2 ^ 16 + opcode
unfolding header2
header2_lem n opcode h k =
    let shifted : (n + 8) % 2 ^ 32 * 2 ^ 16 % 2 ^ 32 ≡ (n + 8) % 2 ^ 16 * 2 ^ 16 = omega arith in
    rw shifted (bit_or_disjoint 16 ((n + 8) % 2 ^ 16) opcode k)

abbrev pub message : ℕ → ℕ → List DecodedArg → List ℕ
message object_id opcode args =
    let body = encode_args args in
    le_bytes 4 object_id ++ (le_bytes 4 (header2 (length body) opcode) ++ body)

pub encode_message_lem :
    (object_id opcode : ℕ) (args : List DecodedArg)
    → length (encode_args args) ≤ 0xffff
    → encode_message object_id opcode args ≡ some (message object_id opcode args)
unfolding encode_message
encode_message_lem object_id opcode args h = rw (ltb-ge 0xffff (length (encode_args args)) h)

pub length-message :
    (object_id opcode : ℕ) (args : List DecodedArg)
    → length (message object_id opcode args) ≡ length (encode_args args) + 8
length-message object_id opcode args =
    let body = encode_args args in
    let word = le_bytes 4 (header2 (length body) opcode) in
    omega (
      arith,
      length-append (le_bytes 4 object_id) (word ++ body),
      length-append word body,
      length-le_bytes 4 object_id,
      length-le_bytes 4 (header2 (length body) opcode),
    )

pub drop_header :
    (object_id opcode : ℕ) (args : List DecodedArg)
    → drop 8 (message object_id opcode args) ≡ encode_args args
unfolding le_bytes
drop_header object_id opcode args = refl

-- The size that the receiving side reads.
size_field :
    (object_id opcode : ℕ) (args : List DecodedArg) (more : List ℕ)
    → length (encode_args args) ≤ 0xffff
    → opcode < 2 ^ 16
    → of_le (take 4 (drop 4 (message object_id opcode args ++ more))) / 2 ^ 16
      ≡ (length (encode_args args) + 8) % 2 ^ 16
size_field object_id opcode args more h k =
    let body = encode_args args in
    let n = header2 (length body) opcode in
    let tail = le_bytes 4 n ++ body in
    ap (λ l. of_le (take 4 (drop 4 l)) / 2 ^ 16)
      (append_assoc (le_bytes 4 object_id) tail more
        ∙ ap (◌++◌ (le_bytes 4 object_id)) (append_assoc (le_bytes 4 n) body more))
    ∙ ap (λ l. of_le (take 4 l) / 2 ^ 16)
        (drop-le_bytes 4 object_id (le_bytes 4 n ++ (body ++ more)))
    ∙ ap (λ (v : ℕ). v / 2 ^ 16)
        (of_le-take 4 n (body ++ more) (omega (arith, header2_lem (length body) opcode h k)))
    ∙ omega (arith, header2_lem (length body) opcode h k)

-- A message whose length fits the 16-bit size field, body at most 65,527 bytes, is taken off a stream
-- as it was encoded, and its body decodes to the arguments.
pub take_wire_message-encode_message :
    (msg : MessageSpec) (object_id opcode : ℕ) (args : List DecodedArg) (more : List ℕ)
    → opcode < 2 ^ 16
    → length (encode_args args) < 0xfff8
    → Fits msg.args args
    → (whole : List ℕ) × (encode_message object_id opcode args ≡ some whole)
      × (take_wire_message (whole ++ more) ≡ ok whole more)
      × (decode_message msg (drop 8 whole) ≡ some args)
unfolding take_wire_message
take_wire_message-encode_message msg object_id opcode args more k h f =
    let whole = message object_id opcode args in
    let size = of_le (take 4 (drop 4 (whole ++ more))) / 2 ^ 16 in
    let exact : size ≡ length whole = omega (
      arith,
      size_field object_id opcode args more (omega arith) k,
      length-message object_id opcode args,
    ) in
    (
      whole,
      encode_message_lem object_id opcode args (omega arith),
      ground (
        arith,
        exact,
        length-append whole more,
        length-message object_id opcode args,
        ap (λ n. take n (whole ++ more)) exact ∙ take-length_append whole more,
        ap (λ n. drop n (whole ++ more)) exact ∙ drop-length_append whole more,
      ),
      ap (decode_message msg) (drop_header object_id opcode args)
          ∙ decode_message-encode_args msg args f,
    )

-- The encoder's own limit, a body of 65,535 bytes, is too high: with 65,528 to 65,535 bytes the size
-- field wraps, the encoder reports success, and the receiving side calls the stream malformed.
pub encode_message_wraps :
    (object_id opcode : ℕ) (args : List DecodedArg) (more : List ℕ)
    → opcode < 2 ^ 16
    → 0xfff8 ≤ length (encode_args args)
    → length (encode_args args) ≤ 0xffff
    → (whole : List ℕ) × (encode_message object_id opcode args ≡ some whole)
      × (take_wire_message (whole ++ more) ≡ malformed)
unfolding take_wire_message
encode_message_wraps object_id opcode args more k low high = (
  message object_id opcode args,
  encode_message_lem object_id opcode args high,
  ground (
    arith,
    size_field object_id opcode args more high k,
    length-append (message object_id opcode args) more,
    length-message object_id opcode args,
  ),
)
