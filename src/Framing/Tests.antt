-- ===== src/Framing/Tests.antt =====
-- common/wire.hpp and common/wire.cpp: concrete runs, and the theorems at concrete inputs.
use vulkan_remote.Base.{
  ℕ, ◌+◌, ◌*◌, ◌≡◌, refl, true, false, none, some, List, [], ◌∷◌, ◌++◌, map, arith,
}
use vulkan_remote.Base.Lists.{length, replicate}
use vulkan_remote.Base.Bytes.{le_bytes, of_le}
use vulkan_remote.Base.Words.{negsuc}
use vulkan_remote.Framing.{
  Reader, new_writer, new_reader, remaining, read, get_bytes, put_u32, strlen,
}
use vulkan_remote.Framing.Fields.{Field, kind, put_all, get_all}
use vulkan_remote.Framing.RoundTrip.{get_all-put_all}
use vulkan_remote.Framing.Sockets.{
  IoResult, moved, interrupted, timed_out, returned, write_all, write_all-carry,
}
use vulkan_remote.Framing.Messages.{
  MessageHeader, message_bytes, recv_message, recv_message-message_bytes,
}

abbrev fields : List Field
fields =
    Field.u32 7 ∷ Field.i32 (negsuc 4) ∷ Field.string (104 ∷ 105 ∷ []) ∷ Field.u64 0x100000000 ∷ []

abbrev sent : List ℕ
sent = (put_all new_writer fields).m_data

get_all-put_all_example :
    (r' : Reader) × (get_all
        (map kind fields)
        (new_reader (sent ++ (9 ∷ [])) (length (sent ++ (9 ∷ []))))
      ≡ (some fields, r'))
    × (r'.m_failed ≡ false)
    × (remaining r' ≡ 1)
unfolding strlen
get_all-put_all_example = get_all-put_all fields (9 ∷ []) (omega arith)

put_u32_bytes : (put_u32 new_writer 0x01020304).m_data ≡ 4 ∷ 3 ∷ 2 ∷ 1 ∷ []
unfolding put_u32 le_bytes
put_u32_bytes = refl

-- A length that promises more than there is fails the reader.
short_blob : (get_bytes 100 (new_reader (5 ∷ 0 ∷ 0 ∷ 0 ∷ 1 ∷ []) 5)).0 ≡ none
unfolding get_bytes read of_le
short_blob = refl

abbrev blob_reader : Reader
blob_reader = new_reader (1 ∷ 0 ∷ 0 ∷ 0 ∷ 8 ∷ 9 ∷ []) 6

abbrev answers : List IoResult
answers = moved 10 ∷ interrupted ∷ moved 6 ∷ moved 1 ∷ moved 5 ∷ timed_out ∷ []

write_all-carry_example :
    write_all answers (replicate 16 3)
    ≡ (returned true, replicate 16 3, moved 1 ∷ moved 5 ∷ timed_out ∷ [])
write_all-carry_example = write_all-carry answers (replicate 16 3) refl

abbrev payload : List ℕ
payload = 1 ∷ 2 ∷ 3 ∷ []

recv_message-message_bytes_example :
    recv_message answers (message_bytes 5 payload 77 ++ (4 ∷ [])) ≡ record {
      outcome = returned true;
      header = record { opcode = 5; payload_size = 3; request_id = 77 };
      payload = payload;
      coming = 4 ∷ [];
      os = timed_out ∷ [];
    }
recv_message-message_bytes_example =
    recv_message-message_bytes answers (moved 1 ∷ moved 5 ∷ timed_out ∷ []) (timed_out ∷ []) 5 77
      payload (4 ∷ []) (omega arith) (omega arith) (omega arith) refl refl

abbrev huge : MessageHeader
huge = record { opcode = 1; payload_size = 64 * 1024 * 1024 + 1; request_id = 2 }
