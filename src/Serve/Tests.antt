-- ===== src/Serve/Tests.antt =====
-- server/session.cpp, `Server::serve`: the theorems at a client that has shaken hands.
use vulkan_remote.Base.{ℕ, suc, ◌≡◌, ◌≢◌, refl, Bool, true, false, none, some, [], ◌∷◌, arith}
use vulkan_remote.Base.Tests.{ltb}
use vulkan_remote.Objects.Teardown.{ObjectTables}
use vulkan_remote.Objects.Samples.{tables}
use vulkan_remote.Workers.{new_workers}
use vulkan_remote.Serve.Decode.{Opcode, handshake, ping, device_wait_idle}
use vulkan_remote.Serve.Gate.{Rounds, rest, round, serve_message_gate}
use vulkan_remote.Base.Lists.{All}
use vulkan_remote.Serve.Waiting.{WaitResult, vk_timeout, wait_loop, wait_loop_ends}
use vulkan_remote.Serve.{
  Message, ServeState, Handled, is_handshake, status_bytes, pong, serve_message,
}

abbrev known : Opcode → Bool
known o = true

-- Every handler answers with an empty reply.
abbrev handler : Message → ObjectTables → ℕ → Handled
handler m t e = record {
  tables = t;
  oneway_errors = e;
  replied = some [];
  close_connection = false;
}

abbrev shaken : ServeState
shaken = record {
  tables = tables;
  oneway_errors = 0;
  workers = new_workers 8;
  handshake_complete = true;
}

abbrev idle : Message
idle = record {
  opcode = device_wait_idle;
  request_id = 3;
  payload = 1 ∷ 0 ∷ 0 ∷ 0 ∷ 0 ∷ 0 ∷ 0 ∷ 0 ∷ [];
}

abbrev pinged : Message
pinged = record { opcode = ping; request_id = 4; payload = [] }

abbrev fresh : ServeState
fresh = record shaken { handshake_complete = false }

abbrev greeting : Message
greeting = record { opcode = handshake; request_id = 2; payload = [] }

greeted : Rounds known handler (λ d. true) fresh (greeting ∷ pinged ∷ []) shaken
unfolding serve_message
greeted =
    round greeting ((2, []) ∷ []) none refl
      (round pinged ((4, status_bytes (pong pinged)) ∷ []) none refl (rest shaken))

serve_message_gate_example :
    (is_handshake handshake ≡ true)
    × (◌≢◌ {A = ℕ} 2 0)
    × All (λ n. is_handshake n.opcode ≡ false) (pinged ∷ [])
serve_message_gate_example =
    serve_message_gate known handler (λ d. true) refl fresh shaken greeting (pinged ∷ []) refl
      greeted

abbrev never : ℕ → Bool
never n = false

abbrev clock : ℕ → ℕ
clock n = n

abbrev silent : ℕ → ℕ → WaitResult
silent n slice = vk_timeout

wait_loop_ends_example :
    (r : WaitResult) × (wait_loop never clock silent 2 (suc (suc 2)) 0 true ≡ some r)
wait_loop_ends_example = wait_loop_ends never clock silent 2 (λ k. omega arith) (omega arith)

abbrev closes_at_two : ℕ → Bool
closes_at_two n = ltb 1 n
