-- ===== src/Mapped/Publish.antt =====
-- client/remote_objects.cpp: `RemoteDevice::publish_coherent_mapped`, which sends the bytes that the
-- host has changed since the baseline. `answer` says whether the server carries out a transfer, which
-- stands for the round trip, the status and the result of the reply.
pub mod Gaps
pub mod Sent
pub mod Mirror
pub mod All
mod Tests
use vulkan_remote.Base.{
  ℕ, zero, suc, ◌+◌, ◌-◌, min, Bool, true, false, not, ◌&&◌, ◌||◌, Option, none, some, List, [],
  ◌∷◌, ◌++◌,
}
use vulkan_remote.Base.Tests.{ltb, ◌==◌, if◌then◌else◌}
use vulkan_remote.Base.Lists.{length, take, drop, get_or}
use vulkan_remote.Mapped.{MappedRange, Transfer, max_mapped_chunk, write_at}

-- The first of at most `rounds` positions from `i` on where the test fails, or the one behind them.
unfoldable pub skip_while : (ℕ → Bool) → ℕ → ℕ → ℕ
skip_while test zero i = i
skip_while test (suc rounds) i =
    let rest = skip_while test rounds (i + 1) in if test i then rest else i

abbrev pub is_clean : MappedRange → List ℕ → ℕ → Bool
is_clean m baseline i = get_or m.shadow i 0 == get_or baseline i 0

abbrev pub gap_limit : ℕ
gap_limit = 4096

-- The end of a run of changed bytes: it bridges gaps of fewer than 4096 bytes. At most `rounds` gaps.
unfoldable pub run_end : ℕ → MappedRange → List ℕ → ℕ → ℕ
unfolding skip_while
run_end zero m baseline end = end
run_end (suc rounds) m baseline end =
    let gap_end = skip_while (is_clean m baseline) (min gap_limit (m.size - end)) end in
    let next = skip_while (λ i. not (is_clean m baseline i)) (m.size - gap_end) gap_end in
    let rest = run_end rounds m baseline next in
    if not (ltb end m.size)
    then end
    else if gap_end == m.size || gap_end - end == gap_limit
    then end
    else rest

-- Whether all went well, the baseline afterwards, and the transfers. `none`: more rounds are needed.
abbrev pub Sending : Type 0
Sending = Option Bool × List ℕ × List Transfer

abbrev pub send_piece :
    (Transfer → Bool) → MappedRange → List ℕ → ℕ → ℕ → (List ℕ → ℕ → Sending) → Sending
send_piece answer m baseline done chunk rest =
    let t : Transfer = record {
      memory = m.memory_id;
      offset = m.offset + done;
      bytes = take chunk (drop done m.shadow);
    } in
    let (result, baseline', ts) = rest (write_at done t.bytes baseline) (done + chunk) in
    if answer t then (result, baseline', t ∷ ts) else (some false, baseline, t ∷ [])

-- The bytes from `done` to `end`, chunk by chunk.
unfoldable pub send_run : (Transfer → Bool) → ℕ → MappedRange → ℕ → List ℕ → ℕ → Sending
unfolding write_at
send_run answer zero m end baseline done = (none, baseline, [])
send_run answer (suc rounds) m end baseline done =
    let sent =
      send_piece answer m baseline done (min max_mapped_chunk (end - done))
        (λ b d. send_run answer rounds m end b d) in
    if ltb done end then sent else (some true, baseline, [])

-- What follows a run.
abbrev pub after_run : (List ℕ → Sending) → Sending → Sending
after_run next (some true, baseline, ts) =
    let (result, baseline', us) = next baseline in (result, baseline', ts ++ us)
after_run next (some false, baseline, ts) = (some false, baseline, ts)
after_run next (none, baseline, ts) = (none, baseline, ts)

-- The loop over the runs of one mapping.
unfoldable pub publish_from : (Transfer → Bool) → ℕ → MappedRange → List ℕ → ℕ → Sending
unfolding skip_while run_end send_run
publish_from answer zero m baseline begin = (none, baseline, [])
publish_from answer (suc rounds) m baseline begin =
    let start = skip_while (is_clean m baseline) (m.size - begin) begin in
    let end = run_end m.size m baseline (start + 1) in
    let published =
      after_run (λ b. publish_from answer rounds m b end)
        (send_run answer (suc m.size) m end baseline start) in
    if not (ltb begin m.size)
    then (some true, baseline, [])
    else if start == m.size
    then (some true, baseline, [])
    else published

abbrev pub publish_mapping : (Transfer → Bool) → MappedRange → Sending
publish_mapping answer m = publish_from answer (suc m.size) m m.baseline 0

abbrev pub publish_rest :
    MappedRange
    → Option Bool × List MappedRange × List Transfer
    → List MappedRange
    → Sending
    → Option Bool × List MappedRange × List Transfer
publish_rest m (result, ms', us) ms (some true, baseline, ts) =
    (result, record m { baseline = baseline } ∷ ms', ts ++ us)
publish_rest m later ms (result, baseline, ts) = (result, record m { baseline = baseline } ∷ ms, ts)

-- All mappings in order; it stops at the first that fails.
unfoldable pub publish_coherent_mapped :
    (Transfer → Bool) → List MappedRange → Option Bool × List MappedRange × List Transfer
unfolding publish_from
publish_coherent_mapped answer [] = (some true, [], [])
publish_coherent_mapped answer (m ∷ ms) =
    let (result, ms', ts) = publish_coherent_mapped answer ms in
    let published = publish_rest m (result, ms', ts) ms (publish_mapping answer m) in
    if not m.emulated_coherent || not m.transfer_ready then (result, m ∷ ms', ts) else published
