-- ===== src/Mapped/Publish/Mirror.antt =====
-- client/remote_objects.cpp: what `publish_coherent_mapped` leaves in the baseline of a mapping and at
-- the server.
use vulkan_remote.Base.{
  ℕ, zero, suc, ◌+◌, ◌-◌, ◌≤◌, ◌<◌, ◌≡◌, refl, sym, ap, ◌∙◌, inl, inr, Bool, true, false, not, ◌&&◌,
  none, some, List, [], ◌∷◌, ◌++◌, arith,
}
use vulkan_remote.Base.Tests.{ltb, ◌==◌, if◌then◌else◌, Bool-cases}
use vulkan_remote.Base.Lists.{length, get_or}
use vulkan_remote.Mapped.{MappedRange, Transfer, write_at}
use vulkan_remote.Mapped.Publish.{
  skip_while, is_clean, run_end, Sending, send_run, after_run, publish_from, publish_mapping,
}
use vulkan_remote.Mapped.Publish.Gaps.{skip_while-Skipped, run_end-bounds}
use vulkan_remote.Mapped.Publish.Sent.{applied, all_accepted, Sent, nothing-Sent, send_run-Sent}

module _ (answer : Transfer → Bool) (m : MappedRange) where
  applied-append :
      (ts us : List Transfer) (bytes : List ℕ)
      → applied answer m (ts ++ us) bytes ≡ applied answer m us (applied answer m ts bytes)
  applied-append [] us bytes = refl
  applied-append (t ∷ ts) us bytes =
      applied-append ts us
        (if answer t then write_at (t.offset - m.offset) t.bytes bytes else bytes)

  all_accepted-append :
      (ts us : List Transfer)
      → all_accepted answer (ts ++ us) ≡ (all_accepted answer ts && all_accepted answer us)
  all_accepted-append [] us = refl
  all_accepted-append (t ∷ ts) us = ground (arith, all_accepted-append ts us)

  -- A run behind bytes that are the same on both sides, and what follows it.
  after_run-Sent :
      (begin start end : ℕ) (baseline : List ℕ) (r : Sending) (next : List ℕ → Sending)
      → begin ≤ start
      → start ≤ end
      → ((i : ℕ) → begin ≤ i → i < start → get_or baseline i 0 ≡ get_or m.shadow i 0)
      → Sent answer m start end baseline r
      → ((b : List ℕ) → length b ≡ length baseline → Sent answer m end m.size b (next b))
      → Sent answer m begin m.size baseline (after_run next r)
  after_run-Sent begin start end baseline (some true, b, ts) next h k same s f =
      let n = f b s.sized in
      record {
        total = n.total;
        honest = n.honest ∙ ground (arith, s.honest, all_accepted-append ts (next b).2);
        sized = n.sized ∙ s.sized;
        mirrored =
            n.mirrored
            ∙ (ap (applied answer m (next b).2) s.mirrored
                ∙ sym (applied-append ts (next b).2 baseline));
        before = λ i l. n.before i (omega (arith, l, h, k)) ∙ s.before i (omega (arith, l, h));
        equal = λ ok i low high. elim (Bool-cases (ltb i end)) [
          | inl early ↦ n.before i (ground (arith, early)) ∙ elim (Bool-cases (ltb i start)) [
            | inl skipped ↦
                s.before i (ground (arith, skipped)) ∙ same i low (ground (arith, skipped))
            | inr sent ↦ s.equal refl i (ground (arith, sent)) (ground (arith, early))
          ]
          | inr late ↦ n.equal ok i (ground (arith, late)) high
        ];
      }
  after_run-Sent begin start end baseline (some false, b, ts) next h k same s f = record {
    total = (false, refl);
    honest = s.honest;
    sized = s.sized;
    mirrored = s.mirrored;
    before = λ i l. s.before i (omega (arith, l, h));
    equal = λ ok i low high. ground (arith, ok);
  }
  after_run-Sent begin start end baseline (none, b, ts) next h k same s f =
      let (v, e) = s.total in ground (arith, e)

  published_if :
      (c d : Bool) (begin : ℕ) (baseline : List ℕ) (r : Sending)
      → (c ≡ true → Sent answer m begin m.size baseline (some true, baseline, []))
      → (d ≡ true → Sent answer m begin m.size baseline (some true, baseline, []))
      → (c ≡ false → d ≡ false → Sent answer m begin m.size baseline r)
      → Sent answer m begin m.size baseline
          (if c then (some true, baseline, []) else if d then (some true, baseline, []) else r)
  published_if true d begin baseline r f g h = f refl
  published_if false true begin baseline r f g h = g refl
  published_if false false begin baseline r f g h = h refl refl

  publish_from-Sent :
      (rounds : ℕ) (baseline : List ℕ) (begin : ℕ)
      → length m.shadow ≡ m.size
      → length baseline ≡ m.size
      → begin ≤ m.size
      → m.size - begin < rounds
      → Sent answer m begin m.size baseline (publish_from answer rounds m baseline begin)
  unfolding publish_from
  publish_from-Sent zero baseline begin e eb l h = absurd (omega (arith, h))
  publish_from-Sent (suc rounds) baseline begin e eb l h =
      let start = skip_while (is_clean m baseline) (m.size - begin) begin in
      let clean = skip_while-Skipped (is_clean m baseline) (m.size - begin) begin in
      let end = run_end m.size m baseline (start + 1) in
      let same : (i : ℕ) → begin ≤ i → i < start → get_or baseline i 0 ≡ get_or m.shadow i 0 =
        λ i low high. ground (arith, clean.passed i low high) in
      published_if (not (ltb begin m.size)) (start == m.size) begin baseline
        (after_run (λ b. publish_from answer rounds m b end)
          (send_run answer (suc m.size) m end baseline start))
        (λ c.
          nothing-Sent answer m begin m.size baseline
            (λ i low high. absurd (ground (arith, c, low, high))))
        (λ d.
          nothing-Sent answer m begin m.size baseline
            (λ i low high. same i low (ground (arith, d, high))))
        (λ c d.
          let bounds =
            run_end-bounds m.size m baseline (start + 1) (ground (arith, c, d, clean.high)) in
          after_run-Sent begin start end baseline
            (send_run answer (suc m.size) m end baseline start)
            (λ b. publish_from answer rounds m b end) clean.low (omega (arith, bounds.0)) same
            (send_run-Sent answer m (suc m.size) end baseline start (omega (arith, e, eb))
              (omega (arith, bounds.1, e)) (omega (arith, bounds.1)))
            (λ b q.
              publish_from-Sent rounds b end e (q ∙ eb) bounds.1
                (ground (arith, bounds.0, clean.low, h, c))))

  -- It succeeds if all transfers are carried out, and only then.
  pub publish_mapping_honest :
      length m.shadow ≡ m.size
      → length m.baseline ≡ m.size
      → (publish_mapping answer m).0 ≡ some (all_accepted answer (publish_mapping answer m).2)
  publish_mapping_honest e eb =
      (publish_from-Sent (suc m.size) m.baseline 0 e eb (omega arith) (omega arith)).honest
