-- ===== src/Mapped/Publish/Sent.antt =====
-- client/remote_objects.cpp: the loop of `publish_coherent_mapped` over the chunks of a run.
use vulkan_remote.Base.{
  ℕ, zero, suc, ◌+◌, ◌-◌, ◌≤◌, ◌<◌, ◌≡◌, refl, sym, ap, ◌∙◌, inl, inr, min, Bool, true, false, ◌&&◌,
  some, List, [], ◌∷◌, arith,
}
use vulkan_remote.Base.Tests.{ltb, if◌then◌else◌, Bool-cases, if_true, if_false}
use vulkan_remote.Base.Lists.{length, take, drop, get_or, length-take, length-drop}
use vulkan_remote.Mapped.{MappedRange, Transfer, max_mapped_chunk, write_at}
use vulkan_remote.Mapped.Writes.{
  length-write_at, get_or-write_at_below, get_or-write_at_inside, get_or-take, get_or-drop,
}
use vulkan_remote.Mapped.Publish.{Sending, send_piece, send_run}

-- The bytes that the server has after the transfers it has carried out.
abbrev pub applied : (Transfer → Bool) → MappedRange → List Transfer → List ℕ → List ℕ
applied answer m [] bytes = bytes
applied answer m (t ∷ ts) bytes =
    applied answer m ts (if answer t then write_at (t.offset - m.offset) t.bytes bytes else bytes)

-- Whether the server has carried out all transfers.
abbrev pub all_accepted : (Transfer → Bool) → List Transfer → Bool
all_accepted answer [] = true
all_accepted answer (t ∷ ts) = answer t && all_accepted answer ts

-- What sending leaves: it comes to an end, the new baseline is what the server has if the old one was,
-- and on success it holds the bytes of the host from `begin` to `end`; what is before `begin` stays.
pub record Sent (answer : Transfer → Bool) (m : MappedRange) (begin end : ℕ) (baseline : List ℕ)
    (r : Sending) : Type 0 where
  pub total : (b : Bool) × (r.0 ≡ some b)
  pub honest : r.0 ≡ some (all_accepted answer r.2)
  pub sized : length r.1 ≡ length baseline
  pub mirrored : r.1 ≡ applied answer m r.2 baseline
  pub before : (i : ℕ) → i < begin → get_or r.1 i 0 ≡ get_or baseline i 0
  pub equal : r.0 ≡ some true → (i : ℕ) → begin ≤ i → i < end → get_or r.1 i 0 ≡ get_or m.shadow i 0

module _ (answer : Transfer → Bool) (m : MappedRange) where
  abbrev piece : ℕ → ℕ → Transfer
  piece done chunk = record {
    memory = m.memory_id;
    offset = m.offset + done;
    bytes = take chunk (drop done m.shadow);
  }

  accepted-Sent :
      (end done chunk : ℕ) (baseline : List ℕ) (r : Sending)
      → length m.shadow ≡ length baseline
      → done + chunk ≤ end
      → end ≤ length m.shadow
      → answer (piece done chunk) ≡ true
      → Sent answer m (done + chunk) end (write_at done (piece done chunk).bytes baseline) r
      → Sent answer m done end baseline (r.0, r.1, piece done chunk ∷ r.2)
  accepted-Sent end done chunk baseline r e fits l accepted s =
      let bytes = (piece done chunk).bytes in
      let width : length bytes ≡ chunk =
        omega (arith, length-take chunk (drop done m.shadow), length-drop done m.shadow, fits, l) in
      let inside : done + length bytes ≤ length baseline = omega (arith, width, e, fits, l) in
      record {
        total = s.total;
        honest = s.honest ∙ ground (arith, accepted);
        sized = s.sized ∙ length-write_at done bytes baseline inside;
        mirrored =
            s.mirrored
            ∙ ap (applied answer m r.2) (
                ap (λ p. write_at p bytes baseline) {x = done} {y = m.offset + done - m.offset}
                  (omega arith)
                ∙ sym (
                    if_true (write_at (m.offset + done - m.offset) bytes baseline) baseline
                      accepted));
        before = λ i h.
            s.before i (omega (arith, h)) ∙ get_or-write_at_below done bytes baseline i inside h;
        equal = λ ok i low high. elim (Bool-cases (ltb i (done + chunk))) [
          | inl here ↦
              s.before i (ground (arith, here))
              ∙ (get_or-write_at_inside done bytes baseline i inside low
                    (ground (arith, here, width))
                  ∙ (get_or-take chunk (drop done m.shadow) (i - done) (ground (arith, here, low))
                      ∙ (get_or-drop done m.shadow (i - done)
                          ∙ ap (λ k. get_or m.shadow k 0) {x = done + (i - done)} {y = i}
                              (omega (arith, low)))))
          | inr later ↦ s.equal ok i (ground (arith, later)) high
        ];
      }

  refused-Sent :
      (end done chunk : ℕ) (baseline : List ℕ)
      → answer (piece done chunk) ≡ false
      → Sent answer m done end baseline (some false, baseline, piece done chunk ∷ [])
  refused-Sent end done chunk baseline refused = record {
    total = (false, refl);
    honest = ground (arith, refused);
    sized = refl;
    mirrored = sym (
        if_false (write_at (m.offset + done - m.offset) (piece done chunk).bytes baseline) baseline
          refused);
    before = λ i h. refl;
    equal = λ ok i low high. ground (arith, ok);
  }

  pub nothing-Sent :
      (begin end : ℕ) (baseline : List ℕ)
      → ((i : ℕ) → begin ≤ i → i < end → get_or baseline i 0 ≡ get_or m.shadow i 0)
      → Sent answer m begin end baseline (some true, baseline, [])
  nothing-Sent begin end baseline h = record {
    total = (true, refl);
    honest = refl;
    sized = refl;
    mirrored = refl;
    before = λ i l. refl;
    equal = λ ok. h;
  }

  send_piece-Sent :
      (end done chunk : ℕ) (baseline : List ℕ) (rest : List ℕ → ℕ → Sending)
      → length m.shadow ≡ length baseline
      → done + chunk ≤ end
      → end ≤ length m.shadow
      → ((b : List ℕ)
          → length m.shadow ≡ length b
          → Sent answer m (done + chunk) end b (rest b (done + chunk)))
      → Sent answer m done end baseline (send_piece answer m baseline done chunk rest)
  send_piece-Sent end done chunk baseline rest e fits l f =
      let t = piece done chunk in
      let r = rest (write_at done t.bytes baseline) (done + chunk) in
      let width : length t.bytes ≡ chunk =
        omega (arith, length-take chunk (drop done m.shadow), length-drop done m.shadow, fits, l) in
      elim (Bool-cases (answer t)) [
        | inl accepted ↦
            rw
              (if_true {A = Sending} {c = answer t} (r.0, r.1, t ∷ r.2)
                (some false, baseline, t ∷ []) accepted)
              (accepted-Sent end done chunk baseline r e fits l accepted (
                f (write_at done t.bytes baseline) (
                  e
                  ∙ sym
                      (length-write_at done t.bytes baseline (omega (arith, width, e, fits, l))))))
        | inr refused ↦
            rw
              (if_false {A = Sending} {c = answer t} (r.0, r.1, t ∷ r.2)
                (some false, baseline, t ∷ []) refused)
              (refused-Sent end done chunk baseline refused)
      ]

  -- A run is sent, or sending stops at the first chunk that is refused.
  pub send_run-Sent :
      (rounds end : ℕ) (baseline : List ℕ) (done : ℕ)
      → length m.shadow ≡ length baseline
      → end ≤ length m.shadow
      → end - done < rounds
      → Sent answer m done end baseline (send_run answer rounds m end baseline done)
  unfolding send_run
  send_run-Sent zero end baseline done e l h = absurd (omega (arith, h))
  send_run-Sent (suc rounds) end baseline done e l h =
      let chunk = min max_mapped_chunk (end - done) in
      let sent =
        send_piece answer m baseline done chunk (λ b d. send_run answer rounds m end b d) in
      elim (Bool-cases (ltb done end)) [
        | inl more ↦ rw (if_true {c = ltb done end} sent (some true, baseline, []) more) (
            send_piece-Sent end done chunk baseline (λ b d. send_run answer rounds m end b d) e
              (ground (arith, more)) l
              (λ b eb. send_run-Sent rounds end b (done + chunk) eb l (ground (arith, more, h))))
        | inr over ↦ rw (if_false {c = ltb done end} sent (some true, baseline, []) over) (
            nothing-Sent done end baseline (λ i low high. absurd (ground (arith, over, low, high))))
      ]
