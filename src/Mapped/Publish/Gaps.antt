-- ===== src/Mapped/Publish/Gaps.antt =====
-- client/remote_objects.cpp: the loops of `publish_coherent_mapped` that look for the changed bytes.
use vulkan_remote.Base.{
  ℕ, zero, suc, ◌+◌, ◌-◌, ◌≤◌, ◌<◌, ◌≡◌, sym, ap, ◌∙◌, inl, inr, min, Bool, true, false, not, ◌||◌,
  List, arith,
}
use vulkan_remote.Base.Tests.{ltb, ◌==◌, if◌then◌else◌, Bool-cases, if_true, if_false, equal_or_not}
use vulkan_remote.Mapped.{MappedRange}
use vulkan_remote.Mapped.Publish.{skip_while, is_clean, gap_limit, run_end}

-- Where `skip_while` stops: every position that it passes has passed the test.
pub record Skipped (test : ℕ → Bool) (i rounds j : ℕ) : Type 0 where
  pub low : i ≤ j
  pub high : j ≤ i + rounds
  pub passed : (k : ℕ) → i ≤ k → k < j → test k ≡ true
  pub stops : j < i + rounds → test j ≡ false

pub skip_while-Skipped :
    (test : ℕ → Bool) (rounds i : ℕ) → Skipped test i rounds (skip_while test rounds i)
unfolding skip_while
skip_while-Skipped test zero i = record {
  low = omega arith;
  high = omega arith;
  passed = λ k l h. absurd (omega (arith, l, h));
  stops = λ l. absurd (omega (arith, l));
}
skip_while-Skipped test (suc rounds) i = elim (Bool-cases (test i)) [
  | inl e ↦
      let rest = skip_while-Skipped test rounds (i + 1) in
      rw (if_true (skip_while test rounds (i + 1)) i e) (record {
        low = omega (arith, rest.low);
        high = omega (arith, rest.high);
        passed = λ k l h. elim (equal_or_not k i) [
          | inl same ↦ ap test same ∙ e
          | inr other ↦ rest.passed k (omega (arith, l, other)) h
        ];
        stops = λ l. rest.stops (omega (arith, l));
      })
  | inr e ↦ rw (if_false (skip_while test rounds (i + 1)) i e) (record {
    low = omega arith;
    high = omega arith;
    passed = λ k l h. absurd (omega (arith, l, h));
    stops = λ l. e;
  })
]

-- The end of a run is not before where the search starts, and in the mapping.
pub run_end-bounds :
    (rounds : ℕ) (m : MappedRange) (baseline : List ℕ) (end : ℕ)
    → end ≤ m.size
    → (end ≤ run_end rounds m baseline end) × (run_end rounds m baseline end ≤ m.size)
unfolding run_end
run_end-bounds zero m baseline end h = (omega arith, h)
run_end-bounds (suc rounds) m baseline end h =
    let clean = is_clean m baseline in
    let gap = skip_while-Skipped clean (min gap_limit (m.size - end)) end in
    let gap_end = skip_while clean (min gap_limit (m.size - end)) end in
    let run = skip_while-Skipped (λ i. not (clean i)) (m.size - gap_end) gap_end in
    let rest =
      run_end-bounds rounds m baseline (skip_while (λ i. not (clean i)) (m.size - gap_end) gap_end)
        (omega (arith, run.high, gap.high, h)) in
    ground (arith, gap.low, gap.high, run.low, run.high, rest.0, rest.1, h)

module _ (m : MappedRange) (baseline : List ℕ) (end : ℕ) where
  abbrev gap_end_of : ℕ
  gap_end_of = skip_while (is_clean m baseline) (min gap_limit (m.size - end)) end

  abbrev next_gap : ℕ
  next_gap = skip_while (λ i. not (is_clean m baseline i)) (m.size - gap_end_of) gap_end_of

  abbrev is_last_gap : Bool
  is_last_gap = gap_end_of == m.size || gap_end_of - end == gap_limit

  -- A round of the search that is not the last one gets on.
  next_gap-later : end < m.size → is_last_gap ≡ false → (end < next_gap) × (next_gap ≤ m.size)
  next_gap-later h l =
      let gap = skip_while-Skipped (is_clean m baseline) (min gap_limit (m.size - end)) end in
      let run =
        skip_while-Skipped (λ i. not (is_clean m baseline i)) (m.size - gap_end_of) gap_end_of in
      let dirty : is_clean m baseline gap_end_of ≡ false =
        gap.stops (ground (arith, h, l, gap.low, gap.high)) in
      let inside : gap_end_of < m.size = ground (arith, h, l, gap.high) in
      (
        elim (equal_or_not next_gap gap_end_of) [
          | inl same ↦
              let stuck : not (is_clean m baseline next_gap) ≡ false =
                run.stops (omega (arith, same, inside)) in
              absurd (
                ground (
                  arith,
                  dirty,
                  ap (λ i. not (is_clean m baseline i)) {x = gap_end_of} {y = next_gap} (sym same)
                      ∙ stuck,
                ))
          | inr other ↦ omega (arith, other, run.low, gap.low)
        ],
        omega (arith, run.high, inside),
      )

  round_again :
      (x y : ℕ)
      → (end < m.size → is_last_gap ≡ false → x ≡ y)
      → (if not (ltb end m.size) then end else if is_last_gap then end else x)
        ≡ (if not (ltb end m.size) then end else if is_last_gap then end else y)
  round_again x y f = elim (Bool-cases (ltb end m.size)) [
    | inl in_range ↦ elim (Bool-cases is_last_gap) [
      | inl last ↦ ground (arith, in_range, last)
      | inr more ↦ ground (arith, in_range, more, f (ground (arith, in_range)) more)
    ]
    | inr over ↦ ground (arith, over)
  ]

-- The search for the end of a run has rounds enough: with another one it finds the same.
run_end_rounds :
    (rounds : ℕ) (m : MappedRange) (baseline : List ℕ) (end : ℕ)
    → end ≤ m.size
    → m.size - end ≤ rounds
    → run_end (suc rounds) m baseline end ≡ run_end rounds m baseline end
unfolding run_end
run_end_rounds zero m baseline end h l = ground (arith, h, l)
run_end_rounds (suc rounds) m baseline end h l =
    round_again m baseline end (run_end (suc rounds) m baseline (next_gap m baseline end))
      (run_end rounds m baseline (next_gap m baseline end))
      (λ in_range more.
        let (later, inside) = next_gap-later m baseline end in_range more in
        run_end_rounds rounds m baseline (next_gap m baseline end) inside (omega (arith, l, later)))
