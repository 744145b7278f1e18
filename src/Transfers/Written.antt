-- ===== src/Transfers/Written.antt =====
-- server/handlers_memory.cpp: bytes that several uploads, one behind the other, leave in a memory.
use vulkan_remote.Base.{
  ℕ, ◌+◌, ◌-◌, ◌≤◌, ◌<◌, ◌≡◌, refl, sym, ap, ◌∙◌, ◌⊎◌, inl, inr, List, [], ◌++◌, arith,
}
use vulkan_remote.Base.Lists.{length, drop, get_or, length-append, length-take, length-drop}
use vulkan_remote.Objects.Teardown.{ServerMemory}
use vulkan_remote.Transfers.{Driver}
use vulkan_remote.Mapped.Writes.{
  slice, get_or-write_at_inside, get_or-write_at_below, get_or-write_at_above, get_or_ext,
  get_or-append_left, get_or-append_right, get_or-take, get_or-drop,
}
use vulkan_remote.Transfers.Views.{Views}
use vulkan_remote.Transfers.Uploads.{IsIn, IsIn-or_out, Uploaded, IsSynced}

-- What a list of uploads does: the host sees the bytes from `p` on and the others as before, and the
-- device sees what the host sees at each of them and wherever it did so before.
module _ {S : Type 0} (driver : Driver S) (m : ServerMemory) (v : Views driver m) where
  pub record Written (s s' : S) (p : ℕ) (bytes : List ℕ) : Type 0 where
    pub inside : (i : ℕ) → IsIn p (length bytes) i → get_or (v.host s') i 0 ≡ get_or bytes (i - p) 0
    pub outside :
        (i : ℕ) → (i < p) ⊎ (p + length bytes ≤ i) → get_or (v.host s') i 0 ≡ get_or (v.host s) i 0
    pub synced :
        (i : ℕ) → IsIn p (length bytes) i ⊎ IsSynced driver m v s i → IsSynced driver m v s' i

  pub Uploaded-Written :
      (s s' : S) (p : ℕ) (bytes : List ℕ)
      → p + length bytes ≤ m.size
      → Uploaded driver m v s s' p bytes
      → Written s s' p bytes
  Uploaded-Written s s' p bytes h u =
      let fits : p + length bytes ≤ length (v.host s) = omega (arith, h, v.length_host s) in
      record {
        inside = λ i (low, high).
            ap (λ l. get_or l i 0) u.host
            ∙ get_or-write_at_inside p bytes (v.host s) i fits low high;
        outside = λ i out. ap (λ l. get_or l i 0) u.host ∙ (elim out [
          | inl l ↦ get_or-write_at_below p bytes (v.host s) i fits l
          | inr l ↦ get_or-write_at_above p bytes (v.host s) i fits l
        ]);
        synced = u.synced;
      }

  pub nothing-Written : (s : S) (p : ℕ) → Written s s p []
  nothing-Written s p = record {
    inside = λ i (low, high). absurd (omega (arith, low, high));
    outside = λ i out. refl;
    synced =
        λ i known. elim known [ inl (low, high) ↦ absurd (omega (arith, low, high)) | inr e ↦ e ];
  }

  -- Bytes behind other bytes.
  pub Written-append :
      (s s₁ s₂ : S) (p : ℕ) (xs ys : List ℕ)
      → Written s s₁ p xs
      → Written s₁ s₂ (p + length xs) ys
      → Written s s₂ p (xs ++ ys)
  Written-append s s₁ s₂ p xs ys f g =
      let size = length-append xs ys in
      record {
        inside = λ i (low, high). elim (IsIn-or_out p (length xs) i) [
          | inl (l, h) ↦
              g.outside i (inl h)
              ∙ (f.inside i (l, h) ∙ sym (get_or-append_left xs ys (i - p) (omega (arith, l, h))))
          | inr (inl l) ↦ absurd (omega (arith, l, low))
          | inr (inr l) ↦
              g.inside i (l, omega (arith, size, high))
              ∙ (ap (λ k. get_or ys k 0) {x = i - (p + length xs)} {y = i - p - length xs}
                    (omega arith)
                  ∙ sym (get_or-append_right xs ys (i - p) (omega (arith, l))))
        ];
        outside = λ i out. elim out [
          | inl l ↦ g.outside i (inl (omega (arith, l))) ∙ f.outside i (inl l)
          | inr l ↦
              g.outside i (inr (omega (arith, size, l)))
              ∙ f.outside i (inr (omega (arith, size, l)))
        ];
        synced = λ i known. elim known [
          | inl (low, high) ↦ elim (IsIn-or_out p (length xs) i) [
            | inl here ↦ g.synced i (inr (f.synced i (inl here)))
            | inr (inl l) ↦ absurd (omega (arith, l, low))
            | inr (inr l) ↦ g.synced i (inl (l, omega (arith, size, high)))
          ]
          | inr e ↦ g.synced i (inr (f.synced i (inr e)))
        ];
      }

  -- The device holds exactly the bytes.
  pub Written-device :
      (s s' : S) (p : ℕ) (bytes : List ℕ)
      → p + length bytes ≤ m.size
      → Written s s' p bytes
      → slice p (length bytes) (v.device s') ≡ bytes
  Written-device s s' p bytes h w =
      let size : length (slice p (length bytes) (v.device s')) ≡ length bytes = omega (
        arith,
        length-take (length bytes) (drop p (v.device s')),
        length-drop p (v.device s'),
        v.length_device s',
        h,
      ) in
      get_or_ext (slice p (length bytes) (v.device s')) bytes size (λ i l.
        let l' : i < length bytes = omega (arith, size, l) in
        get_or-take (length bytes) (drop p (v.device s')) i l'
        ∙ (get_or-drop p (v.device s') i
            ∙ (w.synced (p + i) (inl (omega arith, omega (arith, l')))
                ∙ (w.inside (p + i) (omega arith, omega (arith, l'))
                    ∙ ap (λ k. get_or bytes k 0) {x = p + i - p} {y = i} (omega arith)))))
