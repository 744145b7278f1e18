-- ===== src/Objects/Unique.antt =====
-- server/objects.hpp: `add_unique` gives one id to one native object of a device.
use vulkan_remote.Base.{
  ℕ, suc, ◌+◌, ◌-◌, ◌<◌, ◌≡◌, inl, inr, refl, ap, ◌∙◌, ◌&&◌, Option, none, some, List, [], ◌∷◌,
  ◌++◌, arith,
}
use vulkan_remote.Base.Tests.{◌==◌, Bool-cases}
use vulkan_remote.Base.Lists.{length, get_or, length-append}
use vulkan_remote.Objects.{Table, add, find_slot, or_add, add_unique, get, owner, IsPaired}

-- Slot `k` holds the object for the device.
record Holds (slots owners : List ℕ) (value device k : ℕ) : Type 0 where
  in_slots : k < length slots
  in_owners : k < length owners
  slot : get_or slots k 0 ≡ value
  owned : get_or owners k 0 ≡ device

find_slot_sound :
    (value device i : ℕ) (slots owners : List ℕ) {j : ℕ}
    → find_slot value device i slots owners ≡ some j
    → (k : ℕ) × (j ≡ i + k) × Holds slots owners value device k
unfolding find_slot
find_slot_sound value device i [] owners e = cc
find_slot_sound value device i (s ∷ slots) [] e = cc
find_slot_sound value device i (s ∷ slots) (o ∷ owners) {j} e =
    elim (Bool-cases (s == value && o == device)) [
      | inl here ↦ (
        0,
        ground arith,
        record {
          in_slots = omega arith;
          in_owners = omega arith;
          slot = ground arith;
          owned = ground arith;
        },
      )
      | inr there ↦
          let (k, q, h) = find_slot_sound value device (i + 1) slots owners (rw there at e) in
          (
            suc k,
            omega arith,
            record {
              in_slots = omega (arith, h.in_slots);
              in_owners = omega (arith, h.in_owners);
              slot = h.slot;
              owned = h.owned;
            },
          )
    ]

find_slot-append :
    (value device i : ℕ) (slots owners : List ℕ)
    → length owners ≡ length slots
    → find_slot value device i slots owners ≡ none
    → find_slot value device i (slots ++ (value ∷ [])) (owners ++ (device ∷ []))
      ≡ some (i + length slots)
unfolding find_slot
find_slot-append value device i [] [] h e = ground arith
find_slot-append value device i [] (o ∷ owners) h e = absurd (omega arith)
find_slot-append value device i (s ∷ slots) [] h e = absurd (omega arith)
find_slot-append value device i (s ∷ slots) (o ∷ owners) h e =
    ground (arith, find_slot-append value device (i + 1) slots owners)

get-Holds :
    (t : Table) (value device k : ℕ)
    → Holds t.m_slots t.m_owners value device k
    → (get t (k + 1) ≡ value) × (owner t (k + 1) ≡ device)
unfolding get owner
get-Holds t value device k h =
    let back : k + 1 - 1 ≡ k = omega arith in
    (
      ground (arith, h.in_slots, ap (λ i. get_or t.m_slots i 0) back, h.slot),
      ground (arith, h.in_owners, ap (λ i. get_or t.m_owners i 0) back, h.owned),
    )

-- The statement below at the result of the search.
abbrev Unique : Table → ℕ → ℕ → Table × ℕ → Type 0
Unique t value device r =
    (get r.0 r.1 ≡ value) × (owner r.0 r.1 ≡ device) × (add_unique r.0 value device ≡ r)

add-Unique :
    (t : Table) (value device : ℕ)
    → IsPaired t
    → find_slot value device 0 t.m_slots t.m_owners ≡ none
    → Unique t value device (add t value device)
unfolding add add_unique
add-Unique t value device h e =
    let u = (add t value device).0 in
    let n = length t.m_slots in
    let again = find_slot-append value device 0 t.m_slots t.m_owners h e in
    let (k, q, held) = find_slot_sound value device 0 u.m_slots u.m_owners again in
    let found = get-Holds u value device k held in
    let id : length (t.m_slots ++ (value ∷ [])) ≡ k + 1 =
      omega (arith, length-append t.m_slots (value ∷ [])) in
    (
      rw id found.0,
      rw id found.1,
      ap (or_add u value device) again ∙ ap (λ i. (u, i)) (omega (arith, id)),
    )

or_add-Unique :
    (t : Table) (value device : ℕ) (o : Option ℕ)
    → IsPaired t
    → find_slot value device 0 t.m_slots t.m_owners ≡ o
    → Unique t value device (or_add t value device o)
unfolding add_unique
or_add-Unique t value device none h e = add-Unique t value device h e
or_add-Unique t value device (some i) h e =
    let (k, q, held) = find_slot_sound value device 0 t.m_slots t.m_owners e in
    let same : k ≡ i = omega arith in
    let found = get-Holds t value device k held in
    (rw (← same) found.0, rw (← same) found.1, ap (or_add t value device) e)

-- The id that `add_unique` returns names the object, for that device, in the table that it leaves,
-- and a second call for the same object and device returns the same id and changes nothing.
add_unique-add_unique :
    (t : Table) (value device : ℕ)
    → IsPaired t
    → let (u, id) = add_unique t value device in
      (get u id ≡ value) × (owner u id ≡ device) × (add_unique u value device ≡ (u, id))
unfolding add_unique
add_unique-add_unique t value device h =
    or_add-Unique t value device (find_slot value device 0 t.m_slots t.m_owners) h refl
