-- ===== src/Objects/Teardown/Owned.antt =====
-- server/session.cpp: what the `DESTROY_OWNED` loop does to a table.
use vulkan_remote.Base.{
  ℕ, zero, suc, ◌+◌, ◌<◌, ◌≡◌, refl, ap, inl, inr, Bool, true, false, ◌&&◌, List, [], ◌∷◌, arith,
}
use vulkan_remote.Base.Tests.{ltb, leb, ◌==◌, if◌then◌else◌, Bool-cases}
use vulkan_remote.Objects.{Table, get, take, owner, owned_by, size, IsPaired}
use vulkan_remote.Objects.Ids.{get-take, owner-take, take-IsPaired}
use vulkan_remote.Objects.Teardown.{destroy_from, destroy_owned}

-- The handles of the device's objects with ids from `id` on, `rounds` of them, in order.
unfoldable pub handles_from : ℕ → ℕ → Table → ℕ → List ℕ
handles_from zero id t device = []
handles_from (suc rounds) id t device =
    let rest = handles_from rounds (id + 1) t device in
    if owned_by t id device then get t id ∷ rest else rest

abbrev pub handles_of : Table → ℕ → List ℕ
handles_of t device = handles_from (size t) 1 t device

-- The id lies in the range that the loop still goes over.
abbrev in_range : ℕ → ℕ → ℕ → Bool
in_range id rounds j = leb id j && ltb j (id + rounds)

-- One round of the loop.
abbrev round : Table → ℕ → ℕ → Table
round t id device = if owned_by t id device then (take t id).0 else t

round-IsPaired : (t : Table) (id device : ℕ) → IsPaired t → IsPaired (round t id device)
round-IsPaired t id device h = elim (Bool-cases (owned_by t id device)) [
  | inl mine ↦ rw mine (take-IsPaired t id h)
  | inr other ↦ rw other h
]

get-round :
    (t : Table) (id device j : ℕ)
    → get (round t id device) j ≡ (if j == id && owned_by t id device then 0 else get t j)
get-round t id device j = ground (arith, get-take t id j)

owned_by-round :
    (t : Table) (id device j : ℕ)
    → IsPaired t
    → owned_by (round t id device) j device ≡ (if j == id then false else owned_by t j device)
unfolding owned_by
owned_by-round t id device j h = ground (
  arith,
  get-take t id j,
  owner-take t id j h,
  ap (λ k. get t k) {x = j} {y = id},
  ap (λ k. owner t k) {x = j} {y = id},
)

owned_by-live : (t : Table) (id device : ℕ) → owned_by t id device ≡ true → (get t id == 0) ≡ false
unfolding owned_by
owned_by-live t id device h = ground arith

handles_from-round :
    (rounds from : ℕ) (t : Table) (id device : ℕ)
    → IsPaired t
    → id < from
    → handles_from rounds from (round t id device) device ≡ handles_from rounds from t device
unfolding handles_from
handles_from-round zero from t id device h k = refl
handles_from-round (suc rounds) from t id device h k = ground (
  arith,
  handles_from-round rounds (from + 1) t id device h,
  owned_by-round t id device from h,
  get-round t id device from,
)

get-destroy_from :
    (rounds id : ℕ) (t : Table) (device j : ℕ)
    → IsPaired t
    → get (destroy_from rounds id t device).0 j
      ≡ (if in_range id rounds j && owned_by t j device then 0 else get t j)
unfolding destroy_from
get-destroy_from zero id t device j h = ground arith
get-destroy_from (suc rounds) id t device j h = ground (
  arith,
  get-destroy_from rounds (id + 1) (round t id device) device j (round-IsPaired t id device h),
  owned_by-round t id device j h,
  get-round t id device j,
  ap (λ k. owned_by t k device) {x = j} {y = id},
)

destroy_from-handles :
    (rounds id : ℕ) (t : Table) (device : ℕ)
    → IsPaired t
    → (destroy_from rounds id t device).1 ≡ handles_from rounds id t device
unfolding destroy_from handles_from
destroy_from-handles zero id t device h = refl
destroy_from-handles (suc rounds) id t device h = ground (
  arith,
  destroy_from-handles rounds (id + 1) (round t id device) device (round-IsPaired t id device h),
  handles_from-round rounds (id + 1) t id device h,
  owned_by-live t id device,
  (get-take t id id).0,
)

-- Out of range there is no object.
get_beyond : (t : Table) (j : ℕ) → in_range 1 (size t) j ≡ false → get t j ≡ 0
unfolding get
get_beyond t j h = ground arith

-- `DESTROY_OWNED` clears the ids of the device's objects and no others, and it hands the destroy
-- function each of these objects once, in the order of their ids.
pub destroy_owned_lem :
    (t : Table) (device : ℕ)
    → IsPaired t
    → ((j : ℕ) → get (destroy_owned t device).0 j ≡ (if owned_by t j device then 0 else get t j))
      × ((destroy_owned t device).1 ≡ handles_of t device)
unfolding destroy_owned
destroy_owned_lem t device h = (
  (λ j. ground (arith, get-destroy_from (size t) 1 t device j h, get_beyond t j)),
  destroy_from-handles (size t) 1 t device h,
)
