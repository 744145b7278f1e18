-- ===== src/Objects/Ids.antt =====
-- server/objects.hpp: ids are never given out twice, and a destroyed object stays gone.
use vulkan_remote.Base.{
  ℕ, zero, suc, ◌+◌, ◌-◌, ◌≤◌, ◌<◌, ◌≡◌, refl, ap, ◌⊎◌, inl, inr, Option, none, some, List, [], ◌∷◌,
  ◌++◌, arith,
}
use vulkan_remote.Base.Tests.{◌==◌, if◌then◌else◌}
use vulkan_remote.Base.Lists.{length, get_or, set, length-append}
use vulkan_remote.Objects.{
  Table, add, find_slot, or_add, add_unique, get, take, owner, retire_slots, retire_owned, size,
  IsPaired,
}

pub get_or-append :
    (xs : List ℕ) (y i : ℕ)
    → get_or (xs ++ (y ∷ [])) i 0 ≡ (if i == length xs then y else get_or xs i 0)
get_or-append [] y zero = refl
get_or-append [] y (suc i) = ground arith
get_or-append (x ∷ xs) y zero = ground arith
get_or-append (x ∷ xs) y (suc i) = ground (arith, get_or-append xs y i)

get_or-set :
    (xs : List ℕ) (i j v : ℕ)
    → i < length xs
    → get_or (set xs i v) j 0 ≡ (if j == i then v else get_or xs j 0)
get_or-set [] i j v h = absurd (omega arith)
get_or-set (x ∷ xs) zero zero v h = refl
get_or-set (x ∷ xs) zero (suc j) v h = ground arith
get_or-set (x ∷ xs) (suc i) zero v h = ground arith
get_or-set (x ∷ xs) (suc i) (suc j) v h = ground (arith, get_or-set xs i j v)

length-set : (xs : List ℕ) (i v : ℕ) → length (set xs i v) ≡ length xs
length-set [] i v = refl
length-set (x ∷ xs) zero v = refl
length-set (x ∷ xs) (suc i) v = ap suc (length-set xs i v)

get_or_beyond : (xs : List ℕ) (i : ℕ) → length xs ≤ i → get_or xs i 0 ≡ 0
get_or_beyond [] i h = refl
get_or_beyond (x ∷ xs) zero h = absurd (omega arith)
get_or_beyond (x ∷ xs) (suc i) h = get_or_beyond xs i (omega arith)

-- `get` without its test for the end.
get_lem : (t : Table) (id : ℕ) → get t id ≡ (if id == 0 then 0 else get_or t.m_slots (id - 1) 0)
unfolding get
get_lem t id = ground (arith, get_or_beyond t.m_slots (id - 1))

-- A new object gets the next id, which no object had; every other id means what it meant.
get-add :
    (t : Table) (value device id : ℕ)
    → ((add t value device).1 ≡ size t + 1)
      × (get (add t value device).0 id ≡ (if id == size t + 1 then value else get t id))
unfolding add
get-add t value device id = (
  omega (arith, length-append t.m_slots (value ∷ [])),
  ground (
    arith,
    get_lem t id,
    get_lem (add t value device).0 id,
    get_or-append t.m_slots value (id - 1),
    get_or_beyond t.m_slots (id - 1),
  ),
)

-- `take` returns what was there, clears that id, and leaves every other id alone.
pub get-take :
    (t : Table) (id j : ℕ)
    → ((take t id).1 ≡ get t id) × (get (take t id).0 j ≡ (if j == id then 0 else get t j))
unfolding take get
get-take t id j =
    ground (arith, get_or-set t.m_slots (id - 1) (j - 1) 0, length-set t.m_slots (id - 1) 0)

pub owner-take :
    (t : Table) (id j : ℕ) → IsPaired t → owner (take t id).0 j ≡ (if j == id then 0 else owner t j)
unfolding take owner
owner-take t id j h = ground (
  arith,
  get_or-set t.m_owners (id - 1) (j - 1) 0,
  length-set t.m_owners (id - 1) 0,
  get_or_beyond t.m_owners (j - 1),
)

pub take-IsPaired : (t : Table) (id : ℕ) → IsPaired t → IsPaired (take t id).0
unfolding take
take-IsPaired t id h =
    ground (arith, length-set t.m_slots (id - 1) 0, length-set t.m_owners (id - 1) 0)

size-take : (t : Table) (id : ℕ) → size (take t id).0 ≡ size t
unfolding take
size-take t id = ground (arith, length-set t.m_slots (id - 1) 0)

add-IsPaired : (t : Table) (value device : ℕ) → IsPaired t → IsPaired (add t value device).0
unfolding add
add-IsPaired t value device h =
    omega (arith, length-append t.m_slots (value ∷ []), length-append t.m_owners (device ∷ []))

length-retire_slots :
    (device : ℕ) (slots owners : List ℕ)
    → length owners ≡ length slots
    → (length (retire_slots device slots owners).0 ≡ length slots)
      × (length (retire_slots device slots owners).1 ≡ length slots)
length-retire_slots device [] [] h = (refl, refl)
length-retire_slots device [] (o ∷ owners) h = absurd (omega arith)
length-retire_slots device (s ∷ slots) [] h = absurd (omega arith)
length-retire_slots device (s ∷ slots) (o ∷ owners) h =
    ground (arith, length-retire_slots device slots owners)

get_or-retire_slots :
    (device : ℕ) (slots owners : List ℕ) (i : ℕ)
    → length owners ≡ length slots
    → get_or (retire_slots device slots owners).0 i 0
      ≡ (if get_or owners i 0 == device then 0 else get_or slots i 0)
get_or-retire_slots device [] [] i h = ground arith
get_or-retire_slots device [] (o ∷ owners) i h = absurd (omega arith)
get_or-retire_slots device (s ∷ slots) [] i h = absurd (omega arith)
get_or-retire_slots device (s ∷ slots) (o ∷ owners) zero h = ground arith
get_or-retire_slots device (s ∷ slots) (o ∷ owners) (suc i) h =
    ground (arith, get_or-retire_slots device slots owners i)

retire_owned-IsPaired : (t : Table) (device : ℕ) → IsPaired t → IsPaired (retire_owned t device)
unfolding retire_owned
retire_owned-IsPaired t device h = omega (arith, length-retire_slots device t.m_slots t.m_owners h)

size-retire_owned : (t : Table) (device : ℕ) → IsPaired t → size (retire_owned t device) ≡ size t
unfolding retire_owned
size-retire_owned t device h = (length-retire_slots device t.m_slots t.m_owners h).0

-- `retire_owned` clears exactly the ids of that device's objects.
pub get-retire_owned :
    (t : Table) (device id : ℕ)
    → IsPaired t
    → get (retire_owned t device) id ≡ (if owner t id == device then 0 else get t id)
unfolding retire_owned owner
get-retire_owned t device id h = ground (
  arith,
  get_lem t id,
  get_lem (retire_owned t device) id,
  get_or-retire_slots device t.m_slots t.m_owners (id - 1),
  get_or_beyond t.m_slots (id - 1),
)

-- The calls that change a table.
pub data Op : Type 0 where
  adds adds_unique : ℕ → ℕ → Op
  takes retires : ℕ → Op

abbrev pub step : Table → Op → Table
step t (adds value device) = (add t value device).0
step t (adds_unique value device) = (add_unique t value device).0
step t (takes id) = (take t id).0
step t (retires device) = retire_owned t device

abbrev pub run : Table → List Op → Table
run t [] = t
run t (op ∷ ops) = run (step t op) ops

or_add-cases :
    (t : Table) (value device : ℕ) (o : Option ℕ)
    → ((or_add t value device o).0 ≡ t) ⊎ ((or_add t value device o).0 ≡ (add t value device).0)
or_add-cases t value device none = inr refl
or_add-cases t value device (some i) = inl refl

add_unique-cases :
    (t : Table) (value device : ℕ)
    → ((add_unique t value device).0 ≡ t) ⊎ ((add_unique t value device).0 ≡ (add t value device).0)
unfolding add_unique
add_unique-cases t value device =
    or_add-cases t value device (find_slot value device 0 t.m_slots t.m_owners)

-- What one call does to an id that has been given out.
record Keeps (t u : Table) (id : ℕ) : Type 0 where
  paired : IsPaired u
  grows : size t ≤ size u
  fades : (get u id ≡ get t id) ⊎ (get u id ≡ 0)

add-Keeps :
    (t : Table) (value device id : ℕ) → IsPaired t → id ≤ size t → Keeps t (add t value device).0 id
add-Keeps t value device id h k = record {
  paired = add-IsPaired t value device h;
  grows = unfold add in omega (arith, length-append t.m_slots (value ∷ []));
  fades = inl (ground (arith, get-add t value device id));
}

step-Keeps : (t : Table) (op : Op) (id : ℕ) → IsPaired t → id ≤ size t → Keeps t (step t op) id
step-Keeps t (adds value device) id h k = add-Keeps t value device id h k
step-Keeps t (adds_unique value device) id h k = elim (add_unique-cases t value device) [
  | inl e ↦ rw e (record { paired = h; grows = omega arith; fades = inl refl })
  | inr e ↦ rw e (add-Keeps t value device id h k)
]
step-Keeps t (takes j) id h k = record {
  paired = take-IsPaired t j h;
  grows = omega (arith, size-take t j);
  fades = ground (arith, get-take t j id);
}
step-Keeps t (retires device) id h k = record {
  paired = retire_owned-IsPaired t device h;
  grows = omega (arith, size-retire_owned t device h);
  fades = ground (arith, get-retire_owned t device id h);
}

-- No later call gives an id that was handed out to another object: after any calls it still means
-- the object that it meant, or nothing. So an id that means nothing does so for good.
pub run_fades :
    (t : Table) (ops : List Op) (id : ℕ)
    → IsPaired t
    → id ≤ size t
    → (get (run t ops) id ≡ get t id) ⊎ (get (run t ops) id ≡ 0)
run_fades t [] id h k = inl refl
run_fades t (op ∷ ops) id h k =
    let s = step-Keeps t op id h k in
    ground (arith, s.fades, run_fades (step t op) ops id s.paired (omega (arith, s.grows)))
