-- ===== src/Objects.antt =====
-- server/objects.hpp: the tables that give native Vulkan objects the ids that cross the wire.
-- A native handle is a number and 0 is VK_NULL_HANDLE; a table keeps handles of one kind.
pub mod Ids
pub mod Unique
pub mod Teardown
pub mod Samples
mod Tests
use vulkan_remote.Base.{
  ℕ, zero, suc, ◌+◌, ◌-◌, ◌≡◌, Bool, true, false, not, ◌&&◌, ◌||◌, Option, none, some, List, [],
  ◌∷◌, ◌++◌,
}
use vulkan_remote.Base.Tests.{ltb, ◌==◌, if◌then◌else◌}
use vulkan_remote.Base.Lists.{length, get_or, set}

pub record Table : Type 0 where
  pub m_slots : List ℕ
  pub m_owners : List ℕ

abbrev pub new_table : Table
new_table = record { m_slots = []; m_owners = [] }

unfoldable pub add : Table → ℕ → ℕ → Table × ℕ
add t value owner =
    let slots = t.m_slots ++ (value ∷ []) in
    (record { m_slots = slots; m_owners = t.m_owners ++ (owner ∷ []) }, length slots)

-- The position, from `i` on, of the first slot that holds `value` for `owner`.
unfoldable pub find_slot : ℕ → ℕ → ℕ → List ℕ → List ℕ → Option ℕ
find_slot value owner i [] owners = none
find_slot value owner i (s ∷ slots) [] = none
find_slot value owner i (s ∷ slots) (o ∷ owners) =
    let rest = find_slot value owner (i + 1) slots owners in
    if s == value && o == owner then some i else rest

abbrev pub or_add : Table → ℕ → ℕ → Option ℕ → Table × ℕ
or_add t value owner none = add t value owner
or_add t value owner (some i) = (t, i + 1)

unfoldable pub add_unique : Table → ℕ → ℕ → Table × ℕ
unfolding find_slot
add_unique t value owner = or_add t value owner (find_slot value owner 0 t.m_slots t.m_owners)

unfoldable pub get : Table → ℕ → ℕ
get t id = if id == 0 || ltb (length t.m_slots) id then 0 else get_or t.m_slots (id - 1) 0

-- The table afterwards, and what was there.
unfoldable pub take : Table → ℕ → Table × ℕ
take t id = if id == 0 || ltb (length t.m_slots) id then (t, 0) else (
  record { m_slots = set t.m_slots (id - 1) 0; m_owners = set t.m_owners (id - 1) 0 },
  get_or t.m_slots (id - 1) 0,
)

unfoldable pub owner : Table → ℕ → ℕ
owner t id = if id == 0 || ltb (length t.m_owners) id then 0 else get_or t.m_owners (id - 1) 0

unfoldable pub owned_by : Table → ℕ → ℕ → Bool
unfolding get owner
owned_by t id device = not (get t id == 0) && owner t id == device

-- The loop of `retire_owned` over both vectors.
abbrev pub retire_slots : ℕ → List ℕ → List ℕ → List ℕ × List ℕ
retire_slots device [] owners = ([], owners)
retire_slots device (s ∷ slots) [] = (s ∷ slots, [])
retire_slots device (s ∷ slots) (o ∷ owners) =
    let (slots', owners') = retire_slots device slots owners in
    if o == device then (0 ∷ slots', 0 ∷ owners') else (s ∷ slots', o ∷ owners')

unfoldable pub retire_owned : Table → ℕ → Table
retire_owned t device =
    let (slots, owners) = retire_slots device t.m_slots t.m_owners in
    record { m_slots = slots; m_owners = owners }

abbrev pub size : Table → ℕ
size t = length t.m_slots

-- Both vectors always have the same length.
abbrev pub IsPaired : Table → Type 0
IsPaired t = length t.m_owners ≡ length t.m_slots
