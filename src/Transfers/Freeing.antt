-- ===== src/Transfers/Freeing.antt =====
-- server/handlers_memory.cpp: what `handle_FreeMemory` leaves in the tables.
use vulkan_remote.Base.{
  ℕ, ◌+◌, ◌≡◌, ◌≢◌, refl, sym, ap, ◌∙◌, subst, inl, inr, Bool, not, ◌&&◌, Option, none, some, List,
  arith,
}
use vulkan_remote.Base.Tests.{◌==◌, if◌then◌else◌, Bool-cases, if_true, if_false, equal_or_not}
use vulkan_remote.Base.Lists.{length}
use vulkan_remote.Base.Maps.{find, find-erase}
use vulkan_remote.Framing.{new_reader, get_handle, is_ok}
use vulkan_remote.Objects.{get}
use vulkan_remote.Objects.Ids.{get-take}
use vulkan_remote.Objects.Teardown.{ServerMemory, ObjectTables}
use vulkan_remote.Transfers.{Freed, free_found, handle_FreeMemory}

-- What the server keeps of a memory is about the native memory that its id names.
abbrev pub IsMatched : ObjectTables → Type 0
IsMatched t =
    (id : ℕ) (m : ServerMemory) → find id t.memory_metadata ≡ some m → get t.memories id ≡ m.handle

-- Either nothing changes but the count of errors, or the native memory under the id is freed, with
-- the device that owns it, and the id names nothing any more; all other ids are as before.
pub data FreeOutcome (t : ObjectTables) (errors id : ℕ) (r : Freed) : Type 0 where
  refused : r.tables ≡ t → r.oneway_errors ≡ errors + 1 → r.freed ≡ none → FreeOutcome t errors id r
  done :
      (m : ServerMemory)
      → find id t.memory_metadata ≡ some m
      → m.owner ≢ 0
      → r.freed ≡ some (m.owner, m.handle)
      → r.oneway_errors ≡ errors
      → ((j : ℕ)
          → (get r.tables.memories j ≡ (if j == id then 0 else get t.memories j))
            × (find j r.tables.memory_metadata
                ≡ (if j == id then none else find j t.memory_metadata)))
      → FreeOutcome t errors id r

FreeOutcome-free_found :
    (t : ObjectTables) (errors device id : ℕ) (ok : Bool) (o : Option ServerMemory)
    → IsMatched t
    → find id t.memory_metadata ≡ o
    → FreeOutcome t errors id (free_found t errors device id ok o)
FreeOutcome-free_found t errors device id ok none h e = refused refl refl refl
FreeOutcome-free_found t errors device id ok (some m) h e =
    elim (Bool-cases (ok && (not (device == 0) && m.owner == device))) [
      | inl b ↦ rw (if_true _ _ b) (
          done m e (λ z. ground (arith, b, z))
            (ap (λ k. some (device, k)) ((get-take t.memories id id).0 ∙ h id m e)
              ∙ ap (λ k. some (k, m.handle)) {x = device} {y = m.owner} (ground (arith, b)))
            refl (λ j. ((get-take t.memories id j).1, find-erase j id t.memory_metadata)))
      | inr b ↦ rw (if_false _ _ b) (refused refl refl refl)
    ]

-- The id of a request to free, its second handle.
abbrev pub freed_id : List ℕ → ℕ
freed_id payload = (get_handle (get_handle (new_reader payload (length payload))).1).0

-- vkFreeMemory frees the native memory of the id with the device that owns it and retires exactly
-- that id, or changes nothing and counts an error, whatever the payload is, if what the server keeps
-- of each memory is about the native memory of that id.
pub handle_FreeMemory-FreeOutcome :
    (t : ObjectTables) (errors : ℕ) (payload : List ℕ)
    → IsMatched t
    → FreeOutcome t errors (freed_id payload) (handle_FreeMemory t errors payload)
unfolding handle_FreeMemory
handle_FreeMemory-FreeOutcome t errors payload h =
    let (device_id, r) = get_handle (new_reader payload (length payload)) in
    let (id, r') = get_handle r in
    FreeOutcome-free_found t errors (get t.devices device_id) id (is_ok r')
      (find id t.memory_metadata) h refl

-- After a request to free, what the server keeps of each memory is still about the native memory of
-- that id.
pub handle_FreeMemory-IsMatched :
    (t : ObjectTables) (errors : ℕ) (payload : List ℕ)
    → IsMatched t
    → IsMatched (handle_FreeMemory t errors payload).tables
handle_FreeMemory-IsMatched t errors payload h =
    outcome (handle_FreeMemory-FreeOutcome t errors payload h)
  where
    outcome : {r : Freed} → FreeOutcome t errors (freed_id payload) r → IsMatched r.tables
    outcome (refused e _ _) = subst IsMatched (sym e) h
    outcome (done m e _ _ _ rest) = λ j n f. elim (equal_or_not j (freed_id payload)) [
      | inl same ↦ ground (arith, f, (rest j).1, same)
      | inr other ↦ ground (arith, (rest j).0, other, h j n (ground (arith, f, (rest j).1, other)))
    ]
