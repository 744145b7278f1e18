-- ===== src/Mapped/Publish/All.antt =====
-- client/remote_objects.cpp: what `publish_coherent_mapped` comes to for several mappings.
use vulkan_remote.Base.{ℕ, ◌≡◌, Bool, true, false, ◌&&◌, Option, some, List, [], ◌∷◌, ◌++◌}
use vulkan_remote.Base.Lists.{length}
use vulkan_remote.Mapped.{MappedRange, Transfer}
use vulkan_remote.Mapped.Publish.Sent.{applied, all_accepted}

-- The baseline of a mapping that is published has its size, as the host copy has.
abbrev pub IsBased : MappedRange → Type 0
IsBased m = (length m.shadow ≡ m.size) × (length m.baseline ≡ m.size)

module _ (answer : Transfer → Bool) where
  -- What publishing several mappings may come to: the result, the mappings afterwards and the transfers,
  -- which belong to the mappings in their order.
  pub data Publishes
      : List MappedRange → Option Bool → List MappedRange → List Transfer → Type 0 where
    finished : Publishes [] (some true) [] []
    skipped :
        (m : MappedRange) {ms ms' : List MappedRange} {r : Option Bool} {us : List Transfer}
        → m.emulated_coherent && m.transfer_ready ≡ false
        → Publishes ms r ms' us
        → Publishes (m ∷ ms) r (m ∷ ms') us
    -- All transfers are carried out and bring the server from the baseline to the host copy.
    published :
        (m : MappedRange) (baseline : List ℕ) (ts : List Transfer) {ms ms' : List MappedRange}
        {r : Option Bool} {us : List Transfer}
        → m.emulated_coherent && m.transfer_ready ≡ true
        → all_accepted answer ts ≡ true
        → applied answer m ts m.baseline ≡ m.shadow
        → baseline ≡ m.shadow
        → Publishes ms r ms' us
        → Publishes (m ∷ ms) r (record m { baseline = baseline } ∷ ms') (ts ++ us)
    -- A transfer is refused: the baseline is what the server has, and nothing is done for the others.
    refused :
        (m : MappedRange) (baseline : List ℕ) (ts : List Transfer) (ms : List MappedRange)
        → m.emulated_coherent && m.transfer_ready ≡ true
        → all_accepted answer ts ≡ false
        → baseline ≡ applied answer m ts m.baseline
        → Publishes (m ∷ ms) (some false) (record m { baseline = baseline } ∷ ms) ts
