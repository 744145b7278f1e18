-- ===== src/Mapped/Publish/Tests.antt =====
-- client/remote_objects.cpp: `publish_coherent_mapped` run on a mapping of six bytes.
use vulkan_remote.Base.{◌≡◌, refl, true, some, [], ◌∷◌}
use vulkan_remote.Mapped.{MappedRange, write_at}
use vulkan_remote.Mapped.Publish.{publish_mapping, publish_from, run_end, skip_while, send_run}

-- Two bytes have changed, with a gap of two between them.
abbrev changed : MappedRange
changed = record {
  memory_id = 3;
  offset = 8;
  size = 6;
  shadow = 1 ∷ 7 ∷ 3 ∷ 4 ∷ 8 ∷ 6 ∷ [];
  emulated_coherent = true;
  transfer_ready = true;
  baseline = 1 ∷ 2 ∷ 3 ∷ 4 ∷ 5 ∷ 6 ∷ [];
}

-- One transfer bridges the gap.
bridged : publish_mapping (λ t. true) changed ≡ (
  some true,
  1 ∷ 7 ∷ 3 ∷ 4 ∷ 8 ∷ 6 ∷ [],
  record { memory = 3; offset = 9; bytes = 7 ∷ 3 ∷ 4 ∷ 8 ∷ [] } ∷ [],
)
unfolding publish_from skip_while run_end send_run write_at
bridged = refl
