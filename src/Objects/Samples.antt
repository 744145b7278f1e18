-- ===== src/Objects/Samples.antt =====
-- server/objects.hpp: a small set of tables for the tests.
use vulkan_remote.Base.{[], ◌∷◌}
use vulkan_remote.Objects.{Table, new_table}
use vulkan_remote.Objects.Teardown.{ObjectTables}

-- Two objects of device 7 and one of device 8.
abbrev pub three : Table
three = record { m_slots = 40 ∷ 41 ∷ 42 ∷ []; m_owners = 7 ∷ 8 ∷ 7 ∷ [] }

abbrev pub pair : Table
pair = record { m_slots = 50 ∷ 51 ∷ []; m_owners = 7 ∷ 7 ∷ [] }

abbrev pub tables : ObjectTables
tables = record {
  capabilities = 0;
  devices = record { m_slots = 7 ∷ 8 ∷ []; m_owners = 0 ∷ 0 ∷ [] };
  queues = new_table;
  command_pools = new_table;
  command_buffers = new_table;
  buffers = three;
  images = pair;
  image_views = new_table;
  buffer_views = new_table;
  memories = pair;
  memory_metadata = [];
  device_physical_devices = (7, 1) ∷ (8, 1) ∷ [];
  command_buffer_devices = [];
  render_passes = new_table;
  framebuffers = pair;
  shader_modules = new_table;
  pipelines = new_table;
  pipeline_layouts = new_table;
  pipeline_caches = new_table;
  descriptor_set_layouts = new_table;
  descriptor_pools = new_table;
  descriptor_sets = new_table;
  descriptor_set_owners = [];
  samplers = new_table;
  descriptor_update_templates = new_table;
  sampler_ycbcr_conversions = new_table;
  descriptor_update_template_owners = [];
  descriptor_update_template_entries = [];
  sampler_ycbcr_conversion_owners = [];
  semaphores = new_table;
  fences = new_table;
  events = new_table;
  query_pools = new_table;
  surfaces = new_table;
  swapchains = record { m_slots = 60 ∷ []; m_owners = 7 ∷ [] };
  swapchain_devices = (60, 7) ∷ [];
  swapchain_surfaces = (60, 9) ∷ [];
  swapchain_image_ids = (1, 2 ∷ []) ∷ [];
}
