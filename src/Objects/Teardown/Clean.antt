-- ===== src/Objects/Teardown/Clean.antt =====
-- server/session.cpp: the tables after `destroy_device_objects`.
use vulkan_remote.Base.{ℕ, ◌≡◌, Bool, false, ◌&&◌, ◌||◌, List, [], ◌∷◌}
use vulkan_remote.Base.Tests.{◌==◌, if◌then◌else◌}
use vulkan_remote.Objects.{Table, get, owner, owned_by, IsPaired}
use vulkan_remote.Objects.Teardown.{ObjectTables}

-- The ids of the device's objects mean nothing any more, and all other ids mean what they meant.
abbrev pub Cleared : ℕ → Table → Table → Type 0
Cleared device t u = (j : ℕ) → get u j ≡ (if owned_by t j device then 0 else get t j)

abbrev pub mentions : ℕ → List ℕ → Bool
mentions j [] = false
mentions j (id ∷ ids) = j == id || mentions j ids

-- `j` is the cached id of an image of a swapchain of the device.
abbrev pub is_borrowed : Table → List (ℕ × List ℕ) → ℕ → ℕ → Bool
is_borrowed swapchains [] device j = false
is_borrowed swapchains ((chain, ids) ∷ cached) device j =
    (owner swapchains chain == device && mentions j ids) || is_borrowed swapchains cached device j

-- In the table of images the ids of the images of the device's swapchains go, too.
abbrev pub ClearedImages : ObjectTables → ℕ → Table → Table → Type 0
ClearedImages t device a b =
    (j : ℕ)
    → get b j ≡ (
        if owned_by a j device || is_borrowed t.swapchains t.swapchain_image_ids device j
        then 0
        else get a j)

-- A statement about each table of objects that belong to a device, before and after, with one of its
-- own about the images.
pub record Each (P Q : Table → Table → Type 0) (t u : ObjectTables) : Type 0 where
  pub framebuffers : P t.framebuffers u.framebuffers
  pub pipelines : P t.pipelines u.pipelines
  pub descriptor_pools : P t.descriptor_pools u.descriptor_pools
  pub descriptor_update_templates : P t.descriptor_update_templates u.descriptor_update_templates
  pub image_views : P t.image_views u.image_views
  pub buffer_views : P t.buffer_views u.buffer_views
  pub samplers : P t.samplers u.samplers
  pub shader_modules : P t.shader_modules u.shader_modules
  pub pipeline_layouts : P t.pipeline_layouts u.pipeline_layouts
  pub descriptor_set_layouts : P t.descriptor_set_layouts u.descriptor_set_layouts
  pub render_passes : P t.render_passes u.render_passes
  pub pipeline_caches : P t.pipeline_caches u.pipeline_caches
  pub query_pools : P t.query_pools u.query_pools
  pub events : P t.events u.events
  pub fences : P t.fences u.fences
  pub semaphores : P t.semaphores u.semaphores
  pub sampler_ycbcr_conversions : P t.sampler_ycbcr_conversions u.sampler_ycbcr_conversions
  pub command_pools : P t.command_pools u.command_pools
  pub buffers : P t.buffers u.buffers
  pub images : Q t.images u.images
  pub swapchains : P t.swapchains u.swapchains
  pub memories : P t.memories u.memories
  pub command_buffers : P t.command_buffers u.command_buffers
  pub descriptor_sets : P t.descriptor_sets u.descriptor_sets
  pub queues : P t.queues u.queues

abbrev pub AllPaired : ObjectTables → Type 0
AllPaired t = Each (λ a b. IsPaired a) (λ a b. IsPaired a) t t
