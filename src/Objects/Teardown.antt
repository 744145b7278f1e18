-- ===== src/Objects/Teardown.antt =====
-- server/objects.hpp and server/session.cpp: the tables of one connection, and how the objects of a
-- device are destroyed with it. The native calls come out as a list; the server does not read what
-- they return. Maps are iterated in list order, which nothing below depends on.
pub mod Owned
pub mod Clean
use vulkan_remote.Base.{ℕ, zero, suc, ◌+◌, Bool, true, false, not, ◌&&◌, List, [], ◌∷◌, ◌++◌, map}
use vulkan_remote.Base.Tests.{◌==◌, if◌then◌else◌}
use vulkan_remote.Base.Maps.{erase}
use vulkan_remote.Objects.{Table, take, owner, owned_by, retire_owned, size}

pub record ServerMemory : Type 0 where
  pub handle : ℕ
  pub owner : ℕ
  pub size : ℕ
  pub property_flags : ℕ
  pub map_alignment : ℕ
  pub non_coherent_atom_size : ℕ

pub record DescriptorSetOwner : Type 0 where
  pub device : ℕ
  pub pool : ℕ

-- VkDescriptorUpdateTemplateEntry.
pub record TemplateEntry : Type 0 where
  pub dst_binding : ℕ
  pub dst_array_element : ℕ
  pub descriptor_count : ℕ
  pub descriptor_type : ℕ
  pub offset : ℕ
  pub stride : ℕ

pub record ObjectTables : Type 0 where
  pub capabilities : ℕ
  pub devices : Table
  pub queues : Table
  pub command_pools : Table
  pub command_buffers : Table
  pub buffers : Table
  pub images : Table
  pub image_views : Table
  pub buffer_views : Table
  pub memories : Table
  pub memory_metadata : List (ℕ × ServerMemory)
  pub device_physical_devices : List (ℕ × ℕ)
  pub command_buffer_devices : List (ℕ × ℕ)
  pub render_passes : Table
  pub framebuffers : Table
  pub shader_modules : Table
  pub pipelines : Table
  pub pipeline_layouts : Table
  pub pipeline_caches : Table
  pub descriptor_set_layouts : Table
  pub descriptor_pools : Table
  pub descriptor_sets : Table
  pub descriptor_set_owners : List (ℕ × DescriptorSetOwner)
  pub samplers : Table
  pub descriptor_update_templates : Table
  pub sampler_ycbcr_conversions : Table
  pub descriptor_update_template_owners : List (ℕ × ℕ)
  pub descriptor_update_template_entries : List (ℕ × List TemplateEntry)
  pub sampler_ycbcr_conversion_owners : List (ℕ × ℕ)
  pub semaphores : Table
  pub fences : Table
  pub events : Table
  pub query_pools : Table
  pub surfaces : Table
  pub swapchains : Table
  pub swapchain_devices : List (ℕ × ℕ)
  pub swapchain_surfaces : List (ℕ × ℕ)
  pub swapchain_image_ids : List (ℕ × List ℕ)

pub data Kind : Type 0 where
  framebuffer pipeline descriptor_pool descriptor_update_template image_view buffer_view : Kind
  sampler shader_module pipeline_layout descriptor_set_layout render_pass pipeline_cache : Kind
  query_pool event fence semaphore sampler_ycbcr_conversion command_pool buffer image : Kind
  swapchain memory : Kind

pub data Native : Type 0 where
  device_wait_idle : ℕ → Native
  -- `destroy kind device handle`
  destroy : Kind → ℕ → ℕ → Native
  destroy_device : ℕ → Native
  destroy_surface : ℕ → Native

-- `DESTROY_OWNED`: the loop over the ids, `rounds` of them from `id` on. The table afterwards, and
-- the handles that the destroy function is called with.
unfoldable pub destroy_from : ℕ → ℕ → Table → ℕ → Table × List ℕ
destroy_from zero id t device = (t, [])
destroy_from (suc rounds) id t device =
    let mine = owned_by t id device in
    let (t', object) = take t id in
    let (t'', rest) = destroy_from rounds (id + 1) (if mine then t' else t) device in
    (t'', if mine && not (object == 0) then object ∷ rest else rest)

unfoldable pub destroy_owned : Table → ℕ → Table × List ℕ
unfolding destroy_from
destroy_owned t device = destroy_from (size t) 1 t device

abbrev pub take_all : Table → List ℕ → Table
take_all images [] = images
take_all images (id ∷ ids) = take_all (take images id).0 ids

-- Swapchain images are borrowed: their ids are retired.
unfoldable pub retire_borrowed : Table → List (ℕ × List ℕ) → ℕ → Table → Table
retire_borrowed swapchains [] device images = images
retire_borrowed swapchains ((chain, ids) ∷ cached) device images =
    retire_borrowed swapchains cached device
      (if owner swapchains chain == device then take_all images ids else images)

-- The `erase` loops over a map.
unfoldable pub erase_if {ℓ} : {V : Type ℓ} → (ℕ → V → Bool) → List (ℕ × V) → List (ℕ × V)
erase_if gone [] = []
erase_if gone ((k, v) ∷ m) = let rest = erase_if gone m in if gone k v then rest else (k, v) ∷ rest

-- `erase_keys keys m` erases each of the keys for which the first map says so.
unfoldable pub erase_with {ℓ} :
    {V : Type ℓ} → (ℕ → Bool) → List (ℕ × ℕ) → List (ℕ × V) → List (ℕ × V)
unfolding erase
erase_with gone [] m = m
erase_with gone ((k, v) ∷ owners) m = erase_with gone owners (if gone v then erase k m else m)

-- The table of images once the borrowed ones are retired.
abbrev pub own_images : ObjectTables → ℕ → Table
own_images t device = retire_borrowed t.swapchains t.swapchain_image_ids device t.images

abbrev pub destroyed_tables : ObjectTables → ℕ → ObjectTables
destroyed_tables t device = record t {
  framebuffers = (destroy_owned t.framebuffers device).0;
  pipelines = (destroy_owned t.pipelines device).0;
  descriptor_pools = (destroy_owned t.descriptor_pools device).0;
  descriptor_update_templates = (destroy_owned t.descriptor_update_templates device).0;
  image_views = (destroy_owned t.image_views device).0;
  buffer_views = (destroy_owned t.buffer_views device).0;
  samplers = (destroy_owned t.samplers device).0;
  shader_modules = (destroy_owned t.shader_modules device).0;
  pipeline_layouts = (destroy_owned t.pipeline_layouts device).0;
  descriptor_set_layouts = (destroy_owned t.descriptor_set_layouts device).0;
  render_passes = (destroy_owned t.render_passes device).0;
  pipeline_caches = (destroy_owned t.pipeline_caches device).0;
  query_pools = (destroy_owned t.query_pools device).0;
  events = (destroy_owned t.events device).0;
  fences = (destroy_owned t.fences device).0;
  semaphores = (destroy_owned t.semaphores device).0;
  sampler_ycbcr_conversions = (destroy_owned t.sampler_ycbcr_conversions device).0;
  command_pools = (destroy_owned t.command_pools device).0;
  buffers = (destroy_owned t.buffers device).0;
  images = (destroy_owned (own_images t device) device).0;
  swapchains = (destroy_owned t.swapchains device).0;
  memories = (destroy_owned t.memories device).0;
  command_buffers = retire_owned t.command_buffers device;
  descriptor_sets = retire_owned t.descriptor_sets device;
  queues = retire_owned t.queues device;
  device_physical_devices = erase device t.device_physical_devices;
  command_buffer_devices = erase_if (λ _ d. d == device) t.command_buffer_devices;
  memory_metadata = erase_if (λ _ m. m.owner == device) t.memory_metadata;
  descriptor_set_owners = erase_if (λ _ o. o.device == device) t.descriptor_set_owners;
  descriptor_update_template_entries =
      erase_with (λ d. d == device) t.descriptor_update_template_owners
        t.descriptor_update_template_entries;
  descriptor_update_template_owners =
      erase_if (λ _ d. d == device) t.descriptor_update_template_owners;
  sampler_ycbcr_conversion_owners = erase_if (λ _ d. d == device) t.sampler_ycbcr_conversion_owners;
  swapchain_surfaces = erase_with (λ d. d == device) t.swapchain_devices t.swapchain_surfaces;
  swapchain_devices = erase_if (λ _ d. d == device) t.swapchain_devices;
  swapchain_image_ids =
      erase_if (λ chain _. owner (destroy_owned t.swapchains device).0 chain == 0)
        t.swapchain_image_ids;
}

-- The `DESTROY_OWNED` lines in their order: the kind, and the handles that are destroyed.
abbrev pub destroy_chunks : ObjectTables → ℕ → List (Kind × List ℕ)
destroy_chunks t device =
    (framebuffer, (destroy_owned t.framebuffers device).1)
    ∷ (pipeline, (destroy_owned t.pipelines device).1)
    ∷ (descriptor_pool, (destroy_owned t.descriptor_pools device).1)
    ∷ (descriptor_update_template, (destroy_owned t.descriptor_update_templates device).1)
    ∷ (image_view, (destroy_owned t.image_views device).1)
    ∷ (buffer_view, (destroy_owned t.buffer_views device).1)
    ∷ (sampler, (destroy_owned t.samplers device).1)
    ∷ (shader_module, (destroy_owned t.shader_modules device).1)
    ∷ (pipeline_layout, (destroy_owned t.pipeline_layouts device).1)
    ∷ (descriptor_set_layout, (destroy_owned t.descriptor_set_layouts device).1)
    ∷ (render_pass, (destroy_owned t.render_passes device).1)
    ∷ (pipeline_cache, (destroy_owned t.pipeline_caches device).1)
    ∷ (query_pool, (destroy_owned t.query_pools device).1)
    ∷ (event, (destroy_owned t.events device).1)
    ∷ (fence, (destroy_owned t.fences device).1)
    ∷ (semaphore, (destroy_owned t.semaphores device).1)
    ∷ (sampler_ycbcr_conversion, (destroy_owned t.sampler_ycbcr_conversions device).1)
    ∷ (command_pool, (destroy_owned t.command_pools device).1)
    ∷ (buffer, (destroy_owned t.buffers device).1)
    ∷ (image, (destroy_owned (own_images t device) device).1)
    ∷ (swapchain, (destroy_owned t.swapchains device).1)
    ∷ (memory, (destroy_owned t.memories device).1)
    ∷ []

abbrev pub chunk_calls : ℕ → List (Kind × List ℕ) → List Native
chunk_calls device [] = []
chunk_calls device ((k, hs) ∷ cs) = map (destroy k device) hs ++ chunk_calls device cs

abbrev pub destroy_calls : ObjectTables → ℕ → List Native
destroy_calls t device =
    device_wait_idle device
    ∷ (chunk_calls device (destroy_chunks t device) ++ (destroy_device device ∷ []))

unfoldable pub destroy_device_objects : ObjectTables → ℕ → Bool × ObjectTables × List Native
unfolding destroy_owned retire_borrowed erase_if erase_with
destroy_device_objects t device =
    if device == 0
    then (false, t, [])
    else (true, destroyed_tables t device, destroy_calls t device)

-- The loop of `destroy_session_objects` over the devices.
unfoldable pub destroy_devices_from : ℕ → ℕ → ObjectTables → ObjectTables × List Native
unfolding destroy_device_objects
destroy_devices_from zero id t = (t, [])
destroy_devices_from (suc rounds) id t =
    let (devices, device) = take t.devices id in
    let t' : ObjectTables = record t { devices = devices } in
    let (done, t'', calls) = destroy_device_objects t' device in
    let live = not (device == 0) in
    let (t₃, rest) = destroy_devices_from rounds (id + 1) (if live then t'' else t') in
    (t₃, if live then calls ++ rest else rest)

-- The surfaces that are still there, for the instance to destroy and the windows to be released.
unfoldable pub live_surfaces : List ℕ → List ℕ
live_surfaces [] = []
live_surfaces (s ∷ slots) = let rest = live_surfaces slots in if s == 0 then rest else s ∷ rest

-- The tables, the native calls, and the surfaces whose windows are released, in order.
unfoldable pub destroy_session_objects : ObjectTables → ObjectTables × List Native × List ℕ
unfolding destroy_devices_from live_surfaces
destroy_session_objects t =
    let (t', calls) = destroy_devices_from (size t.devices) 1 t in
    let surfaces = live_surfaces t'.surfaces.m_slots in
    (t', calls ++ map destroy_surface surfaces, surfaces)
