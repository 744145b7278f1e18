-- ===== src/Objects/Tests.antt =====
-- server/objects.hpp and server/session.cpp: the theorems at a small set of tables.
use vulkan_remote.Base.{◌≡◌, refl, ◌⊎◌, [], ◌∷◌, arith}
use vulkan_remote.Objects.{get, owner, owned_by, take}
use vulkan_remote.Objects.Ids.{adds, takes, retires, run, run_fades}
use vulkan_remote.Objects.Teardown.{
  Native, destroy, destroy_device, Kind, destroy_owned, destroy_from, retire_borrowed,
  destroy_device_objects,
}
use vulkan_remote.Objects.Samples.{three, tables}

run_fades_example :
    (get (run three (takes 1 ∷ adds 90 8 ∷ retires 7 ∷ [])) 2 ≡ get three 2)
    ⊎ (get (run three (takes 1 ∷ adds 90 8 ∷ retires 7 ∷ [])) 2 ≡ 0)
run_fades_example = run_fades three (takes 1 ∷ adds 90 8 ∷ retires 7 ∷ []) 2 refl (omega arith)

destroyed :
    (destroy_device_objects tables 8).2
    ≡ Native.device_wait_idle 8 ∷ destroy Kind.buffer 8 41 ∷ destroy_device 8 ∷ []
unfolding destroy_device_objects destroy_owned destroy_from retire_borrowed owned_by get owner take
destroyed = refl
