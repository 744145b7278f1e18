-- ===== src/Wayland/Objects.antt =====
-- wayland/wire.hpp and wayland/wire.cpp: which interface each object id of a connection names.
use vulkan_remote.Base.{
  ℕ, ◌≡◌, refl, Bool, true, false, ◌&&◌, Option, none, some, List, [], ◌∷◌, arith,
}
use vulkan_remote.Base.Tests.{◌==◌, if◌then◌else◌}
use vulkan_remote.Base.Maps.{find, insert, erase, find-insert, find-erase}
use vulkan_remote.Base.Text.{codes}
use vulkan_remote.Wayland.{ArgType, MessageSpec, DecodedArg, DecodedMessage, str_eq}

pub record ObjectInfo : Type 0 where
  pub interface : List ℕ
  pub version : ℕ

abbrev pub ObjectTable : Type 0
ObjectTable = List (ℕ × ObjectInfo)

abbrev pub wl_display : List ℕ
wl_display = codes "wl_display"

abbrev pub delete_id : List ℕ
delete_id = codes "delete_id"

-- The constructor.
unfoldable pub new_object_table : ObjectTable
new_object_table = (1, record { interface = wl_display; version = 1 }) ∷ []

abbrev pub is_new_id : ArgType → Bool
is_new_id ArgType.new_id = true
is_new_id _ = false

abbrev pub info_of : DecodedArg → ObjectInfo
info_of arg = record {
  interface = arg.str;
  version = if arg.new_id_version == 0 then 1 else arg.new_id_version;
}

unfoldable pub track_args : ObjectTable → List DecodedArg → ObjectTable
track_args table [] = table
track_args table (arg ∷ args) =
    track_args (if is_new_id arg.type then insert arg.u32 (info_of arg) table else table) args

abbrev pub delete_first : ObjectTable → List DecodedArg → ObjectTable
delete_first table [] = track_args table []
delete_first table (arg ∷ args) = erase arg.u32 table

unfoldable pub track_object_lifetime :
    ObjectTable → List ℕ → Bool → MessageSpec → DecodedMessage → ObjectTable
unfolding track_args
track_object_lifetime table interface is_event msg decoded =
    if is_event && str_eq interface wl_display && str_eq msg.name delete_id
    then delete_first table decoded.args
    else track_args table decoded.args

abbrev pub or_else {ℓ} : {A : Type ℓ} → Option A → Option A → Option A
or_else none o = o
or_else (some a) o = some a

-- The object that the last of the arguments with that new id creates.
abbrev pub created : ℕ → List DecodedArg → Option ObjectInfo
created id [] = none
created id (arg ∷ args) =
    or_else (created id args)
      (if is_new_id arg.type && (id == arg.u32) then some (info_of arg) else none)

find-track_args :
    (id : ℕ) (table : ObjectTable) (args : List DecodedArg)
    → find id (track_args table args) ≡ or_else (created id args) (find id table)
unfolding track_args
find-track_args id table [] = refl
find-track_args id table (arg ∷ args) = ground (
  arith,
  find-track_args id (if is_new_id arg.type then insert arg.u32 (info_of arg) table else table)
      args,
  find-insert id arg.u32 (info_of arg) table,
)

abbrev pub first_id : List DecodedArg → Option ℕ
first_id [] = none
first_id (arg ∷ args) = some arg.u32

-- The id that a `wl_display.delete_id` event gives up.
abbrev pub deleted_if : Bool → List DecodedArg → Option ℕ
deleted_if b args = if b then first_id args else none

abbrev pub is_delete_id : List ℕ → Bool → MessageSpec → Bool
is_delete_id interface is_event msg =
    is_event && str_eq interface wl_display && str_eq msg.name delete_id

abbrev pub after_message : ℕ → ObjectTable → Option ℕ → List DecodedArg → Option ObjectInfo
after_message id table none args = or_else (created id args) (find id table)
after_message id table (some gone) args = if id == gone then none else find id table

find-tracked :
    (id : ℕ) (table : ObjectTable) (b : Bool) (args : List DecodedArg)
    → find id (if b then delete_first table args else track_args table args)
      ≡ after_message id table (deleted_if b args) args
find-tracked id table true [] = find-track_args id table []
find-tracked id table true (arg ∷ args) = find-erase id arg.u32 table
find-tracked id table false args = find-track_args id table args

-- What the table holds for any id after any message: nothing, if the message is a
-- `wl_display.delete_id` event whose first argument is that id; if it is no such event, the object
-- that the message's last new-id argument with that id creates; and otherwise what it held before.
find-track_object_lifetime :
    (id : ℕ) (table : ObjectTable) (interface : List ℕ) (is_event : Bool) (msg : MessageSpec)
    (decoded : DecodedMessage)
    → find id (track_object_lifetime table interface is_event msg decoded)
      ≡ after_message id table
          (deleted_if (is_delete_id interface is_event msg) decoded.args)
          decoded.args
unfolding track_object_lifetime
find-track_object_lifetime id table interface is_event msg decoded =
    find-tracked id table (is_delete_id interface is_event msg) decoded.args
