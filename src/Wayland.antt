-- ===== src/Wayland.antt =====
-- wayland/wire.hpp and wayland/wire.cpp: the shape of Wayland messages. A byte is a number below
-- 256; a `std::string` and a name of the protocol tables are lists of bytes. `kInterfaceTable` is
-- generated from the protocol XML by the build, so it is an argument here.
pub mod Decode
pub mod Encode
pub mod Positions
pub mod RoundTrip
pub mod Objects
pub mod Link
mod Tests
use vulkan_remote.Base.{
  ℕ, zero, suc, ◌+◌, Bool, true, false, ◌&&◌, Option, none, some, List, [], ◌∷◌,
}
use vulkan_remote.Base.Tests.{ltb, leb, ◌==◌, if◌then◌else◌}
use vulkan_remote.Base.Lists.{length, get_elem?}
use vulkan_remote.Base.Words.{ℤ, pos, negsuc}

pub data ArgType : Type 0 where
  int uint fixed string object new_id array fd : ArgType

-- `none` is a null `interface`.
pub record ArgSpec : Type 0 where
  pub type : ArgType
  pub interface : Option (List ℕ)

-- `arg_count` is the length of `args`.
pub record MessageSpec : Type 0 where
  pub name : List ℕ
  pub opcode : ℕ
  pub args : List ArgSpec
  pub is_destructor : Bool

-- `request_count` and `event_count` are the lengths of the lists.
pub record InterfaceSpec : Type 0 where
  pub name : List ℕ
  pub version : ℕ
  pub requests : List MessageSpec
  pub events : List MessageSpec

abbrev pub str_eq : List ℕ → List ℕ → Bool
str_eq [] [] = true
str_eq [] (c ∷ t) = false
str_eq (b ∷ s) [] = false
str_eq (b ∷ s) (c ∷ t) = b == c && str_eq s t

-- The first entry of the table with that name.
unfoldable pub find_interface : List InterfaceSpec → List ℕ → Option InterfaceSpec
find_interface [] name = none
find_interface (i ∷ table) name =
    let rest = find_interface table name in if str_eq name i.name then some i else rest

unfoldable pub find_message : Option InterfaceSpec → Bool → ℕ → Option MessageSpec
find_message none is_event opcode = none
find_message (some iface) is_event opcode =
    let msgs = if is_event then iface.events else iface.requests in
    if leb (length msgs) opcode then none else get_elem? msgs opcode

pub record DecodedArg : Type 0 where
  pub type : ArgType
  pub i32 : ℤ
  pub u32 : ℕ
  pub str : List ℕ
  pub new_id_version : ℕ
  pub array : List ℕ
  pub fd : ℤ

-- The member initialisers.
abbrev pub new_arg : ArgType → DecodedArg
new_arg t = record {
  type = t;
  i32 = pos 0;
  u32 = 0;
  str = [];
  new_id_version = 0;
  array = [];
  fd = negsuc 0;
}

pub record DecodedMessage : Type 0 where
  pub object_id : ℕ
  pub opcode : ℕ
  pub size : ℕ
  pub args : List DecodedArg

abbrev pub is_fd : ArgType → Bool
is_fd ArgType.fd = true
is_fd _ = false

unfoldable pub count_fd_args : MessageSpec → ℕ
count_fd_args msg = count msg.args
  where
    count : List ArgSpec → ℕ
    count [] = 0
    count (a ∷ args) = (if is_fd a.type then 1 else 0) + count args
