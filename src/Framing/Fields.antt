-- ===== src/Framing/Fields.antt =====
-- common/wire.hpp: the typed methods of `Writer` and `Reader` as values, and sequences of calls of them.
use vulkan_remote.Base.{ℕ, ◌-◌, ◌^◌, ◌<◌, ◌≡◌, Option, none, some, List, [], ◌∷◌, ◌++◌}
use vulkan_remote.Base.Lists.{length}
use vulkan_remote.Base.Bytes.{le_bytes}
use vulkan_remote.Base.Words.{ℤ, IsI32, to_u32}
use vulkan_remote.Framing.{
  Writer, Reader, put_u32, put_u64, put_i32, put_f32, put_handle, put_bytes, put_string, strlen,
  get_u32, get_u64, get_i32, get_f32, get_handle, get_bytes, get_string,
}

-- One call of a typed method, with its value.
pub data Field : Type 0 where
  u32 u64 f32 handle : ℕ → Field
  i32 : ℤ → Field
  bytes string : List ℕ → Field

-- The method alone, as the reading side knows it.
pub data Kind : Type 0 where
  u32 u64 f32 handle i32 bytes string : Kind

abbrev pub kind : Field → Kind
kind (Field.u32 v) = Kind.u32
kind (Field.u64 v) = Kind.u64
kind (Field.f32 v) = Kind.f32
kind (Field.handle v) = Kind.handle
kind (Field.i32 v) = Kind.i32
kind (Field.bytes v) = Kind.bytes
kind (Field.string v) = Kind.string

-- The value is one of the C++ type, and a string holds no NUL.
abbrev pub IsTyped : Field → Type 0
IsTyped (Field.u32 v) = v < 2 ^ 32
IsTyped (Field.u64 v) = v < 2 ^ 64
IsTyped (Field.f32 v) = v < 2 ^ 32
IsTyped (Field.handle v) = v < 2 ^ 64
IsTyped (Field.i32 v) = IsI32 v
IsTyped (Field.bytes v) = length v < 2 ^ 32
IsTyped (Field.string v) = (length v < 2 ^ 32) × (strlen v ≡ length v)

unfoldable pub put : Writer → Field → Writer
put w (Field.u32 v) = put_u32 w v
put w (Field.u64 v) = put_u64 w v
put w (Field.f32 v) = put_f32 w v
put w (Field.handle v) = put_handle w v
put w (Field.i32 v) = put_i32 w v
put w (Field.bytes v) = put_bytes w v (length v)
put w (Field.string v) = put_string w (some v)

abbrev of_blob : (List ℕ → Field) → Option (List ℕ) × Reader → Option Field × Reader
of_blob f (none, r) = (none, r)
of_blob f (some v, r) = (some (f v), r)

unfoldable pub get : Kind → Reader → Option Field × Reader
get Kind.u32 r = let (v, r') = get_u32 r in (some (Field.u32 v), r')
get Kind.u64 r = let (v, r') = get_u64 r in (some (Field.u64 v), r')
get Kind.f32 r = let (v, r') = get_f32 r in (some (Field.f32 v), r')
get Kind.handle r = let (v, r') = get_handle r in (some (Field.handle v), r')
get Kind.i32 r = let (v, r') = get_i32 r in (some (Field.i32 v), r')
get Kind.bytes r = of_blob Field.bytes (get_bytes (2 ^ 32 - 1) r)
get Kind.string r = of_blob Field.string (get_string r)

-- The bytes of one field.
abbrev pub encoding : Field → List ℕ
encoding (Field.u32 v) = le_bytes 4 v
encoding (Field.u64 v) = le_bytes 8 v
encoding (Field.f32 v) = le_bytes 4 v
encoding (Field.handle v) = le_bytes 8 v
encoding (Field.i32 v) = le_bytes 4 (to_u32 v)
encoding (Field.bytes v) = le_bytes 4 (length v) ++ v
encoding (Field.string v) = le_bytes 4 (length v) ++ v

abbrev pub put_all : Writer → List Field → Writer
put_all w [] = w
put_all w (f ∷ fs) = put_all (put w f) fs

abbrev pub encodings : List Field → List ℕ
encodings [] = []
encodings (f ∷ fs) = encoding f ++ encodings fs

abbrev pub cons_field : Field → Option (List Field) × Reader → Option (List Field) × Reader
cons_field f (none, r) = (none, r)
cons_field f (some fs, r) = (some (f ∷ fs), r)

-- The calls of a handler that reads fields of known kinds in order, until one returns false.
abbrev pub get_all : List Kind → Reader → Option (List Field) × Reader
get_all [] r = (some [], r)
get_all (k ∷ ks) r =
    let (f, r') = get k r in elim f [ none ↦ (none, r') | some f ↦ cons_field f (get_all ks r') ]
