-- ===== src/Types.antt =====
-- include/types.h and src/types.c: the types of tags. A `type_t` is a pointer-sized word: a small
-- number names a simple type, anything else is the address of a `struct tag_array` or a
-- `struct tag_struct`. The model holds the pointed-to blocks by value.
pub mod Size
pub mod Dup
pub mod Free
use plcstub.Base.{
  ℕ, zero, suc, ◌+◌, ◌*◌, ◌%◌, ◌^◌, String, Bool, true, false, ◌&&◌, List, [], ◌∷◌, ◌++◌, leb,
  if◌then◌else◌,
}
use plcstub.Outcome.{Outcome, done, exit, ◌>>=◌, ◌>>◌, unless_exit, in_bounds}

-- enum tag_type_e
pub data TagType : Type 0 where
  tag_error tag_bool tag_sint tag_int tag_dint tag_real tag_lint tag_array tag_struct : TagType

abbrev pub tag_lint_code : ℕ
tag_lint_code = 6

-- The cast of a word to the enum, for the words up to TAG_LINT.
abbrev pub enum_of : ℕ → TagType
enum_of (suc zero) = tag_bool
enum_of (suc (suc zero)) = tag_sint
enum_of (suc (suc (suc zero))) = tag_int
enum_of (suc (suc (suc (suc zero)))) = tag_dint
enum_of (suc (suc (suc (suc (suc zero))))) = tag_real
enum_of (suc (suc (suc (suc (suc (suc zero)))))) = tag_lint
enum_of _ = tag_error

-- `word` is a value that is not the address of a type's block: a simple type, NULL, or the address
-- of memory whose first word is neither TAG_ARRAY nor TAG_STRUCT. `array` is a `struct tag_array`
-- with its `len` and `member_type`, `struct` a `struct tag_struct` with its `field_cnt` and fields.
mutual
  pub data TypeT : Type 0 where
    word : ℕ → TypeT
    array : ℕ → TypeT → TypeT
    struct : ℕ → Fields → TypeT

  pub data Fields : Type 0 where
    end : Fields
    field : String → TypeT → Fields → Fields

abbrev pub u16 : ℕ
u16 = 2 ^ 16

-- `size_t`
abbrev pub size_mod : ℕ
size_mod = 2 ^ 64

abbrev pub count : Fields → ℕ
count end = 0
count (field _ _ fs) = suc (count fs)

unfoldable pub type_to_enum : TypeT → TagType
type_to_enum (word n) = if leb n tag_lint_code then enum_of n else tag_error
type_to_enum (array _ _) = tag_array
type_to_enum (struct _ _) = tag_struct

unfoldable pub type_new_simple : ℕ → TypeT
type_new_simple e = if leb 1 e && leb e tag_lint_code then word e else word 0

-- `sizeof` of the blocks, on an LP64 target
abbrev pub sizeof_array : ℕ
sizeof_array = 24

abbrev pub sizeof_struct : ℕ
sizeof_struct = 8

abbrev pub sizeof_pair : ℕ
sizeof_pair = 16

abbrev pub sizeof_type : ℕ
sizeof_type = 8

-- `mem n` tells whether `malloc(n)` succeeds.
-- `type_new_array`, given what `type_dup` makes of the member type
unfoldable pub new_array : (ℕ → Bool) → ℕ → Outcome TypeT → Outcome TypeT
new_array mem cnt member = do unless_exit (mem sizeof_array); m ← member; done (array (cnt % u16) m)

-- One round of the loop that fills `fields[i]` of a block of `room` bytes, given the copy of the
-- field's type and what the rest of the loop makes of the rest.
unfoldable pub fill_field : ℕ → ℕ → String → Outcome TypeT → Outcome Fields → Outcome Fields
fill_field room i name copy rest = do
  in_bounds (leb (sizeof_struct + sizeof_pair * i + 8) room)
  t ← copy
  in_bounds (leb (sizeof_struct + sizeof_pair * i + sizeof_pair) room)
  fs ← rest
  done (field name t fs)

-- The loop runs over the first `k` fields, from index `i`.
unfoldable mutual
  pub type_dup : (ℕ → Bool) → TypeT → Outcome TypeT
  type_dup mem (word n) = done (word n)
  type_dup mem (array len m) = new_array mem len (type_dup mem m)
  type_dup mem (struct cnt fs) = do
    unless_exit (mem (sizeof_struct + cnt * sizeof_type))
    new ← dup_fields mem (sizeof_struct + cnt * sizeof_type) cnt 0 fs
    done (struct cnt new)

  pub dup_fields : (ℕ → Bool) → ℕ → ℕ → ℕ → Fields → Outcome Fields
  dup_fields mem room zero i fs = done end
  dup_fields mem room (suc k) i end = in_bounds false >> done end
  dup_fields mem room (suc k) i (field name t fs) =
      fill_field room i name (type_dup mem t) (dup_fields mem room k (i + 1) fs)

unfoldable pub type_new_array : (ℕ → Bool) → ℕ → TypeT → Outcome TypeT
unfolding new_array
type_new_array mem cnt member = new_array mem cnt (type_dup mem member)

-- The variadic arguments are the fields, in order.
unfoldable pub type_new_struct : (ℕ → Bool) → Fields → Outcome TypeT
type_new_struct mem args = do
  unless_exit (mem (sizeof_struct + count args * sizeof_pair))
  fs ← dup_fields mem (sizeof_struct + count args * sizeof_pair) (count args) 0 args
  done (struct (count args % u16) fs)

-- What `free` is called on.
pub data Block : Type 0 where
  array_block : Block
  struct_block : Block
  name_block : String → Block

-- The calls of `free` that `type_free` makes, in order.
unfoldable mutual
  pub type_free : TypeT → List Block
  type_free (word n) = []
  type_free (array len m) = type_free m ++ array_block ∷ []
  type_free (struct cnt fs) = free_fields cnt fs

  pub free_fields : ℕ → Fields → List Block
  free_fields zero fs = []
  free_fields (suc k) end = []
  free_fields (suc k) (field name t fs) = name_block name ∷ (type_free t ++ free_fields k fs)

-- The size of a simple type.
abbrev pub simple_size : TagType → ℕ
simple_size tag_bool = 1
simple_size tag_sint = 1
simple_size tag_int = 2
simple_size tag_dint = 4
simple_size tag_real = 4
simple_size tag_lint = 8
simple_size _ = 0

unfoldable mutual
  unfolding type_to_enum

  pub type_size_bytes : TypeT → ℕ
  type_size_bytes (word n) = simple_size (type_to_enum (word n))
  type_size_bytes (array len m) = type_size_bytes m * len % size_mod
  type_size_bytes (struct cnt fs) = sum_fields cnt 0 fs

  pub sum_fields : ℕ → ℕ → Fields → ℕ
  sum_fields zero sz fs = sz
  sum_fields (suc k) sz end = sz
  sum_fields (suc k) sz (field _ t fs) = sum_fields k ((sz + type_size_bytes t) % size_mod) fs

unfoldable pub type_is_scalar : TypeT → Bool
unfolding type_to_enum
type_is_scalar t = elim (type_to_enum t) [ tag_array ↦ false | tag_struct ↦ false | _ ↦ true ]

abbrev pub enum_str : TagType → String
enum_str tag_bool = "BOOL"
enum_str tag_sint = "SINT"
enum_str tag_int = "INT"
enum_str tag_dint = "DINT"
enum_str tag_real = "REAL"
enum_str tag_lint = "LINT"
enum_str tag_array = "ARRAY"
enum_str tag_struct = "STRUCT"
enum_str tag_error = "ERROR"

unfoldable pub type_str : TypeT → String
unfolding type_to_enum
type_str t = enum_str (type_to_enum t)
