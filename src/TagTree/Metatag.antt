-- ===== src/TagTree/Metatag.antt =====
-- The contents of the metatag "@tags": `struct metatag_t` of include/plcstub.h, and the loop of
-- `tag_tree_metanode_create` in src/tagtree.c that fills the buffer.
use plcstub.Base.{
  ℕ, ◌+◌, ◌-◌, ◌%◌, ◌^◌, Bool, true, false, ◌||◌, List, [], ◌∷◌, ◌++◌, ℤ, pos, negsuc, leb, length,
  take, if◌then◌else◌,
}
use plcstub.Types.{
  TypeT, TagType, array, tag_struct, size_mod, u16, type_to_enum, type_is_scalar, type_size_bytes,
}
use plcstub.Bytes.{Bytes, encode, splice}
use plcstub.Outcome.{Outcome, done, ◌>>◌, in_bounds}
use plcstub.Env.Heap.{Node}

-- sizeof(struct metatag_t), which is packed
abbrev pub sizeof_metatag : ℕ
sizeof_metatag = 22

-- The conversion of an `int` to `uint32_t`.
abbrev pub to_u32 : ℤ → ℕ
to_u32 (pos n) = n % 2 ^ 32
to_u32 (negsuc n) = 2 ^ 32 - 1 - n % 2 ^ 32

abbrev pub is_struct : TagType → Bool
is_struct tag_struct = true
is_struct _ = false

-- `((struct tag_array*)t)->len`, read where the type is an array
abbrev pub array_len : TypeT → ℕ
array_len (array len m) = len
array_len _ = 0

unfoldable pub first_dim : TypeT → ℕ
unfolding type_is_scalar type_to_enum
first_dim t = if type_is_scalar t || is_struct (type_to_enum t) then 0 else array_len t

-- `mt->length`
abbrev pub name_length : Node → ℕ
name_length n = length n.name % u16

-- The bytes of one entry: its header and the copy of the name.
unfoldable pub meta_entry : Node → Bytes
unfolding first_dim
meta_entry n =
    encode 4 (to_u32 n.tag_id)
    ++ (encode 2 (2 ^ 13)
        ++ (encode 2 (type_size_bytes n.type)
            ++ (encode 4 (first_dim n.type)
                ++ (encode 4 0
                    ++ (encode 4 0 ++ (encode 2 (name_length n) ++ take (name_length n) n.name))))))

-- The first loop of `tag_tree_metanode_create`.
unfoldable pub total_size : ℕ → List Node → ℕ
total_size total [] = total
total_size total (n ∷ ns) = total_size ((total + (sizeof_metatag + length n.name)) % size_mod) ns

-- The second loop, from the offset `p` of the buffer.
unfoldable pub write_entries : ℕ → List Node → Bytes → Outcome Bytes
unfolding meta_entry
write_entries p [] d = done d
write_entries p (n ∷ ns) d = do
  in_bounds (leb (p + (sizeof_metatag + name_length n)) (length d))
  write_entries (p + (sizeof_metatag + name_length n)) ns (splice p (meta_entry n) d)
