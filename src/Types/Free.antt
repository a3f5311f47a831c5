-- ===== src/Types/Free.antt =====
-- What `type_free` of src/types.c gives back, against what a type owns.
use mathlib.Core.List.{append-nil}
use plcstub.Base.{ℕ, zero, suc, ◌≡◌, refl, List, [], ◌∷◌, ◌++◌, arith}
use plcstub.Types.{
  TypeT, Fields, word, array, struct, end, field, count, Block, array_block, struct_block,
  name_block, type_free, free_fields,
}
use plcstub.Types.Size.{IsWellFormed, AreWellFormed}

-- The blocks that a type is made of.
unfoldable mutual
  pub owned : TypeT → List Block
  owned (word n) = []
  owned (array len m) = owned m ++ array_block ∷ []
  owned (struct cnt fs) = owned_fields fs ++ struct_block ∷ []

  pub owned_fields : Fields → List Block
  owned_fields end = []
  owned_fields (field name t fs) = name_block name ∷ (owned t ++ owned_fields fs)

-- All but the blocks of structs.
unfoldable pub without_structs : List Block → List Block
without_structs [] = []
without_structs (array_block ∷ bs) = array_block ∷ without_structs bs
without_structs (struct_block ∷ bs) = without_structs bs
without_structs (name_block n ∷ bs) = name_block n ∷ without_structs bs

without_structs-append :
    (xs ys : List Block) → without_structs (xs ++ ys) ≡ without_structs xs ++ without_structs ys
unfolding without_structs
without_structs-append [] ys = refl
without_structs-append (array_block ∷ xs) ys = rw (without_structs-append xs ys)
without_structs-append (struct_block ∷ xs) ys = without_structs-append xs ys
without_structs-append (name_block n ∷ xs) ys = rw (without_structs-append xs ys)

mutual
  unfolding type_free owned without_structs

  frees : (t : TypeT) → IsWellFormed t → type_free t ≡ without_structs (owned t)
  frees (word n) w = refl
  frees (array len m) w = rw (without_structs-append (owned m) (array_block ∷ []), frees m w.1)
  frees (struct cnt fs) w = rw (without_structs-append, append-nil) (frees_fields fs cnt w.1 w.2)

  frees_fields :
      (fs : Fields) (k : ℕ)
      → k ≡ count fs
      → AreWellFormed fs
      → free_fields k fs ≡ without_structs (owned_fields fs)
  frees_fields end zero e w = refl
  frees_fields end (suc k) e w = refl
  frees_fields (field n t fs) zero e w = absurd (omega arith)
  frees_fields (field n t fs) (suc k) e w =
      rw (without_structs-append, frees t w.0, frees_fields fs k (omega arith) w.1)

-- `type_free` of a well-formed type frees each array block and each field name that the type owns,
-- once and in the order of the walk, and the block of no struct.
pub type_free-owned : (t : TypeT) → IsWellFormed t → type_free t ≡ without_structs (owned t)
type_free-owned t w = frees t w
