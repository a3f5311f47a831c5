-- ===== src/Tests/Parts.antt =====
-- The theorems on types, status codes and the debug level at concrete inputs.
use plcstub.Base.{
  ℕ, ◌%◌, ◌≡◌, ◌↔◌, ◌⊎◌, refl, Bool, true, false, [], ◌∷◌, pos, negsuc, ◌≤ℤ◌, ◌<ℤ◌, arith,
}
use plcstub.Outcome.{done, exit, fault, out_of_bounds}
use plcstub.Types.{
  TypeT, Fields, word, array, struct, end, field, array_block, name_block, size_mod, type_dup,
  type_free, type_size_bytes,
}
use plcstub.Types.Size.{extent, type_size_bytes-extent}
use plcstub.Types.Dup.{HasNoFields, type_dup-cases}
use plcstub.Types.Free.{owned, without_structs, type_free-owned}
use plcstub.Status.{plc_tag_decode_error, err_busy, status_pending}
use plcstub.Status.Names.{decode_error-unknown_iff}
use plcstub.Debug.{Debug, initial, debug_set_level, pdebug}
use plcstub.Debug.Laws.{IsLevel, debug_set_level-cases, pdebug-silent_iff}

-- An allocator that never fails.
abbrev plenty : ℕ → Bool
plenty n = true

-- Three fields: an INT, a DINT and an array of seven INTs.
abbrev fields : Fields
fields = field "a" (word 3) (field "b" (word 4) (field "c" (array 7 (word 3)) end))

abbrev nested : TypeT
nested = struct 3 fields

type_size_bytes-extent_example : type_size_bytes nested ≡ extent nested % size_mod
type_size_bytes-extent_example = type_size_bytes-extent nested (omega arith)

type_dup-cases_example :
    (HasNoFields nested × (type_dup plenty nested ≡ done nested))
    ⊎ ((HasNoFields nested → ⊥) × (type_dup plenty nested ≡ fault out_of_bounds))
type_dup-cases_example = type_dup-cases plenty (λ n. refl) nested (omega arith)

type_free-owned_example : type_free nested ≡ without_structs (owned nested)
type_free-owned_example = type_free-owned nested (omega arith)

freed : type_free nested ≡ name_block "a" ∷ name_block "b" ∷ name_block "c" ∷ array_block ∷ []
unfolding type_free
freed = refl

decode_error-unknown_iff_example :
    (plc_tag_decode_error (negsuc 99) ≡ "Unknown error.")
    ↔ ((err_busy ≤ℤ negsuc 99) × (negsuc 99 ≤ℤ status_pending) → ⊥)
decode_error-unknown_iff_example = decode_error-unknown_iff (negsuc 99)

abbrev quiet : Debug
quiet = initial false

debug_set_level-cases_example :
    (IsLevel (pos 9)
      × (debug_set_level (pos 9) quiet ≡ done (record quiet { debug_level = pos 9 })))
    ⊎ ((IsLevel (pos 9) → ⊥) × (debug_set_level (pos 9) quiet ≡ exit))
debug_set_level-cases_example = debug_set_level-cases (pos 9) quiet

pdebug-silent_iff_example :
    ((pdebug "f" "types.c" 7 (pos 5) "spew" (record quiet { debug_level = pos 4 })).output
      ≡ quiet.output)
    ↔ (pos 4 <ℤ pos 5)
unfolding debug_set_level
pdebug-silent_iff_example =
    pdebug-silent_iff (pos 4) (pos 5) quiet (record quiet { debug_level = pos 4 }) "f" "types.c"
      "spew" 7 refl
