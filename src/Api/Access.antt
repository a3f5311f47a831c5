-- ===== src/Api/Access.antt =====
-- The accessors of src/plcstub.c: `plcstub_get_impl`, `plcstub_set_impl`, and the functions that the
-- macros GETTER and SETTER make for each row of TYPEMAP. A value is the bit pattern of its type.
pub mod Locked
use plcstub.Base.{
  ℕ, zero, suc, ◌+◌, ◌-◌, ◌*◌, ◌%◌, ◌^◌, Bool, true, false, Option, none, some, List, [], ◌∷◌, ◌++◌,
  ℤ, pos, negsuc, ltb_ℤ, ltb, ◌==ℤ◌, if◌then◌else◌,
}
use plcstub.Types.{
  TypeT, TagType, tag_array, word, array, struct, size_mod, type_to_enum, type_size_bytes,
}
use plcstub.Bytes.{Bytes, load, store}
use plcstub.Outcome.{Outcome, done, fault, out_of_bounds}
use plcstub.Env.Rb.{Ptr, Entry, RbTree}
use plcstub.Env.Heap.{Node}
use plcstub.Env.Libc.{Libc}
use plcstub.Status.{status_ok, err_not_found, err_bad_param}
use plcstub.TagTree.State.{
  State, M, Event, pure, ◌>>=◌, ◌>>◌, lift, gets, modify, deref, write, mtx_lock, mtx_unlock,
}
use plcstub.TagTree.Metatag.{array_len}
use plcstub.TagTree.Ops.{tag_tree_lookup}

-- The events of libplctag.h
abbrev pub read_started : ℤ
read_started = pos 1

abbrev pub read_completed : ℤ
read_completed = pos 2

abbrev pub write_started : ℤ
write_started = pos 3

abbrev pub write_completed : ℤ
write_completed = pos 4

abbrev pub aborted : ℤ
aborted = pos 5

-- The rows of TYPEMAP
pub data Accessor : Type 0 where
  bit uint64 int64 uint32 int32 uint16 int16 uint8 int8 float64 float32 : Accessor

-- `sizeof` of the row's C type
abbrev pub width : Accessor → ℕ
width bit = 4
width uint64 = 8
width int64 = 8
width uint32 = 4
width int32 = 4
width uint16 = 2
width int16 = 2
width uint8 = 1
width int8 = 1
width float64 = 8
width float32 = 4

-- The conversion of an `int` to an integer type of `w` bytes.
abbrev pub to_bits : ℕ → ℤ → ℕ
to_bits w (pos n) = n % 256 ^ w
to_bits w (negsuc n) = 256 ^ w - 1 - n % 256 ^ w

-- The conversion of a `size_t` to `int`.
abbrev pub to_int : ℕ → ℤ
to_int n = if ltb (n % 2 ^ 32) (2 ^ 31) then pos (n % 2 ^ 32) else negsuc (2 ^ 32 - 1 - n % 2 ^ 32)

-- `offset * type_size_bytes(…)`, converted back to `int`
unfoldable pub scale_offset : ℤ → ℕ → ℤ
scale_offset offset size = to_int (to_bits 8 offset * size % size_mod)

abbrev pub is_array : TagType → Bool
is_array tag_array = true
is_array _ = false

-- `((struct tag_array*)t)->member_type`, read where the type is an array
abbrev pub member_type : TypeT → TypeT
member_type (array len m) = m
member_type t = t

-- `fn(t->data, offset, …)`: an access that leaves the buffer is a fault.
abbrev pub or_fault : {A : Type 0} → Option A → Outcome A
or_fault none = fault out_of_bounds
or_fault (some a) = done a

unfoldable pub getter_cb : ℕ → ℤ → Bytes → Outcome ℕ
unfolding load
getter_cb w (pos off) d = or_fault (load w off d)
getter_cb w (negsuc _) d = fault out_of_bounds

unfoldable pub setter_cb : ℕ → ℤ → ℕ → Bytes → Outcome Bytes
unfolding store
setter_cb w (pos off) v d = or_fault (store w off v d)
setter_cb w (negsuc _) v d = fault out_of_bounds

-- `if (t->cb) t->cb(tag, event, status)`. What the callback does is the application's.
abbrev pub notify : Option ℕ → Bool → ℤ → ℤ → ℤ → List Event → List Event
notify none held tag ev status es = es
notify (some f) held tag ev status es =
    es ++ record { callback = f; tag_id = tag; event = ev; status = status; mutex_held = held } ∷ []

module _ {T : Type 0} where
  unfoldable pub call_cb : Ptr → ℤ → ℤ → ℤ → M T (Unit {0})
  unfolding deref
  call_cb p tag ev status = do
    n ← deref p
    modify (λ s. record s { events = notify n.cb n.locked tag ev status s.events })

  -- The check of the offset, which both implementations make: the offset in bytes, or `none` where
  -- the call ends with PLCTAG_ERR_BAD_PARAM, its mutex released.
  unfoldable pub check_offset : Ptr → ℤ → ℤ → M T (Option ℤ)
  unfolding call_cb deref mtx_unlock type_to_enum scale_offset
  check_offset p tag offset = do
    n ← deref p
    if is_array (type_to_enum n.type)
        then (if ltb_ℤ offset (pos (array_len n.type))
            then pure (some (scale_offset offset (type_size_bytes (member_type n.type))))
            else (mtx_unlock p >> pure none))
        else (if ltb_ℤ (pos 0) offset
            then (call_cb p tag aborted err_bad_param >> (mtx_unlock p >> pure none))
            else pure (some offset))

  -- Behind the lookup. A value comes back only with PLCTAG_STATUS_OK.
  unfoldable pub get_locked : ℕ → Ptr → ℤ → ℤ → M T (ℤ × Option ℕ)
  unfolding check_offset getter_cb mtx_lock
  get_locked w p tag offset = do
    mtx_lock p
    call_cb p tag read_started status_ok
    checked ← check_offset p tag offset
    elim checked [
      | none ↦ pure (err_bad_param, none)
      | some off ↦ do
        n ← deref p
        v ← lift (getter_cb w off n.contents)
        call_cb p tag read_completed status_ok
        mtx_unlock p
        pure (status_ok, some v)
    ]

  unfoldable pub set_locked : ℕ → ℕ → Ptr → ℤ → ℤ → M T ℤ
  unfolding check_offset setter_cb mtx_lock write
  set_locked w v p tag offset = do
    mtx_lock p
    call_cb p tag write_started status_ok
    checked ← check_offset p tag offset
    elim checked [
      | none ↦ pure err_bad_param
      | some off ↦ do
        n ← deref p
        d ← lift (setter_cb w off v n.contents)
        write p (record n { contents = d })
        call_cb p tag write_completed status_ok
        mtx_unlock p
        pure status_ok
    ]

-- `cast a rc` is `(type)(rc)`, given the conversion to the floating types.
abbrev pub cast : (ℕ → ℤ → ℕ) → Accessor → ℤ → ℕ
cast float_bits float64 rc = float_bits 8 rc
cast float_bits float32 rc = float_bits 4 rc
cast float_bits a rc = to_bits (width a) rc

module _ {T : Type 0} (rb : RbTree T) (libc : Libc) where
  unfoldable pub plcstub_get_impl : ℕ → ℤ → ℤ → M T (ℤ × Option ℕ)
  plcstub_get_impl w tag offset = do
    t ← tag_tree_lookup rb libc tag
    elim t [ none ↦ pure (err_not_found, none) | some p ↦ get_locked w p tag offset ]

  unfoldable pub plcstub_set_impl : ℕ → ℕ → ℤ → ℤ → M T ℤ
  plcstub_set_impl w v tag offset = do
    t ← tag_tree_lookup rb libc tag
    elim t [ none ↦ pure err_not_found | some p ↦ set_locked w v p tag offset ]

  -- plc_tag_get_<name>: on an error the status code, converted to the type of the row
  unfoldable pub plc_tag_get : (ℕ → ℤ → ℕ) → Accessor → ℤ → ℤ → M T ℕ
  plc_tag_get float_bits a tag offset = do
    (impl_ret, val) ← plcstub_get_impl (width a) tag offset
    elim val [ none ↦ pure (cast float_bits a impl_ret) | some v ↦ pure v ]

  -- plc_tag_set_<name>
  unfoldable pub plc_tag_set : Accessor → ℤ → ℤ → ℕ → M T ℤ
  plc_tag_set a tag offset val = plcstub_set_impl (width a) val tag offset
