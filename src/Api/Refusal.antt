-- ===== src/Api/Refusal.antt =====
-- Offsets that the accessors of src/plcstub.c refuse, or do not refuse.
use plcstub.Base.{
  ℕ, ◌≡◌, ◌≢◌, refl, true, none, some, arith, ℤ, pos, negsuc, ◌≤ℤ◌, ◌<ℤ◌, if◌then◌else◌,
}
use plcstub.Outcome.{done, fault, out_of_bounds}
use plcstub.Types.{TypeT, tag_array, type_to_enum}
use plcstub.Env.Rb.{Ptr, Entry, RbTree}
use plcstub.Env.Heap.{Node, get}
use plcstub.Env.Libc.{Libc}
use plcstub.Status.{status_ok, err_bad_param}
use plcstub.TagTree.State.{State}
use plcstub.TagTree.Metatag.{array_len}
use plcstub.TagTree.Lookup.{lookup_found}
use plcstub.Api.Access.{
  Accessor, width, cast, is_array, plcstub_get_impl, plcstub_set_impl, plc_tag_get, plc_tag_set,
  getter_cb, setter_cb, read_started, write_started, aborted, notify,
}
use plcstub.Api.Access.Locked.{
  resolve, released, refusal, get_refused, set_refused, get_faults, set_faults, get-released,
}
use plcstub.Api.RoundTrip.{IsTag}

-- An offset is out of range for a type: positive where the type is no array, at least the length
-- where it is one.
abbrev pub IsOutOfRange : TypeT → ℤ → Type 0
IsOutOfRange t offset =
    if is_array (type_to_enum t) then (pos (array_len t) ≤ℤ offset) else (pos 0 <ℤ offset)

refused_of_range : (t : TypeT) (offset : ℤ) → IsOutOfRange t offset → resolve t offset ≡ none
refused_of_range t offset h = ground arith

module _ {T : Type 0} (rb : RbTree T) (libc : Libc) (fb : ℕ → ℤ → ℕ) {s : State T} {id : ℤ}
    {e : Entry} {n : Node} where
  -- On a tag whose mutex is free, with an offset that is out of range, `plc_tag_set_<a>` returns
  -- PLCTAG_ERR_BAD_PARAM and `plc_tag_get_<a>` the same code converted to its type. Every node stays
  -- as it was, its mutex included. The callback of a tag that is no array hears that the access
  -- started and was aborted; that of an array hears only that it started.
  pub out_of_range :
      (a : Accessor) (offset : ℤ) (v : ℕ)
      → IsTag rb s id e n
      → IsOutOfRange n.type offset
      → (s₁ : State T) × (s₂ : State T) × (plc_tag_set rb libc a id offset v s
          ≡ done (err_bad_param, s₁))
        × (plc_tag_get rb libc fb a id offset s ≡ done (cast fb a err_bad_param, s₂))
        × ((q : Ptr) → (get q s₁.heap ≡ get q s.heap) × (get q s₂.heap ≡ get q s.heap))
        × (s₁.events ≡ (
            if is_array (type_to_enum n.type)
            then notify n.cb true id write_started status_ok s.events
            else notify n.cb true id aborted err_bad_param
                (notify n.cb true id write_started status_ok s.events)))
        × (s₂.events ≡ (
            if is_array (type_to_enum n.type)
            then notify n.cb true id read_started status_ok s.events
            else notify n.cb true id aborted err_bad_param
                (notify n.cb true id read_started status_ok s.events)))
  unfolding plc_tag_set plcstub_set_impl plc_tag_get plcstub_get_impl
  out_of_range a offset v tag out =
      let r = refused_of_range n.type offset out in
      let found = lookup_found tag.ready rb libc id e tag.found in
      (
        refused_state write_started,
        refused_state read_started,
        rw found (set_refused s e.node n tag.at tag.free (width a) v id offset r),
        rw (found, get_refused s e.node n tag.at tag.free (width a) id offset r),
        (λ q. (
          get-released e.node q n s.heap tag.at tag.free,
          get-released e.node q n s.heap tag.at tag.free,
        )),
        refl,
        refl,
      )
    where
      refused_state : ℤ → State T
      refused_state started = record s {
        heap = released e.node n s.heap;
        events = refusal s e.node n tag.at tag.free id started;
      }

  -- A negative offset is not refused on a tag that is no array and whose mutex is free: the access
  -- before the start of the buffer is undefined behaviour.
  pub negative_offset :
      (a : Accessor) (k v : ℕ)
      → IsTag rb s id e n
      → type_to_enum n.type ≢ tag_array
      → (plc_tag_set rb libc a id (negsuc k) v s ≡ fault out_of_bounds)
        × (plc_tag_get rb libc fb a id (negsuc k) s ≡ fault out_of_bounds)
  unfolding plc_tag_set plcstub_set_impl plc_tag_get plcstub_get_impl getter_cb setter_cb
  negative_offset a k v tag scalar =
      let found = lookup_found tag.ready rb libc id e tag.found in
      let r : resolve n.type (negsuc k) ≡ some (negsuc k) = ground arith in
      (
        rw found
            (set_faults s e.node n tag.at tag.free (width a) v id (negsuc k) (negsuc k) r refl),
        rw (found, get_faults s e.node n tag.at tag.free (width a) id (negsuc k) (negsuc k) r refl),
      )
