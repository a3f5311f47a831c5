-- ===== src/Tests/Accesses.antt =====
-- The theorems on accesses, locks and callbacks at the sample state.
use plcstub.Base.{
  ℕ, ◌+◌, ◌*◌, ◌≤◌, ◌<◌, ◌≡◌, ◌≢◌, ◌⊎◌, refl, length, Bool, true, false, List, [], ◌∷◌, ℤ, pos,
  negsuc, none, some, arith, ◌==ℤ◌,
}
use plcstub.Outcome.{done, blocked, fault, out_of_bounds, dangling}
use plcstub.Types.{word, type_to_enum, type_size_bytes}
use plcstub.Env.Rb.{Ptr, Entry, entry, list_tree, list_find, tagcmp}
use plcstub.Env.Heap.{get}
use plcstub.Env.Libc.{bump}
use plcstub.Status.{status_ok, err_bad_param, err_not_found}
use plcstub.TagTree.State.{State}
use plcstub.Api.Access.{
  get_locked, set_locked, uint64, int32, uint32, uint8, int16, to_bits, scale_offset, plc_tag_get,
  plc_tag_set, aborted, read_started, read_completed, write_started, write_completed, notify,
}
use plcstub.Api.Calls.{
  notify_both, set_callback, plc_tag_lock, plc_tag_unlock, plc_tag_register_callback, plc_tag_read,
  plc_tag_write, plc_tag_destroy, plc_tag_get_size, plc_tag_unregister_callback, plc_tag_status,
}
use plcstub.Api.RoundTrip.{Fits, get-set}
use plcstub.Api.Refusal.{out_of_range, negative_offset}
use plcstub.Api.Locking.{locked_tag_blocks}
use plcstub.Api.Callbacks.{event, read_write-register}
use plcstub.Api.Size.{sizes_differ}
use plcstub.Api.Bounds.{array_access-cases}
use plcstub.Api.Stale.{lookup-remove}
use plcstub.TagTree.Ops.{tag_tree_lookup, tag_tree_remove}
use plcstub.Api.Unknown.{unknown_handle}
use plcstub.Tests.Sample.{
  sample, lint_node, array_node, sample-IsReady, sample-IsSound, lint-IsTag, array-IsTag,
}

-- A conversion of status codes to floats, which the sample does not use.
abbrev pub no_floats : ℕ → ℤ → ℕ
no_floats w rc = 0

element-Fits : Fits array_node 4 (pos 2) 8
unfolding type_to_enum scale_offset type_size_bytes
element-Fits = record { resolved = refl; inside = omega arith }

other-Fits : Fits array_node 4 (pos 3) 12
unfolding type_to_enum scale_offset type_size_bytes
other-Fits = record { resolved = refl; inside = omega arith }

get-set_example :
    (s₁ : State (List Entry)) × (s₂ : State (List Entry)) × (plc_tag_set list_tree bump int32
        (pos 3)
        (pos 2)
        70000
        sample
      ≡ done (status_ok, s₁))
    × (plc_tag_get list_tree bump no_floats uint32 (pos 3) (pos 2) s₁ ≡ done (70000, s₂))
get-set_example =
    get-set list_tree bump no_floats int32 uint32 (pos 2) 70000 array-IsTag element-Fits
      (omega arith) refl

out_of_range_example :
    (s₁ : State (List Entry)) × (s₂ : State (List Entry)) × (plc_tag_set list_tree bump int16
        (pos 2)
        (pos 1)
        5
        sample
      ≡ done (err_bad_param, s₁))
    × (plc_tag_get list_tree bump no_floats int16 (pos 2) (pos 1) sample
        ≡ done (to_bits 2 err_bad_param, s₂))
    × ((q : Ptr) → (get q s₁.heap ≡ get q sample.heap) × (get q s₂.heap ≡ get q sample.heap))
    × (s₁.events
        ≡ notify
            (some 9)
            true
            (pos 2)
            aborted
            err_bad_param
            (notify (some 9) true (pos 2) write_started status_ok []))
    × (s₂.events
        ≡ notify
            (some 9)
            true
            (pos 2)
            aborted
            err_bad_param
            (notify (some 9) true (pos 2) read_started status_ok []))
unfolding type_to_enum
out_of_range_example =
    out_of_range list_tree bump no_floats int16 (pos 1) 5 lint-IsTag (omega arith)

negative_offset_example :
    (plc_tag_set list_tree bump uint8 (pos 2) (negsuc 0) 5 sample ≡ fault out_of_bounds)
    × (plc_tag_get list_tree bump no_floats uint8 (pos 2) (negsuc 0) sample ≡ fault out_of_bounds)
unfolding type_to_enum
negative_offset_example =
    negative_offset list_tree bump no_floats uint8 0 5 lint-IsTag (ground arith)

-- The sample with the tag 2 locked.
abbrev locked_sample : State (List Entry)
locked_sample = record sample { heap = (1, record lint_node { locked = true }) ∷ sample.heap }

locked_tag_blocks_example :
    (plc_tag_get list_tree bump no_floats int32 (pos 2) (pos 0) locked_sample ≡ blocked)
    × (plc_tag_set list_tree bump int32 (pos 2) (pos 0) 1 locked_sample ≡ blocked)
    × (plc_tag_lock list_tree bump (pos 2) locked_sample ≡ blocked)
    × (plc_tag_get_size list_tree bump (pos 2) locked_sample ≡ blocked)
    × (plc_tag_register_callback list_tree bump (pos 2) none locked_sample ≡ blocked)
    × (plc_tag_read list_tree bump (pos 2) (pos 5) locked_sample ≡ blocked)
    × (plc_tag_write list_tree bump (pos 2) (pos 5) locked_sample ≡ blocked)
    × (◌≡◌ {A = Bool} (pos 2 ==ℤ pos 1) false
        → plc_tag_destroy list_tree bump (pos 2) locked_sample ≡ blocked)
    × (plc_tag_status list_tree bump (pos 2) locked_sample ≡ done (status_ok, locked_sample))
unfolding list_find tagcmp get
locked_tag_blocks_example =
    locked_tag_blocks list_tree bump {s = locked_sample} {e = entry (pos 2) 1}
      {n = record lint_node { locked = true }} no_floats int32 (pos 0) (pos 5) 1 none
      (record { inited = refl; unlocked = refl }) refl refl refl (omega arith)

read_write-register_example :
    (s₁ : State (List Entry)) × (s₂ : State (List Entry)) × (s₃ : State (List Entry))
    × (plc_tag_register_callback list_tree bump (pos 3) (some 7) sample ≡ done (status_ok, s₁))
    × (plc_tag_read list_tree bump (pos 3) (pos 0) s₁ ≡ done (status_ok, s₂))
    × (plc_tag_write list_tree bump (pos 3) (pos 0) s₂ ≡ done (status_ok, s₃))
    × (s₃.events
        ≡ event 7 (pos 3) read_started
          ∷ event 7 (pos 3) read_completed
          ∷ event 7 (pos 3) write_started
          ∷ event 7 (pos 3) write_completed
          ∷ [])
read_write-register_example =
    read_write-register list_tree bump (some 7) (pos 0) (pos 0) array-IsTag (omega arith)
      (omega arith)

unknown_handle_example :
    (plc_tag_get list_tree bump no_floats uint8 (pos 42) (pos 0) sample
      ≡ done (to_bits 1 err_not_found, sample))
    × (plc_tag_set list_tree bump uint8 (pos 42) (pos 0) 1 sample ≡ done (err_not_found, sample))
    × (plc_tag_destroy list_tree bump (pos 42) sample ≡ done (err_not_found, sample))
    × (plc_tag_get_size list_tree bump (pos 42) sample ≡ done (err_not_found, sample))
    × (plc_tag_lock list_tree bump (pos 42) sample ≡ done (err_not_found, sample))
    × (plc_tag_unlock list_tree bump (pos 42) sample ≡ done (err_not_found, sample))
    × (plc_tag_read list_tree bump (pos 42) (pos 0) sample ≡ done (err_not_found, sample))
    × (plc_tag_write list_tree bump (pos 42) (pos 0) sample ≡ done (err_not_found, sample))
    × (plc_tag_register_callback list_tree bump (pos 42) none sample ≡ done (err_not_found, sample))
    × (plc_tag_unregister_callback list_tree bump (pos 42) sample ≡ done (err_not_found, sample))
    × (plc_tag_status list_tree bump (pos 42) sample ≡ done (err_not_found, sample))
unfolding list_find tagcmp
unknown_handle_example =
    unknown_handle list_tree bump sample-IsReady (pos 42) refl refl no_floats uint8 (pos 0) (pos 0)
      1 none (omega arith)

-- Four bytes at the last element of an array of four DINTs lie in its buffer, eight do not.
array_access-cases_example :
    ((3 * type_size_bytes (word 4) + 8 ≤ length array_node.contents)
      × ((x : ℕ) × (s₁ : State (List Entry)) × (plc_tag_get list_tree bump no_floats uint64
              (pos 3)
              (pos 3)
              sample
            ≡ done (x, s₁)))
      × ((s₁ : State (List Entry)) × (plc_tag_set list_tree bump uint64 (pos 3) (pos 3) 1 sample
            ≡ done (status_ok, s₁))))
    ⊎ ((length array_node.contents < 3 * type_size_bytes (word 4) + 8)
        × (plc_tag_get list_tree bump no_floats uint64 (pos 3) (pos 3) sample ≡ fault out_of_bounds)
        × (plc_tag_set list_tree bump uint64 (pos 3) (pos 3) 1 sample ≡ fault out_of_bounds))
unfolding type_size_bytes
array_access-cases_example =
    array_access-cases list_tree bump no_floats 4 (word 4) uint64 3 1 array-IsTag refl (omega arith)
      (omega arith) (omega arith)

lookup-remove_example :
    (s' : State (List Entry)) × (tag_tree_lookup list_tree bump (pos 2) sample
      ≡ done (some 1, sample))
    × (tag_tree_remove list_tree bump (pos 2) sample ≡ done (status_ok, s'))
    × (get_locked 4 1 (pos 2) (pos 0) s' ≡ fault dangling)
    × (set_locked 4 7 1 (pos 2) (pos 0) s' ≡ fault dangling)
    × (notify_both 1 (pos 2) read_started read_completed s' ≡ fault dangling)
    × (set_callback 1 none s' ≡ fault dangling)
lookup-remove_example =
    lookup-remove list_tree bump int32 (pos 0) read_started read_completed 7 none lint-IsTag
      sample-IsSound refl

sizes_differ_example :
    (x : ℤ) × (x' : ℤ) × (s₁ : State (List Entry)) × (s₂ : State (List Entry)) × (plc_tag_get_size
        list_tree bump
        (pos 2)
        sample
      ≡ done (x, s₁))
    × (plc_tag_get_size list_tree bump (pos 3) sample ≡ done (x', s₂))
    × (x ≢ x')
sizes_differ_example =
    sizes_differ list_tree bump (pos 2) (pos 3) (entry (pos 2) 1) (entry (pos 3) 2) lint_node
      array_node lint-IsTag array-IsTag (λ e. omega arith) (omega arith) (omega arith)
