-- ===== src/Tests/Runs.antt =====
-- The library's first calls, with a list for the tree and an allocator that never fails.
use plcstub.Base.{ℕ, ◌≡◌, refl, List, [], false, none, some, ℤ, pos, Option}
use plcstub.Outcome.{Outcome, done}
use plcstub.Env.Rb.{Entry, list_tree, list_find, list_insert}
use plcstub.Env.Heap.{get, put, delete}
use plcstub.Env.Libc.{bump, top}
use plcstub.Types.{type_new_simple, type_dup, type_size_bytes}
use plcstub.TagTree.State.{State, free, mtx_lock, mtx_unlock, rw_rdlock, rw_wrlock, rw_unlock}
use plcstub.TagTree.Ops.{
  tag_tree_init, tag_tree_lookup, tag_tree_node_create, define_scalar, define_scalars, drop_metatag,
  tag_tree_node_destroy, buffer_size,
}
use plcstub.Api.Access.{uint16, plc_tag_get, plcstub_get_impl, get_locked}

abbrev start : State (List Entry)
start = record {
  tree = [];
  tree_size = 0;
  tag_tree_inited = false;
  tag_tree_mtx = free;
  heap = [];
  events = [];
}

-- What a call returned.
abbrev result : {A : Type 0} → Outcome (A × State (List Entry)) → Option A
result (done (a, s)) = some a
result _ = none

abbrev no_floats : ℕ → ℤ → ℕ
no_floats w rc = 0

-- DUMMY_AQUA_DATA_7 is defined as an INT of value 7; the second byte keeps the fill.
aqua_7 : result (plc_tag_get list_tree bump no_floats uint16 (pos 9) (pos 0) start) ≡ some 0x4207
unfolding plc_tag_get plcstub_get_impl get_locked tag_tree_lookup tag_tree_init tag_tree_node_create
    define_scalar define_scalars drop_metatag tag_tree_node_destroy type_new_simple type_dup
    buffer_size type_size_bytes list_find list_insert top get put delete rw_rdlock rw_wrlock
    rw_unlock mtx_lock mtx_unlock plcstub.Bytes.splice
aqua_7 = refl
