-- ===== src/Api/Unknown.antt =====
-- The calls of src/plcstub.c on a handle that names no tag.
use plcstub.Base.{ℕ, ◌≡◌, false, Option, none, arith, ℤ, pos, ◌≤ℤ◌, ltb_ℤ, ◌==ℤ◌}
use plcstub.Outcome.{done}
use plcstub.Env.Rb.{entry, RbTree}
use plcstub.Env.Libc.{Libc}
use plcstub.Status.{err_not_found}
use plcstub.TagTree.State.{State, rw_wrlock, rw_unlock}
use plcstub.TagTree.Ops.{metatag_id, tag_tree_remove}
use plcstub.TagTree.Lookup.{IsReady, lookup_missing, init_ready, with_rw-free}
use plcstub.Api.Access.{
  Accessor, cast, plcstub_get_impl, plcstub_set_impl, plc_tag_get, plc_tag_set,
}
use plcstub.Api.Calls.{
  plc_tag_destroy, plc_tag_get_size, plc_tag_lock, plc_tag_unlock, plc_tag_read, plc_tag_write,
  plc_tag_register_callback, plc_tag_unregister_callback, plc_tag_status,
}

module _ {T : Type 0} (rb : RbTree T) (libc : Libc) {s : State T} (r : IsReady s) (id : ℤ)
    (other : (id ==ℤ metatag_id) ≡ false) (missing : rb.find s.tree (entry id 0) ≡ none) where
  pub remove_missing : tag_tree_remove rb libc id s ≡ done (err_not_found, s)
  unfolding tag_tree_remove rw_wrlock rw_unlock
  remove_missing = rw (other, init_ready r rb libc) (ground (arith, with_rw-free r))

  -- On a started library whose tree has no tag `id`, where `id` is not the metatag's: every call
  -- that takes a handle returns PLCTAG_ERR_NOT_FOUND (the getters, that code converted to their
  -- type) and leaves the state as it was. `plc_tag_read` and `plc_tag_write` do so where the timeout
  -- is not negative.
  pub unknown_handle :
      (fb : ℕ → ℤ → ℕ) (a : Accessor) (offset timeout : ℤ) (v : ℕ) (cb : Option ℕ)
      → pos 0 ≤ℤ timeout
      → (plc_tag_get rb libc fb a id offset s ≡ done (cast fb a err_not_found, s))
        × (plc_tag_set rb libc a id offset v s ≡ done (err_not_found, s))
        × (plc_tag_destroy rb libc id s ≡ done (err_not_found, s))
        × (plc_tag_get_size rb libc id s ≡ done (err_not_found, s))
        × (plc_tag_lock rb libc id s ≡ done (err_not_found, s))
        × (plc_tag_unlock rb libc id s ≡ done (err_not_found, s))
        × (plc_tag_read rb libc id timeout s ≡ done (err_not_found, s))
        × (plc_tag_write rb libc id timeout s ≡ done (err_not_found, s))
        × (plc_tag_register_callback rb libc id cb s ≡ done (err_not_found, s))
        × (plc_tag_unregister_callback rb libc id s ≡ done (err_not_found, s))
        × (plc_tag_status rb libc id s ≡ done (err_not_found, s))
  unfolding plc_tag_get plcstub_get_impl plc_tag_set plcstub_set_impl plc_tag_destroy
      plc_tag_get_size plc_tag_lock plc_tag_unlock plc_tag_read plc_tag_write
      plc_tag_register_callback plc_tag_unregister_callback plc_tag_status
  unknown_handle fb a offset timeout v cb t =
      let gone = lookup_missing r rb libc id other missing in
      let late : ltb_ℤ timeout (pos 0) ≡ false = ground arith in
      (
        rw gone,
        rw gone,
        remove_missing,
        rw gone,
        rw gone,
        rw gone,
        rw (late, gone),
        rw (late, gone),
        rw gone,
        rw gone,
        rw gone,
      )
