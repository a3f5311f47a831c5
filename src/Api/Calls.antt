-- ===== src/Api/Calls.antt =====
-- The other calls of src/plcstub.c.
use plcstub.Base.{ℕ, ◌+◌, Option, none, some, [], ℤ, pos, ltb_ℤ, if◌then◌else◌, is_some, length}
use plcstub.Types.{type_new_simple, tag_lint_code}
use plcstub.Bytes.{Bytes}
use plcstub.Outcome.{Outcome, done, fault, null_pointer}
use plcstub.Env.Rb.{Ptr, RbTree}
use plcstub.Env.Libc.{Libc}
use plcstub.Status.{status_ok, err_not_found, err_bad_param}
use plcstub.Debug.{Debug, debug_get_level, debug_set_level}
use plcstub.TagTree.State.{M, pure, ◌>>=◌, ◌>>◌, lift, gets, deref, write, mtx_lock, mtx_unlock}
use plcstub.TagTree.Ops.{tag_tree_lookup, tag_tree_insert, tag_tree_remove}
use plcstub.Api.Access.{
  to_int, call_cb, read_started, read_completed, write_started, write_completed,
}
use plcstub.Api.Attrib.{bad_param, attributes, strtok, scan}

unfoldable pub plc_tag_check_lib_version : ℤ → ℤ → ℤ → ℤ
plc_tag_check_lib_version req_major req_minor req_patch = status_ok

unfoldable pub plc_tag_get_debug_level : Debug → ℤ
plc_tag_get_debug_level d = debug_get_level d

unfoldable pub plc_tag_set_debug_level : ℤ → Debug → Outcome Debug
plc_tag_set_debug_level level d = debug_set_level level d

module _ {T : Type 0} where
  -- The two notifications of `plc_tag_read` and `plc_tag_write`, under the tag's mutex.
  unfoldable pub notify_both : Ptr → ℤ → ℤ → ℤ → M T ℤ
  unfolding mtx_lock mtx_unlock call_cb
  notify_both p tag_id started completed = do
    mtx_lock p
    call_cb p tag_id started status_ok
    call_cb p tag_id completed status_ok
    mtx_unlock p
    pure status_ok

  -- `t->cb = cb` under the tag's mutex
  unfoldable pub set_callback : Ptr → Option ℕ → M T ℤ
  unfolding mtx_lock mtx_unlock deref write
  set_callback p cb = do
    mtx_lock p
    n ← deref p
    write p (record n { cb = cb })
    mtx_unlock p
    pure status_ok

module _ {T : Type 0} (rb : RbTree T) (libc : Libc) where
  unfoldable pub plc_tag_create : Bytes → ℤ → M T ℤ
  plc_tag_create attrib timeout = do
    h ← gets (λ s. s.heap)
    lift (if is_some (libc.malloc h (length attrib + 1)) then done tt else fault null_pointer)
    found ← lift (scan (strtok [] attrib) none)
    elim found [
      | bad_param ↦ pure err_bad_param
      | attributes none ↦ pure err_bad_param
      | attributes (some name) ↦ tag_tree_insert rb libc name (type_new_simple tag_lint_code)
    ]

  unfoldable pub plc_tag_destroy : ℤ → M T ℤ
  plc_tag_destroy tag = tag_tree_remove rb libc tag

  -- Looks the tag up and goes on with its node, or returns PLCTAG_ERR_NOT_FOUND.
  unfoldable pub with_tag : ℤ → (Ptr → M T ℤ) → M T ℤ
  with_tag id f = do
    t ← tag_tree_lookup rb libc id
    elim t [ none ↦ pure err_not_found | some p ↦ f p ]

  -- `size = t` converts the node's address.
  unfoldable pub plc_tag_get_size : ℤ → M T ℤ
  unfolding with_tag
  plc_tag_get_size id = with_tag id λ p. do mtx_lock p; mtx_unlock p; pure (to_int p)

  unfoldable pub plc_tag_lock : ℤ → M T ℤ
  unfolding with_tag
  plc_tag_lock id = with_tag id λ p. do mtx_lock p; pure status_ok

  unfoldable pub plc_tag_unlock : ℤ → M T ℤ
  unfolding with_tag
  plc_tag_unlock id = with_tag id λ p. do mtx_unlock p; pure status_ok

  unfoldable pub plc_tag_read : ℤ → ℤ → M T ℤ
  unfolding with_tag notify_both
  plc_tag_read tag_id timeout =
      if ltb_ℤ timeout (pos 0)
      then pure err_bad_param
      else with_tag tag_id (λ p. notify_both p tag_id read_started read_completed)

  unfoldable pub plc_tag_write : ℤ → ℤ → M T ℤ
  unfolding with_tag notify_both
  plc_tag_write tag_id timeout =
      if ltb_ℤ timeout (pos 0)
      then pure err_bad_param
      else with_tag tag_id (λ p. notify_both p tag_id write_started write_completed)

  unfoldable pub plc_tag_register_callback : ℤ → Option ℕ → M T ℤ
  unfolding with_tag set_callback
  plc_tag_register_callback tag_id cb = with_tag tag_id (λ p. set_callback p cb)

  unfoldable pub plc_tag_unregister_callback : ℤ → M T ℤ
  unfolding plc_tag_register_callback
  plc_tag_unregister_callback tag_id = plc_tag_register_callback tag_id none

  unfoldable pub plc_tag_status : ℤ → M T ℤ
  unfolding with_tag
  plc_tag_status tag = with_tag tag λ p. pure status_ok
