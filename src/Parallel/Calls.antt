-- ===== src/Parallel/Calls.antt =====
-- The calls of src/plcstub.c as programs that are cut at the operations on locks.
use plcstub.Base.{
  ℕ, ◌+◌, Option, none, some, List, [], ◌∷◌, ℤ, pos, ltb_ℤ, if◌then◌else◌, is_some, length,
}
use plcstub.Types.{type_new_simple, type_to_enum, type_size_bytes, tag_lint_code}
use plcstub.Bytes.{Bytes}
use plcstub.Outcome.{done, fault, null_pointer}
use plcstub.Env.Rb.{Ptr, RbTree}
use plcstub.Env.Libc.{Libc}
use plcstub.Status.{status_ok, err_not_found, err_bad_param}
use plcstub.TagTree.State.{lift, gets, deref}
use plcstub.TagTree.Metatag.{array_len}
use plcstub.Api.Access.{
  Accessor, width, cast, is_array, member_type, scale_offset, call_cb, read_started, read_completed,
  write_started, write_completed, aborted,
}
use plcstub.Api.Attrib.{bad_param, attributes, strtok, scan}
use plcstub.Session.{
  Call, Result, int, value, create, destroy, status, unregister, get, set, read, write, register,
}
use plcstub.Session as Names
use plcstub.Parallel.{Prog, ret, lock, unlock, atom, ◌>>=◌, ◌>>◌}
use plcstub.Parallel.Actions.{set_cb, read_data, write_data}
use plcstub.Parallel.Tree.{tree_lookup_prog, tree_insert_prog, tree_remove_prog}

module _ {T : Type 0} where
  -- The check of the offset; where it fails, the mutex is released.
  unfoldable pub check_offset_prog : Ptr → ℤ → ℤ → Prog T (Option ℤ)
  unfolding type_to_enum scale_offset
  check_offset_prog p tag offset = do
    n ← atom (deref p) ret
    if is_array (type_to_enum n.type)
        then (if ltb_ℤ offset (pos (array_len n.type))
            then ret (some (scale_offset offset (type_size_bytes (member_type n.type))))
            else unlock p (ret none))
        else (if ltb_ℤ (pos 0) offset
            then (do atom (call_cb p tag aborted err_bad_param) ret; unlock p (ret none))
            else ret (some offset))

  unfoldable pub get_locked_prog : ℕ → Ptr → ℤ → ℤ → Prog T (ℤ × Option ℕ)
  get_locked_prog w p tag offset = lock p do
    atom (call_cb p tag read_started status_ok) ret
    checked ← check_offset_prog p tag offset
    elim checked [
      | none ↦ ret (err_bad_param, none)
      | some off ↦ do
        v ← atom (read_data w off p) ret
        atom (call_cb p tag read_completed status_ok) ret
        unlock p (ret (status_ok, some v))
    ]

  unfoldable pub set_locked_prog : ℕ → ℕ → Ptr → ℤ → ℤ → Prog T ℤ
  set_locked_prog w v p tag offset = lock p do
    atom (call_cb p tag write_started status_ok) ret
    checked ← check_offset_prog p tag offset
    elim checked [
      | none ↦ ret err_bad_param
      | some off ↦ do
        atom (write_data w v off p) ret
        atom (call_cb p tag write_completed status_ok) ret
        unlock p (ret status_ok)
    ]

  unfoldable pub notify_both_prog : Ptr → ℤ → ℤ → ℤ → Prog T ℤ
  notify_both_prog p tag_id started completed = lock p do
    atom (call_cb p tag_id started status_ok) ret
    atom (call_cb p tag_id completed status_ok) ret
    unlock p (ret status_ok)

  unfoldable pub set_callback_prog : Ptr → Option ℕ → Prog T ℤ
  set_callback_prog p cb = lock p do atom (set_cb cb p) ret; unlock p (ret status_ok)

module _ {T : Type 0} (rb : RbTree T) (libc : Libc) where
  unfoldable pub create_prog : Bytes → ℤ → Prog T ℤ
  create_prog attrib timeout = do
    h ← atom (gets (λ s. s.heap)) ret
    atom
        (lift (if is_some (libc.malloc h (length attrib + 1)) then done tt else fault null_pointer))
        ret
    found ← atom (lift (scan (strtok [] attrib) none)) ret
    elim found [
      | bad_param ↦ ret err_bad_param
      | attributes none ↦ ret err_bad_param
      | attributes (some name) ↦ tree_insert_prog rb libc name (type_new_simple tag_lint_code)
    ]

  -- Looks the tag up and goes on with its node, or returns PLCTAG_ERR_NOT_FOUND.
  unfoldable pub with_tag_prog : ℤ → (Ptr → Prog T ℤ) → Prog T ℤ
  with_tag_prog id f = do
    t ← tree_lookup_prog rb libc id
    elim t [ none ↦ ret err_not_found | some p ↦ f p ]

  unfoldable pub get_prog : (ℕ → ℤ → ℕ) → Accessor → ℤ → ℤ → Prog T ℕ
  get_prog float_bits a tag offset = do
    t ← tree_lookup_prog rb libc tag
    (impl_ret, val) ← elim t [
      | none ↦ ret (err_not_found, none)
      | some p ↦ get_locked_prog (width a) p tag offset
    ]
    elim val [ none ↦ ret (cast float_bits a impl_ret) | some v ↦ ret v ]

  unfoldable pub set_prog : Accessor → ℤ → ℤ → ℕ → Prog T ℤ
  unfolding with_tag_prog
  set_prog a tag offset v = with_tag_prog tag λ p. set_locked_prog (width a) v p tag offset

  unfoldable pub notify_prog : ℤ → ℤ → ℤ → ℤ → Prog T ℤ
  unfolding with_tag_prog
  notify_prog tag_id timeout started completed =
      if ltb_ℤ timeout (pos 0)
      then ret err_bad_param
      else with_tag_prog tag_id (λ p. notify_both_prog p tag_id started completed)

  module _ (fb : ℕ → ℤ → ℕ) where
    abbrev pub as_int : Prog T ℤ → Prog T Result
    as_int m = do r ← m; ret (int r)

    unfoldable pub call_prog : Call → Prog T Result
    unfolding with_tag_prog
    call_prog (create attrib timeout) = as_int (create_prog attrib timeout)
    call_prog (destroy id) = as_int (tree_remove_prog rb libc id)
    call_prog (Names.lock id) = as_int (with_tag_prog id λ p. lock p (ret status_ok))
    call_prog (Names.unlock id) = as_int (with_tag_prog id λ p. unlock p (ret status_ok))
    call_prog (status id) = as_int (with_tag_prog id λ p. ret status_ok)
    call_prog (unregister id) = as_int (with_tag_prog id λ p. set_callback_prog p none)
    call_prog (get a id offset) = do v ← get_prog fb a id offset; ret (value v)
    call_prog (set a id offset v) = as_int (set_prog a id offset v)
    call_prog (read id timeout) = as_int (notify_prog id timeout read_started read_completed)
    call_prog (write id timeout) = as_int (notify_prog id timeout write_started write_completed)
    call_prog (register id cb) = as_int (with_tag_prog id λ p. set_callback_prog p cb)

    -- What one thread does: calls, one after the other.
    unfoldable pub client : List Call → Prog T (List Result)
    client [] = ret []
    client (c ∷ cs) = do r ← call_prog c; rs ← client cs; ret (r ∷ rs)
