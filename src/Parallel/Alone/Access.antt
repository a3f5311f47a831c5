-- ===== src/Parallel/Alone/Access.antt =====
-- What src/plcstub.c does behind the lookup of a tag is what its programs do that run alone.
use mathlib.Core.Path.{fun_ext}
use plcstub.Base.{ℕ, ◌≡◌, refl, Option, none, some, ℤ, pos, ltb_ℤ, arith, if◌then◌else◌}
use plcstub.TagTree.Metatag.{array_len}
use plcstub.Types.{type_to_enum, type_size_bytes}
use plcstub.Env.Rb.{Ptr}
use plcstub.Status.{status_ok, err_bad_param}
use plcstub.TagTree.State
use plcstub.TagTree.State.{M, deref}
use plcstub.Api.Access.{
  is_array, member_type, scale_offset, aborted, check_offset, get_locked, set_locked, call_cb,
  read_started, read_completed, write_started, write_completed,
}
use plcstub.Api.Calls.{notify_both, set_callback}
use plcstub.Parallel.{Prog, ret, unlock, atom, run}
use plcstub.Parallel.Actions.{set_cb, read_data, write_data}
use plcstub.Parallel.Calls.{
  check_offset_prog, get_locked_prog, set_locked_prog, notify_both_prog, set_callback_prog,
}
use plcstub.Parallel.Alone.{both_run, rest_run, if_run, option_run}

module _ {T : Type 0} where
  pub run-check :
      (p : Ptr) (tag offset : ℤ)
      → run {T = T} (check_offset_prog p tag offset) ≡ check_offset p tag offset
  unfolding run check_offset_prog check_offset
  run-check p tag offset = rest_run (deref p) λ n.
      if_run (is_array (type_to_enum n.type))
        (if ltb_ℤ offset (pos (array_len n.type))
          then ret (some (scale_offset offset (type_size_bytes (member_type n.type))))
          else unlock p (ret none))
        (if ltb_ℤ (pos 0) offset
          then atom (call_cb p tag aborted err_bad_param) (λ _. unlock p (ret none))
          else ret (some offset))
        _ _ (if_run (ltb_ℤ offset (pos (array_len n.type))) _ _ _ _ refl refl)
        (if_run (ltb_ℤ (pos 0) offset) _ _ _ _ refl refl)

  -- A getter and a setter whose offset has been accepted.
  abbrev getting : ℕ → Ptr → ℤ → ℤ → Prog T (ℤ × Option ℕ)
  getting w p tag off =
      atom (read_data w off p)
        λ v. atom (call_cb p tag read_completed status_ok) λ _. unlock p (ret (status_ok, some v))

  abbrev setting : ℕ → ℕ → Ptr → ℤ → ℤ → Prog T ℤ
  setting w v p tag off =
      atom (write_data w v off p)
        λ _. atom (call_cb p tag write_completed status_ok) λ _. unlock p (ret status_ok)

  pub run-get_locked :
      (w : ℕ) (p : Ptr) (tag offset : ℤ)
      → run {T = T} (get_locked_prog w p tag offset) ≡ get_locked w p tag offset
  unfolding run get_locked_prog get_locked read_data
  run-get_locked w p tag offset = rest_run (State.mtx_lock p) λ _.
      rest_run (call_cb p tag read_started status_ok) λ _.
        both_run (check_offset_prog p tag offset)
          (λ checked. elim checked [
            | none ↦ ret (err_bad_param, none)
            | some off ↦ getting w p tag off
          ])
          (run-check p tag offset)
          λ checked.
            option_run checked (ret (err_bad_param, none)) (getting w p tag) _ _ refl
              λ off. fun_ext λ s. ground arith

  pub run-set_locked :
      (w v : ℕ) (p : Ptr) (tag offset : ℤ)
      → run {T = T} (set_locked_prog w v p tag offset) ≡ set_locked w v p tag offset
  unfolding run set_locked_prog set_locked write_data
  run-set_locked w v p tag offset = rest_run (State.mtx_lock p) λ _.
      rest_run (call_cb p tag write_started status_ok) λ _.
        both_run (check_offset_prog p tag offset)
          (λ checked. elim checked [ none ↦ ret err_bad_param | some off ↦ setting w v p tag off ])
          (run-check p tag offset)
          λ checked.
            option_run checked (ret err_bad_param) (setting w v p tag) _ _ refl
              λ off. fun_ext λ s. ground arith

  pub run-notify_both :
      (p : Ptr) (tag first second : ℤ)
      → run {T = T} (notify_both_prog p tag first second) ≡ notify_both p tag first second
  unfolding run notify_both_prog notify_both
  run-notify_both p tag first second = refl

  pub run-set_callback :
      (p : Ptr) (cb : Option ℕ) → run {T = T} (set_callback_prog p cb) ≡ set_callback p cb
  unfolding run set_callback_prog set_callback set_cb
  run-set_callback p cb = rest_run (State.mtx_lock p) λ _. fun_ext λ s. ground arith
