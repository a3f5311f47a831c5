-- ===== src/Parallel/Alone/Calls.antt =====
-- The calls of src/plcstub.c do what their programs do that run alone.
use mathlib.Core.Path.{fun_ext}
use plcstub.Base.{
  ℕ, ◌+◌, ◌≡◌, ◌∙◌, refl, Option, none, some, List, [], ◌∷◌, ℤ, pos, ltb_ℤ, arith, length, is_some,
  if◌then◌else◌,
}
use plcstub.Types.{type_new_simple, tag_lint_code}
use plcstub.Bytes.{Bytes}
use plcstub.Outcome.{done, fault, null_pointer}
use plcstub.Env.Rb.{Ptr, RbTree}
use plcstub.Env.Libc.{Libc}
use plcstub.Status.{status_ok, err_not_found, err_bad_param}
use plcstub.TagTree.State
use plcstub.TagTree.State.{M, deref}
use plcstub.TagTree.Ops.{tag_tree_insert}
use plcstub.Api.Access.{
  Accessor, width, cast, set_locked, plcstub_get_impl, plcstub_set_impl, plc_tag_get, plc_tag_set,
  read_started, read_completed, write_started, write_completed,
}
use plcstub.Api.Attrib.{Scan, bad_param, attributes, strtok, scan}
use plcstub.Api.Calls.{
  with_tag, notify_both, plc_tag_create, plc_tag_destroy, plc_tag_lock, plc_tag_unlock,
  plc_tag_status, plc_tag_read, plc_tag_write, plc_tag_register_callback,
  plc_tag_unregister_callback,
}
use plcstub.Session.{
  Call, Result, int, value, create, destroy, status, unregister, get, set, read, write, register,
  call, session,
}
use plcstub.Session as Names
use plcstub.Parallel
use plcstub.Parallel.{Prog, ret, lock, unlock, atom, run}
use plcstub.Parallel.Tree.{tree_lookup_prog, tree_insert_prog, tree_remove_prog}
use plcstub.Parallel.Calls.{
  get_locked_prog, set_locked_prog, notify_both_prog, set_callback_prog, create_prog, with_tag_prog,
  get_prog, set_prog, notify_prog, call_prog, client,
}
use plcstub.Parallel.Alone.{both_run, rest_run, if_run, option_run}
use plcstub.Parallel.Alone.Tree.{run-insert, run-remove, run-lookup}
use plcstub.Parallel.Alone.Access.{
  run-get_locked, run-set_locked, run-notify_both, run-set_callback,
}

module _ {T : Type 0} (rb : RbTree T) (libc : Libc) where
  run-with_tag :
      (id : ℤ) (f : Ptr → Prog T ℤ) (g : Ptr → M T ℤ)
      → ((p : Ptr) → run (f p) ≡ g p)
      → run (with_tag_prog rb libc id f) ≡ with_tag rb libc id g
  unfolding run with_tag_prog with_tag
  run-with_tag id f g e =
      both_run (tree_lookup_prog rb libc id)
        (λ t. elim t [ none ↦ ret err_not_found | some p ↦ f p ]) (run-lookup rb libc id)
        λ t. option_run t (ret err_not_found) f _ _ refl e

  -- The parts of a getter behind its lookup.
  abbrev found_prog : Accessor → ℤ → ℤ → Option Ptr → Prog T (ℤ × Option ℕ)
  found_prog a id offset t = elim t [
    | none ↦ ret (err_not_found, none)
    | some p ↦ get_locked_prog (width a) p id offset
  ]

  abbrev returned : (ℕ → ℤ → ℕ) → Accessor → ℤ × Option ℕ → Prog T ℕ
  returned fb a (rc, v) = elim v [ none ↦ ret (cast fb a rc) | some x ↦ ret x ]

  run-get :
      (fb : ℕ → ℤ → ℕ) (a : Accessor) (id offset : ℤ)
      → run (get_prog rb libc fb a id offset) ≡ plc_tag_get rb libc fb a id offset
  unfolding run get_prog plc_tag_get plcstub_get_impl
  run-get fb a id offset =
      both_run (tree_lookup_prog rb libc id)
        (λ t. Parallel.◌>>=◌ (found_prog a id offset t) (returned fb a)) (run-lookup rb libc id)
        (λ t.
          both_run (found_prog a id offset t) (returned fb a)
            (option_run t (ret (err_not_found, none)) (λ p. get_locked_prog (width a) p id offset) _
              _ refl (λ p. run-get_locked (width a) p id offset))
            (λ (rc, v). option_run v (ret (cast fb a rc)) ret _ _ refl (λ x. refl)))
      ∙ fun_ext λ s. ground arith

  run-create_call :
      (attrib : Bytes) (timeout : ℤ)
      → run (create_prog rb libc attrib timeout) ≡ plc_tag_create rb libc attrib timeout
  unfolding run create_prog plc_tag_create
  run-create_call attrib timeout = rest_run (State.gets (λ s. s.heap)) λ h.
      rest_run
        (State.lift
          (if is_some (libc.malloc h (length attrib + 1)) then done tt else fault null_pointer))
        λ _. rest_run (State.lift (scan (strtok [] attrib) none)) λ found. found_run found
    where
      found_run :
          (found : Scan)
          → run (elim found [
            | bad_param ↦ ret err_bad_param
            | attributes none ↦ ret err_bad_param
            | attributes (some name) ↦ tree_insert_prog rb libc name (type_new_simple tag_lint_code)
          ])
            ≡ elim found [
              | bad_param ↦ State.pure err_bad_param
              | attributes none ↦ State.pure err_bad_param
              | attributes (some name) ↦
                  tag_tree_insert rb libc name (type_new_simple tag_lint_code)
            ]
      found_run bad_param = refl
      found_run (attributes none) = refl
      found_run (attributes (some name)) = run-insert rb libc name (type_new_simple tag_lint_code)

  run-set :
      (a : Accessor) (id offset : ℤ) (v : ℕ)
      → run (set_prog rb libc a id offset v) ≡ plc_tag_set rb libc a id offset v
  unfolding run set_prog plc_tag_set plcstub_set_impl with_tag
  run-set a id offset v =
      run-with_tag id (λ p. set_locked_prog (width a) v p id offset)
        (λ p. set_locked (width a) v p id offset) (λ p. run-set_locked (width a) v p id offset)

  run-notify :
      (id timeout first second : ℤ)
      → run (notify_prog rb libc id timeout first second) ≡ (
          if ltb_ℤ timeout (pos 0)
          then State.pure err_bad_param
          else with_tag rb libc id (λ p. notify_both p id first second))
  unfolding run notify_prog
  run-notify id timeout first second =
      if_run (ltb_ℤ timeout (pos 0)) (ret err_bad_param)
        (with_tag_prog rb libc id (λ p. notify_both_prog p id first second)) _ _ refl
        (run-with_tag id (λ p. notify_both_prog p id first second)
          (λ p. notify_both p id first second) (λ p. run-notify_both p id first second))

  module _ (fb : ℕ → ℤ → ℕ) where
    -- The program of a call, run alone, does what the call does, from every state: it ends in the
    -- same way, with the same result and in the same state.
    pub run-call : (c : Call) → run (call_prog rb libc fb c) ≡ call rb libc fb c
    unfolding run call_prog call plc_tag_destroy plc_tag_lock plc_tag_unlock plc_tag_status
        plc_tag_unregister_callback plc_tag_register_callback plc_tag_read plc_tag_write
    run-call (create attrib timeout) =
        both_run (create_prog rb libc attrib timeout) (λ r. ret (int r))
          (run-create_call attrib timeout) (λ r. refl)
    run-call (destroy id) =
        both_run (tree_remove_prog rb libc id) (λ r. ret (int r)) (run-remove rb libc id)
          (λ r. refl)
    run-call (Names.lock id) =
        both_run (with_tag_prog rb libc id (λ p. lock p (ret status_ok))) (λ r. ret (int r))
          (run-with_tag id (λ p. lock p (ret status_ok)) _ (λ p. refl)) (λ r. refl)
    run-call (Names.unlock id) =
        both_run (with_tag_prog rb libc id (λ p. unlock p (ret status_ok))) (λ r. ret (int r))
          (run-with_tag id (λ p. unlock p (ret status_ok)) _ (λ p. refl)) (λ r. refl)
    run-call (status id) =
        both_run (with_tag_prog rb libc id (λ p. ret status_ok)) (λ r. ret (int r))
          (run-with_tag id (λ p. ret status_ok) _ (λ p. refl)) (λ r. refl)
    run-call (unregister id) =
        both_run (with_tag_prog rb libc id (λ p. set_callback_prog p none)) (λ r. ret (int r))
          (run-with_tag id (λ p. set_callback_prog p none) _ (λ p. run-set_callback p none))
          (λ r. refl)
    run-call (get a id offset) =
        both_run (get_prog rb libc fb a id offset) (λ v. ret (value v)) (run-get fb a id offset)
          (λ v. refl)
    run-call (set a id offset v) =
        both_run (set_prog rb libc a id offset v) (λ r. ret (int r)) (run-set a id offset v)
          (λ r. refl)
    run-call (read id timeout) =
        both_run (notify_prog rb libc id timeout read_started read_completed) (λ r. ret (int r))
          (run-notify id timeout read_started read_completed) (λ r. refl)
    run-call (write id timeout) =
        both_run (notify_prog rb libc id timeout write_started write_completed) (λ r. ret (int r))
          (run-notify id timeout write_started write_completed) (λ r. refl)
    run-call (register id cb) =
        both_run (with_tag_prog rb libc id (λ p. set_callback_prog p cb)) (λ r. ret (int r))
          (run-with_tag id (λ p. set_callback_prog p cb) _ (λ p. run-set_callback p cb)) (λ r. refl)

    -- The program of a thread, cut at the operations on locks, when it is run alone does what its calls
    -- do one after the other, from every state: it ends in the same way, with the same results and in
    -- the same state.
    pub run-client : (cs : List Call) → run (client rb libc fb cs) ≡ session rb libc fb cs
    unfolding run client session
    run-client [] = refl
    run-client (c ∷ cs) =
        both_run (call_prog rb libc fb c)
          (λ r. Parallel.◌>>=◌ (client rb libc fb cs) (λ rs. ret (r ∷ rs))) (run-call c)
          λ r. both_run (client rb libc fb cs) (λ rs. ret (r ∷ rs)) (run-client cs) (λ rs. refl)
