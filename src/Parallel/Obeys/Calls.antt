-- ===== src/Parallel/Obeys/Calls.antt =====
-- The calls of src/plcstub.c obey the discipline of the locks, and hold nothing at their end; all but
-- plc_tag_lock and plc_tag_unlock, which are there to break it.
use plcstub.Base.{
  ℕ, ◌+◌, refl, Bool, true, false, if◌then◌else◌, none, some, List, [], ◌∷◌, ℤ, pos, ltb_ℤ, is_some,
  length,
}
use plcstub.Types.{type_new_simple, tag_lint_code}
use plcstub.Bytes.{Bytes}
use plcstub.Outcome.{done, fault, null_pointer}
use plcstub.Env.Rb.{Ptr, RbTree}
use plcstub.Env.Libc.{Libc}
use plcstub.Api.Access.{
  Accessor, width, read_started, read_completed, write_started, write_completed,
}
use plcstub.Api.Attrib.{Scan, bad_param, attributes}
use plcstub.Session.{Call, create, destroy, status, unregister, get, set, read, write, register}
use plcstub.Session as Names
use plcstub.Status.{err_bad_param}
use plcstub.Parallel.{Prog, ret}
use plcstub.Parallel.Tree.{tree_insert_prog}
use plcstub.Parallel.Calls.{
  create_prog, with_tag_prog, get_prog, set_prog, notify_prog, as_int, call_prog, client,
}
use plcstub.Parallel.Discipline.{nothing, Obeys, Obeys-bind}
use plcstub.Parallel.Keeps.{Spares-gets, Spares-lift}
use plcstub.Parallel.Waits.{Ends, Ends-scan}
use plcstub.Parallel.Obeys.{to, Obeys-if, Obeys-option}
use plcstub.Parallel.Obeys.Entries.{
  tree_lookup_prog-Obeys, tree_insert_prog-Obeys, tree_remove_prog-Obeys,
}
use plcstub.Parallel.Obeys.Access.{
  get_locked_prog-Obeys, set_locked_prog-Obeys, notify_both_prog-Obeys, set_callback_prog-Obeys,
}

-- A call that does not hold a lock at its end.
abbrev pub IsBalanced : Call → Type 0
IsBalanced (Names.lock id) = ⊥
IsBalanced (Names.unlock id) = ⊥
IsBalanced _ = Unit

abbrev pub AreBalanced : List Call → Type 0
AreBalanced [] = Unit
AreBalanced (c ∷ cs) = IsBalanced c × AreBalanced cs

Ends-buffer : (b : Bool) → Ends (if b then done (tt {0}) else fault null_pointer)
Ends-buffer true = tt
Ends-buffer false = tt

module _ {T : Type 0} (rb : RbTree T) (libc : Libc) where
  with_tag_prog-Obeys :
      (id : ℤ) (f : Ptr → Prog T ℤ)
      → ((p : Ptr) → Obeys (to nothing) nothing (f p))
      → Obeys (to nothing) nothing (with_tag_prog rb libc id f)
  unfolding with_tag_prog
  with_tag_prog-Obeys id f h =
      Obeys-bind (to nothing) (to nothing) _ (λ t. Obeys-option (to nothing) nothing t _ _ refl h)
        nothing _ (tree_lookup_prog-Obeys rb libc id)

  notify_prog-Obeys :
      (tag_id timeout started completed : ℤ)
      → Obeys (to nothing) nothing (notify_prog rb libc tag_id timeout started completed)
  unfolding notify_prog
  notify_prog-Obeys tag_id timeout started completed =
      Obeys-if (to nothing) nothing (ltb_ℤ timeout (pos 0)) _ _ refl
        (with_tag_prog-Obeys tag_id _ λ p. notify_both_prog-Obeys T p tag_id started completed)

  set_prog-Obeys :
      (a : Accessor) (tag offset : ℤ) (v : ℕ)
      → Obeys (to nothing) nothing (set_prog rb libc a tag offset v)
  unfolding set_prog
  set_prog-Obeys a tag offset v =
      with_tag_prog-Obeys tag _ λ p. set_locked_prog-Obeys T (width a) v p tag offset

  get_prog-Obeys :
      (fb : ℕ → ℤ → ℕ) (a : Accessor) (tag offset : ℤ)
      → Obeys (to nothing) nothing (get_prog rb libc fb a tag offset)
  unfolding get_prog
  get_prog-Obeys fb a tag offset =
      Obeys-bind (to nothing) (to nothing) _
        (λ t.
          Obeys-bind (to nothing) (to nothing) _
            (λ (impl_ret, val). Obeys-option (to nothing) nothing val _ _ refl λ v. refl) nothing _
            (Obeys-option (to nothing) nothing t _ _ refl
              λ p. get_locked_prog-Obeys T (width a) p tag offset))
        nothing _ (tree_lookup_prog-Obeys rb libc tag)

  create_prog-Obeys :
      (attrib : Bytes) (timeout : ℤ)
      → Obeys (to nothing) nothing (create_prog rb libc attrib timeout)
  unfolding create_prog
  create_prog-Obeys attrib timeout = (
    Spares-gets _,
    λ h. (
      Spares-lift _ (Ends-buffer (is_some (libc.malloc h (length attrib + 1)))),
      λ _. (Spares-lift _ (Ends-scan _ none), parsed),
    ),
  )
    where
      parsed :
          (found : Scan)
          → Obeys (to nothing) nothing (elim found as (λ _. Prog T ℤ) [
            | bad_param ↦ ret err_bad_param
            | attributes none ↦ ret err_bad_param
            | attributes (some name) ↦ tree_insert_prog rb libc name (type_new_simple tag_lint_code)
          ])
      parsed bad_param = refl
      parsed (attributes none) = refl
      parsed (attributes (some name)) = tree_insert_prog-Obeys rb libc name _

  module _ (fb : ℕ → ℤ → ℕ) where
    as_int-Obeys :
        (m : Prog T ℤ)
        → Obeys (to nothing) nothing m
        → Obeys (to nothing) nothing (as_int rb libc fb m)
    as_int-Obeys m o = Obeys-bind (to nothing) (to nothing) _ (λ r. refl) nothing m o

    -- Every call but plc_tag_lock and plc_tag_unlock obeys the discipline of the locks, and holds none
    -- at its end. It asks for the tree's lock only while it holds no lock, and for a node's mutex only
    -- while it holds no other one's and does not hold the tree's lock to read; it releases only what it
    -- holds; and between it does not wait, leaves the locks alone, and of the nodes that are there
    -- changes only those whose mutex it holds.
    pub call_prog-Obeys :
        (c : Call) → IsBalanced c → Obeys (to nothing) nothing (call_prog rb libc fb c)
    unfolding call_prog
    call_prog-Obeys (create attrib timeout) b = as_int-Obeys _ (create_prog-Obeys attrib timeout)
    call_prog-Obeys (destroy id) b = as_int-Obeys _ (tree_remove_prog-Obeys rb libc id)
    call_prog-Obeys (Names.lock id) b = absurd b
    call_prog-Obeys (Names.unlock id) b = absurd b
    call_prog-Obeys (status id) b = as_int-Obeys _ (with_tag_prog-Obeys id _ λ p. refl)
    call_prog-Obeys (unregister id) b =
        as_int-Obeys _ (with_tag_prog-Obeys id _ λ p. set_callback_prog-Obeys T p none)
    call_prog-Obeys (get a id offset) b =
        Obeys-bind (to nothing) (to nothing) _ (λ v. refl) nothing _ (get_prog-Obeys fb a id offset)
    call_prog-Obeys (set a id offset v) b = as_int-Obeys _ (set_prog-Obeys a id offset v)
    call_prog-Obeys (read id timeout) b =
        as_int-Obeys _ (notify_prog-Obeys id timeout read_started read_completed)
    call_prog-Obeys (write id timeout) b =
        as_int-Obeys _ (notify_prog-Obeys id timeout write_started write_completed)
    call_prog-Obeys (register id cb) b =
        as_int-Obeys _ (with_tag_prog-Obeys id _ λ p. set_callback_prog-Obeys T p cb)

    pub client-Obeys :
        (cs : List Call) → AreBalanced cs → Obeys (to nothing) nothing (client rb libc fb cs)
    unfolding client
    client-Obeys [] b = refl
    client-Obeys (c ∷ cs) (b, bs) =
        Obeys-bind (to nothing) (to nothing) _
          (λ r. Obeys-bind (to nothing) (to nothing) _ (λ rs. refl) nothing _ (client-Obeys cs bs))
          nothing _ (call_prog-Obeys c b)
