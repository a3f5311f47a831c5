-- ===== src/Parallel/Deadlock/Lookup.antt =====
-- The lookup and the removal of a tag by one thread, on a started library, as runs of their programs.
use mathlib.Core.Path.{subst}
use plcstub.Base.{
  Bool, ℕ, ℤ, ◌≡◌, refl, sym, true, false, Option, none, some, List, arith, ◌==ℤ◌, if◌then◌else◌,
}
use plcstub.Env.Rb.{Ptr, RbTree, Entry, entry}
use plcstub.Env.Heap.{Heap}
use plcstub.Env.Libc.{Libc}
use plcstub.TagTree.State.{
  State, Event, RwLock, free, readers, writer, rw_rdlock, rw_wrlock, rw_unlock,
}
use plcstub.TagTree.Ops.{metatag_id, rb_find, rb_remove}
use plcstub.Status.{status_ok, err_not_found}
use plcstub.Parallel.{Prog, ret, rdlock, wrlock, rwunlock, lock, unlock, atom, ◌>>=◌, ◌>>◌, exec}
use plcstub.Parallel.Tree.{
  tree_lookup_prog, tree_init_prog, metanode_create_prog, node_destroy_prog,
}
use plcstub.Parallel.Runs.{Runs, stay, go, Runs->>=, Runs-trans}

module _ {T : Type 0} (rb : RbTree T) (libc : Libc) where
  -- `tag_tree_lookup` and `tag_tree_remove` behind `tag_tree_init`
  abbrev found_prog : Bool → Option Entry → Prog T (Option Ptr)
  found_prog is_meta found = do
    r ← elim found [
      | some e ↦ ret (some e.node)
      | none ↦ if is_meta then (do p ← metanode_create_prog rb libc; ret (some p)) else ret none
    ]
    rwunlock (ret r)

  abbrev search_prog : ℤ → Bool → Prog T (Option Ptr)
  search_prog id is_meta = do
    if is_meta then wrlock (ret tt) else rdlock (ret tt)
    found ← atom (rb_find rb id) ret
    found_prog is_meta found

  abbrev pub take_prog : Option Entry → Prog T ℤ
  take_prog found = elim found [
    | none ↦ rwunlock (ret err_not_found)
    | some e ↦ lock e.node do
      atom (rb_remove rb e) ret
      rwunlock (unlock e.node (do node_destroy_prog e.node; ret status_ok))
  ]

module _ {T : Type 0} (rb : RbTree T) (libc : Libc) (t : T) (size : ℕ) (es : List Event) (id : ℤ)
    (x : Entry) where
  -- The library when it has started.
  abbrev pub at : RwLock → Heap → State T
  at l h = record {
    tree = t;
    tree_size = size;
    tag_tree_inited = true;
    tag_tree_mtx = l;
    heap = h;
    events = es;
  }

  init-Runs : (h : Heap) → Runs (tree_init_prog rb libc) (at free h) (ret tt) (at free h)
  unfolding tree_init_prog exec rw_rdlock rw_unlock
  init-Runs h = go refl (go refl (go refl stay))

  found-Runs :
      (o : Option Entry) (h : Heap)
      → o ≡ some x
      → Runs (found_prog rb libc false o) (at (readers 1) h) (ret (some x.node)) (at free h)
  unfolding exec rw_unlock
  found-Runs o h e =
      subst
        (λ o. Runs (found_prog rb libc false o) (at (readers 1) h) (ret (some x.node)) (at free h))
        (sym e) (go refl stay)

  search-Runs :
      (b : Bool) (h : Heap)
      → b ≡ false
      → rb.find t (entry id 0) ≡ some x
      → Runs (search_prog rb libc id b) (at free h) (ret (some x.node)) (at free h)
  unfolding exec rw_rdlock rb_find
  search-Runs true h e f = absurd (ground arith)
  search-Runs false h e f = go refl (go refl (found-Runs (rb.find t (entry id 0)) h f))

  pub lookup-Runs :
      (h : Heap)
      → (id ==ℤ metatag_id) ≡ false
      → rb.find t (entry id 0) ≡ some x
      → Runs (tree_lookup_prog rb libc id) (at free h) (ret (some x.node)) (at free h)
  unfolding tree_lookup_prog
  lookup-Runs h other f =
      Runs-trans (Runs->>= (λ _. search_prog rb libc id (id ==ℤ metatag_id)) (init-Runs h))
        (search-Runs (id ==ℤ metatag_id) h other f)

  pub remove-Runs :
      (b : Bool) (h : Heap)
      → b ≡ false
      → rb.find t (entry id 0) ≡ some x
      → Runs
          (if b then ret status_ok else (do
            tree_init_prog rb libc
            wrlock (do found ← atom (rb_find rb id) ret; take_prog rb libc found)))
          (at free h)
          (take_prog rb libc (some x))
          (at writer h)
  unfolding exec rw_wrlock rb_find
  remove-Runs true h e f = absurd (ground arith)
  remove-Runs false h e f =
      Runs-trans
        (Runs->>= (λ _. wrlock (do found ← atom (rb_find rb id) ret; take_prog rb libc found))
          (init-Runs h))
        (go refl (
          go refl (
            subst
              (λ o.
                Runs (take_prog rb libc o) (at writer h) (take_prog rb libc (some x)) (at writer h))
              (sym f) stay)))
