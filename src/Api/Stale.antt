-- ===== src/Api/Stale.antt =====
-- Two threads at one tag: between the return of `tag_tree_lookup` of src/tagtree.c and the lock of
-- the node in src/plcstub.c the tree is not locked, and another thread may remove the tag.
use plcstub.Base.{ℕ, ◌≡◌, sym, ◌∙◌, false, Option, none, some, arith, ℤ, ◌==ℤ◌}
use plcstub.Outcome.{done, fault, dangling}
use plcstub.Env.Rb.{Ptr, Entry, RbTree}
use plcstub.Env.Heap.{Node, get}
use plcstub.Env.Libc.{Libc}
use plcstub.Status.{status_ok}
use plcstub.TagTree.State.{State, mtx_lock, deref}
use plcstub.TagTree.Ops.{metatag_id, tag_tree_lookup, tag_tree_remove}
use plcstub.TagTree.Lookup.{lookup_found}
use plcstub.TagTree.Order.{rb_find-find_id}
use plcstub.TagTree.Sound.{IsSound}
use plcstub.TagTree.Remove.{tag_tree_remove-IsWithout}
use plcstub.Api.Access.{Accessor, width, get_locked, set_locked}
use plcstub.Api.RoundTrip.{IsTag}
use plcstub.Api.Calls.{notify_both, set_callback}

-- Whoever locks a freed node reads it.
freed_faults :
    {T : Type 0} (s : State T) (p : Ptr) (w v : ℕ) (id offset first second : ℤ) (cb : Option ℕ)
    → get p s.heap ≡ none
    → (get_locked w p id offset s ≡ fault dangling)
      × (set_locked w v p id offset s ≡ fault dangling)
      × (notify_both p id first second s ≡ fault dangling)
      × (set_callback p cb s ≡ fault dangling)
unfolding get_locked set_locked notify_both set_callback mtx_lock deref
freed_faults s p w v id offset first second cb freed =
    (ground arith, ground arith, ground arith, ground arith)

module _ {T : Type 0} (rb : RbTree T) (libc : Libc) {s : State T} {id : ℤ} {e : Entry}
    {n : Node} where
  -- One thread looks a tag up, other than the metatag, whose mutex is free; another removes it; then
  -- the first goes on with the address that it got. The lookup and the removal return, and every
  -- continuation, an access, a notification or the registration of a callback, reads the freed node.
  pub lookup-remove :
      (a : Accessor) (offset first second : ℤ) (v : ℕ) (cb : Option ℕ)
      → IsTag rb s id e n
      → IsSound rb s
      → (id ==ℤ metatag_id) ≡ false
      → (s' : State T) × (tag_tree_lookup rb libc id s ≡ done (some e.node, s))
        × (tag_tree_remove rb libc id s ≡ done (status_ok, s'))
        × (get_locked (width a) e.node id offset s' ≡ fault dangling)
        × (set_locked (width a) v e.node id offset s' ≡ fault dangling)
        × (notify_both e.node id first second s' ≡ fault dangling)
        × (set_callback e.node cb s' ≡ fault dangling)
  lookup-remove a offset first second v cb tag sound other =
      let f = sym (rb_find-find_id rb s.tree id 0) ∙ tag.found in
      let (s', removed, _, freed, _) =
        tag_tree_remove-IsWithout rb libc id s tag.ready sound e n other f tag.at tag.free in
      let (gets, sets, notifies, registers) =
        freed_faults s' e.node (width a) v id offset first second cb freed in
      (s', lookup_found tag.ready rb libc id e tag.found, removed, gets, sets, notifies, registers)
