-- ===== src/TagTree/Remove.antt =====
-- `tag_tree_remove` of src/tagtree.c, from a sound tree.
use plcstub.Base.{
  ◌≡◌, sym, ◌∙◌, true, false, none, some, arith, ℤ, ◌==ℤ◌, ◌==◌, ==-refl, if◌then◌else◌,
}
use plcstub.Outcome.{done}
use plcstub.Env.Rb.{Ptr, Entry, entry, RbTree}
use plcstub.Env.Heap.{Node, Heap, get, put, delete, get-put, get-delete}
use plcstub.Env.Libc.{Libc}
use plcstub.Status.{status_ok}
use plcstub.TagTree.State.{State, free, mtx_lock, mtx_unlock, rw_wrlock, rw_unlock}
use plcstub.TagTree.Ops.{metatag_id, decr_size, tag_tree_node_destroy, tag_tree_remove}
use plcstub.TagTree.Lookup.{IsReady, init_ready}
use plcstub.TagTree.Order.{find_id, rb_find-find_id}
use plcstub.TagTree.Sound.{IsSound, Avoids-find_id}
use plcstub.TagTree.Create.Drop.{IsWithout, cut-IsWithout}

-- What the heap is after the node has been locked, unlocked, locked again and freed.
abbrev gone : Ptr → Node → Heap → Heap
gone p m h = delete p (
    put p (record m { locked = true })
      (put p (record m { locked = false }) (put p (record m { locked = true }) h)))

get-gone :
    (p q : Ptr) (m : Node) (h : Heap) → get q (gone p m h) ≡ (if q == p then none else get q h)
get-gone p q m h = ground (
  arith,
  get-delete p q (
      put p (record m { locked = true })
        (put p (record m { locked = false }) (put p (record m { locked = true }) h))),
  get-put p q (record m { locked = true })
      (put p (record m { locked = false }) (put p (record m { locked = true }) h)),
  get-put p q (record m { locked = false }) (put p (record m { locked = true }) h),
  get-put p q (record m { locked = true }) h,
)

module _ {T : Type 0} (rb : RbTree T) (libc : Libc) (id : ℤ) (s : State T) (ready : IsReady s)
    (sound : IsSound rb s) (e : Entry) (m : Node) where
  abbrev removed : State T
  removed = record s {
    tree = rb.remove s.tree e;
    tree_size = decr_size s.tree_size;
    heap = gone e.node m s.heap;
  }

  remove_runs :
      (id ==ℤ metatag_id) ≡ false
      → find_id id (rb.elements s.tree) ≡ some e
      → get e.node s.heap ≡ some m
      → m.locked ≡ false
      → tag_tree_remove rb libc id s ≡ done (status_ok, record removed { tag_tree_mtx = free })
  unfolding tag_tree_remove tag_tree_node_destroy mtx_lock mtx_unlock rw_wrlock rw_unlock
  remove_runs other f at unlocked =
      let found : rb.find s.tree (entry id 0) ≡ some e = rb_find-find_id rb s.tree id 0 ∙ f in
      let ne = Avoids-find_id 0 id (rb.elements s.tree) e sound.nonnull f in
      rw (other, init_ready ready rb libc)
        (ground (
          arith,
          found,
          ready.unlocked,
          ==-refl e.node,
          get-put e.node e.node (record m { locked = true }) s.heap,
          get-put e.node e.node (record m { locked = false })
              (put e.node (record m { locked = true }) s.heap),
        ))

  -- On a started library with a sound tree, `tag_tree_remove` of a tag in it, other than the
  -- metatag, whose mutex is free, returns PLCTAG_STATUS_OK and calls no callback. The tag is not
  -- found any more and its node is freed; every other tag is found with its node as before; and the
  -- tree is sound again.
  pub tag_tree_remove-IsWithout :
      (id ==ℤ metatag_id) ≡ false
      → find_id id (rb.elements s.tree) ≡ some e
      → get e.node s.heap ≡ some m
      → m.locked ≡ false
      → (s' : State T) × (tag_tree_remove rb libc id s ≡ done (status_ok, s'))
        × IsWithout rb id s s'
        × (get e.node s'.heap ≡ none)
        × IsReady s'
  tag_tree_remove-IsWithout other f at unlocked = (
    removed,
    remove_runs other f at unlocked
        ∙ (λ i. done (status_ok, record removed { tag_tree_mtx = sym ready.unlocked i })),
    cut-IsWithout rb s sound id e f (gone e.node m s.heap)
        (λ q ne. ground (arith, get-gone e.node q m s.heap)),
    get-gone e.node e.node m s.heap ∙ ground (arith, ==-refl e.node),
    record { inited = ready.inited; unlocked = ready.unlocked },
  )
