-- ===== src/TagTree/Lookup.antt =====
-- What `tag_tree_lookup` of src/tagtree.c finds.
use plcstub.Base.{◌≡◌, sym, true, false, none, some, arith, ℤ, ◌==ℤ◌}
use plcstub.Outcome.{done}
use plcstub.Env.Rb.{Entry, entry, RbTree}
use plcstub.Env.Libc.{Libc}
use plcstub.TagTree.State.{State, RwLock, free, rw_rdlock, rw_wrlock, rw_unlock}
use plcstub.TagTree.Ops.{metatag_id, tag_tree_init, tag_tree_lookup}

-- The library has started and nobody is in one of its calls.
pub record IsReady {T : Type 0} (s : State T) : Type 0 where
  pub inited : s.tag_tree_inited ≡ true
  pub unlocked : s.tag_tree_mtx ≡ free

module _ {T : Type 0} {s : State T} (r : IsReady s) where
  abbrev pub with_rw : RwLock → State T
  with_rw l = record s { tag_tree_mtx = l }

  pub with_rw-free : with_rw free ≡ s
  with_rw-free = λ i. record s { tag_tree_mtx = sym r.unlocked i }

  module _ (rb : RbTree T) (libc : Libc) where
    pub init_ready : tag_tree_init rb libc s ≡ done (tt, s)
    unfolding tag_tree_init rw_rdlock rw_unlock
    init_ready = ground (arith, with_rw-free)

    -- A tag that is in the tree is found, the metatag as well, and the state stays as it was.
    pub lookup_found :
        (id : ℤ) (e : Entry)
        → rb.find s.tree (entry id 0) ≡ some e
        → tag_tree_lookup rb libc id s ≡ done (some e.node, s)
    unfolding tag_tree_lookup rw_rdlock rw_wrlock rw_unlock
    lookup_found id e f = rw init_ready (ground (arith, with_rw-free))

    -- Any tag but the metatag that is not in the tree is not found.
    pub lookup_missing :
        (id : ℤ)
        → (id ==ℤ metatag_id) ≡ false
        → rb.find s.tree (entry id 0) ≡ none
        → tag_tree_lookup rb libc id s ≡ done (none, s)
    unfolding tag_tree_lookup rw_rdlock rw_unlock
    lookup_missing id other f = rw (init_ready, other) (ground (arith, with_rw-free))
