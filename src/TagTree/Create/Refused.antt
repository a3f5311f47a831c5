-- ===== src/TagTree/Create/Refused.antt =====
-- When `tag_tree_insert` of src/tagtree.c does not return: no ID is left, or the metatag that it has
-- to drop is locked by its caller.
use plcstub.Base.{◌≡◌, sym, ap, ◌∙◌, true, false, some, arith, ℤ, eq_bytes}
use plcstub.Outcome.{done, blocked, fault, overflow}
use plcstub.Bytes.{Bytes}
use plcstub.Types.{TypeT}
use plcstub.Env.Rb.{Ptr, Entry, entry, RbTree}
use plcstub.Env.Heap.{Node, get, get-put}
use plcstub.Env.Libc.{Libc}
use plcstub.TagTree.State.{State, writer, mtx_lock, rw_wrlock}
use plcstub.TagTree.Ops.{
  metatag_id, meta_name, next_id, alloc_node, drop_metatag, tag_tree_node_destroy,
  tag_tree_node_create, tag_tree_insert,
}
use plcstub.TagTree.Lookup.{IsReady, init_ready, with_rw}
use plcstub.TagTree.Order.{find_id, rb_find-find_id}
use plcstub.TagTree.Sound.{IsSound, Avoids-fresh, Avoids-find_id}
use plcstub.TagTree.Create.Fresh.{next_id-Below, inserted, sound_inserted, finds_inserted}
use plcstub.TagTree.Create.Insert.{alloc_node-IsFresh}

drop_locked :
    {T : Type 0} (rb : RbTree T) (s : State T)
    → IsSound rb s
    → (e : Entry) (m : Node) → find_id metatag_id (rb.elements s.tree) ≡ some e
    → get e.node s.heap ≡ some m
    → m.locked ≡ true
    → drop_metatag rb s ≡ blocked
unfolding drop_metatag tag_tree_node_destroy mtx_lock
drop_locked rb s sound e m f at taken =
    let ne = Avoids-find_id 0 metatag_id (rb.elements s.tree) e sound.nonnull f in
    let found : rb.find s.tree (entry metatag_id 0) ≡ some e =
      rb_find-find_id rb s.tree metatag_id 0 ∙ f in
    ground arith

module _ {T : Type 0} (rb : RbTree T) (libc : Libc) (name : Bytes) (type : TypeT) where
  pub insert_overflow :
      (s : State T)
      → IsReady s
      → eq_bytes name meta_name ≡ false
      → next_id (rb.maximum s.tree) ≡ fault overflow
      → tag_tree_insert rb libc name type s ≡ fault overflow
  unfolding tag_tree_insert tag_tree_node_create rw_wrlock
  insert_overflow s ready plain next = rw (init_ready ready rb libc, ready.unlocked, plain, next)

  module _ (id : ℤ) (p : Ptr) (n : Node) (e : Entry) (m : Node) where
    node_create_blocked :
        (s : State T)
        → IsSound rb s
        → next_id (rb.maximum s.tree) ≡ done id
        → alloc_node libc s.heap name type id ≡ done (p, n)
        → find_id metatag_id (rb.elements s.tree) ≡ some e
        → get e.node s.heap ≡ some m
        → m.locked ≡ true
        → tag_tree_node_create rb libc name type s ≡ blocked
    unfolding tag_tree_node_create
    node_create_blocked s sound next alloc f at taken =
        let k = alloc_node-IsFresh libc s.heap name type id p n alloc in
        let (below, high) =
          next_id-Below (rb.elements s.tree) id sound.ordered
            (ap next_id (sym (rb.maximum_lem s.tree)) ∙ next) in
        let f' =
          finds_inserted rb s sound id p n below high k.nonnull k.unused k.tag_id metatag_id in
        let apart =
          Avoids-find_id p metatag_id (rb.elements s.tree) e
            (Avoids-fresh s.heap p (rb.elements s.tree) sound.live k.unused) f in
        rw (
          next,
          alloc,
          drop_locked rb (inserted rb s sound id p n below high k.nonnull k.unused k.tag_id)
              (sound_inserted rb s sound id p n below high k.nonnull k.unused k.tag_id) e m
              (f' ∙ ground arith) (get-put p e.node n s.heap ∙ ground arith) taken,
        )

    pub insert_blocked :
        (s : State T)
        → IsReady s
        → IsSound rb s
        → eq_bytes name meta_name ≡ false
        → next_id (rb.maximum s.tree) ≡ done id
        → alloc_node libc s.heap name type id ≡ done (p, n)
        → find_id metatag_id (rb.elements s.tree) ≡ some e
        → get e.node s.heap ≡ some m
        → m.locked ≡ true
        → tag_tree_insert rb libc name type s ≡ blocked
    unfolding tag_tree_insert rw_wrlock
    insert_blocked s ready sound plain next alloc f at taken =
        let sound' : IsSound rb (with_rw ready writer) = record {
          ordered = sound.ordered;
          nonnull = sound.nonnull;
          live = sound.live;
        } in
        let stuck = node_create_blocked (with_rw ready writer) sound' next alloc f at taken in
        rw (init_ready ready rb libc, ready.unlocked, plain, stuck)
