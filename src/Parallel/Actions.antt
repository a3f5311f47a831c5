-- ===== src/Parallel/Actions.antt =====
-- What src/tagtree.c and src/plcstub.c do between two operations on locks.
use plcstub.Base.{ℕ, ◌%◌, Option, none, some, false, [], ◌∷◌, ℤ, is_some}
use plcstub.Types.{TypeT, type_new_simple, type_new_array}
use plcstub.Bytes.{Bytes, splice}
use plcstub.Outcome.{done, exit, unless_exit}
use plcstub.Env.Rb.{Ptr, RbTree}
use plcstub.Env.Libc.{Libc}
use plcstub.TagTree.State.{M, pure, ◌>>=◌, ◌>>◌, lift, gets, modify, deref, write}
use plcstub.TagTree.Metatag.{total_size, write_entries}
use plcstub.TagTree.Ops.{
  metatag_id, tag_sint_code, sizeof_node, incr_size, meta_name, next_id, alloc_node, deref_all,
  rb_insert,
}
use plcstub.Api.Access.{getter_cb, setter_cb}

module _ {T : Type 0} (rb : RbTree T) where
  -- The first loop of `tag_tree_metanode_create`
  unfoldable pub sum_sizes : M T ℕ
  sum_sizes = do
    before ← gets (λ s. rb.elements s.tree)
    ns ← deref_all before
    pure (total_size 0 ns)

module _ {T : Type 0} (rb : RbTree T) (libc : Libc) where
  -- `tag_tree_node_create`, up to the metatag: the node is made and is in the tree.
  unfoldable pub add_node : Bytes → TypeT → M T Ptr
  unfolding rb_insert write
  add_node name type = do
    biggest ← gets (λ s. rb.maximum s.tree)
    id ← lift (next_id biggest)
    h ← gets (λ s. s.heap)
    (p, n) ← lift (alloc_node libc h name type id)
    write p n
    rb_insert rb id p
    modify (λ s. record s { tree_size = incr_size s.tree_size })
    pure p

  -- The rest of `tag_tree_metanode_create`, behind the old metatag
  unfoldable pub add_metanode : ℕ → M T Ptr
  unfolding rb_insert write
  add_metanode total = do
    h ← gets (λ s. s.heap)
    p ← lift (elim (libc.malloc h sizeof_node) [ none ↦ exit | some p ↦ done p ])
    lift (unless_exit (libc.mutex_init p))
    t ← lift (type_new_array (λ n. is_some (libc.malloc h n)) total (type_new_simple tag_sint_code))
    lift (unless_exit (is_some (libc.malloc h total)))
    after ← gets (λ s. rb.elements s.tree)
    ns' ← deref_all after
    d ← lift (write_entries 0 ns' (libc.garbage h total))
    write p (record {
      tag_id = metatag_id;
      name = meta_name;
      cb = none;
      locked = false;
      type = t;
      contents = d;
    })
    rb_insert rb metatag_id p
    pure p

module _ {T : Type 0} where
  -- `*tag->data = val` of DEFINE_SCALAR
  unfoldable pub set_first : ℕ → Ptr → M T (Unit {0})
  unfolding deref write
  set_first val p = do
    n ← deref p
    write p (record n { contents = splice 0 (val % 256 ∷ []) n.contents })

  -- `t->cb = cb`
  unfoldable pub set_cb : Option ℕ → Ptr → M T (Unit {0})
  unfolding deref write
  set_cb cb p = do n ← deref p; write p (record n { cb = cb })

  -- `cb(t->data, offset, val)` of the getters and of the setters
  unfoldable pub read_data : ℕ → ℤ → Ptr → M T ℕ
  unfolding deref getter_cb
  read_data w off p = do n ← deref p; lift (getter_cb w off n.contents)

  unfoldable pub write_data : ℕ → ℕ → ℤ → Ptr → M T (Unit {0})
  unfolding deref write setter_cb
  write_data w v off p = do
    n ← deref p
    d ← lift (setter_cb w off v n.contents)
    write p (record n { contents = d })

  -- `tag->tag_id`
  unfoldable pub read_id : Ptr → M T ℤ
  unfolding deref
  read_id p = do n ← deref p; pure n.tag_id
