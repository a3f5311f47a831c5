-- ===== src/Parallel/Tree.antt =====
-- The operations of src/tagtree.c as programs that are cut at the operations on locks.
use plcstub.Base.{
  ℕ, true, Option, none, some, List, [], ◌∷◌, ℤ, ◌==ℤ◌, ◌==◌, if◌then◌else◌, eq_bytes,
}
use plcstub.Types.{TypeT, type_new_simple}
use plcstub.Bytes.{Bytes}
use plcstub.Env.Rb.{Ptr, RbTree}
use plcstub.Env.Libc.{Libc}
use plcstub.Status.{status_ok, err_not_found}
use plcstub.TagTree.State.{gets, modify}
use plcstub.TagTree.Ops.{metatag_id, meta_name, rb_find, rb_remove, tags_inc}
use plcstub.Parallel.{
  Prog, ret, rdlock, wrlock, rwunlock, lock, unlock, free_node, atom, ◌>>=◌, ◌>>◌,
}
use plcstub.Parallel.Actions.{add_node, sum_sizes, add_metanode, set_first, read_id}

module _ {T : Type 0} where
  unfoldable pub node_destroy_prog : Ptr → Prog T (Unit {0})
  node_destroy_prog p = if p == 0 then ret tt else lock p (free_node p (ret tt))

module _ {T : Type 0} (rb : RbTree T) where
  -- The metatag leaves the tree and is destroyed, in `tag_tree_node_create` and in
  -- `tag_tree_metanode_create`.
  unfoldable pub drop_metatag_prog : Prog T (Unit {0})
  unfolding node_destroy_prog
  drop_metatag_prog = do
    found ← atom (rb_find rb metatag_id) ret
    elim found [ none ↦ ret tt | some e ↦ do atom (rb_remove rb e) ret; node_destroy_prog e.node ]

module _ {T : Type 0} (rb : RbTree T) (libc : Libc) where
  unfoldable pub node_create_prog : Bytes → TypeT → Prog T Ptr
  node_create_prog name type = do
    p ← atom (add_node rb libc name type) ret
    drop_metatag_prog rb
    lock p (ret p)

  -- DEFINE_SCALAR
  unfoldable pub define_scalar_prog : Bytes → ℕ → ℕ → Prog T (Unit {0})
  define_scalar_prog name type val = do
    p ← node_create_prog name (type_new_simple type)
    atom (set_first val p) ret
    unlock p (ret tt)

  unfoldable pub define_scalars_prog : List (Bytes × ℕ × ℕ) → Prog T (Unit {0})
  define_scalars_prog [] = ret tt
  define_scalars_prog ((name, type, val) ∷ rest) = do
    define_scalar_prog name type val
    define_scalars_prog rest

  unfoldable pub tree_init_prog : Prog T (Unit {0})
  tree_init_prog = rdlock do
    inited ← atom (gets (λ s. s.tag_tree_inited)) ret
    if inited
        then rwunlock (ret tt)
        else rwunlock (
            wrlock do
              inited' ← atom (gets (λ s. s.tag_tree_inited)) ret
              if inited' then rwunlock (ret tt) else do
                atom (modify (λ s. record s { tag_tree_inited = true })) ret
                define_scalars_prog tags_inc
                rwunlock (ret tt))

  unfoldable pub metanode_create_prog : Prog T Ptr
  metanode_create_prog = do
    total ← atom (sum_sizes rb) ret
    drop_metatag_prog rb
    atom (add_metanode rb libc total) ret

  unfoldable pub tree_insert_prog : Bytes → TypeT → Prog T ℤ
  tree_insert_prog name type = do
    tree_init_prog
    wrlock do
      id ←
          if eq_bytes name meta_name
          then (do p ← metanode_create_prog; atom (read_id p) ret)
          else (do p ← node_create_prog name type; unlock p (atom (read_id p) ret))
      rwunlock (ret id)

  unfoldable pub tree_remove_prog : ℤ → Prog T ℤ
  unfolding node_destroy_prog
  tree_remove_prog id = if id ==ℤ metatag_id then ret status_ok else do
    tree_init_prog
    wrlock do
      found ← atom (rb_find rb id) ret
      elim found [
        | none ↦ rwunlock (ret err_not_found)
        | some e ↦ lock e.node do
          atom (rb_remove rb e) ret
          rwunlock (unlock e.node (do node_destroy_prog e.node; ret status_ok))
      ]

  unfoldable pub tree_lookup_prog : ℤ → Prog T (Option Ptr)
  tree_lookup_prog id = do
    tree_init_prog
    if id ==ℤ metatag_id then wrlock (ret tt) else rdlock (ret tt)
    found ← atom (rb_find rb id) ret
    r ← elim found [
      | some e ↦ ret (some e.node)
      | none ↦ if id ==ℤ metatag_id then (do p ← metanode_create_prog; ret (some p)) else ret none
    ]
    rwunlock (ret r)
