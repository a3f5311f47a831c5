-- ===== src/Parallel/Obeys/Entries.antt =====
-- `tag_tree_insert`, `tag_tree_remove` and `tag_tree_lookup` of src/tagtree.c obey the discipline of the
-- locks.
use plcstub.Base.{refl, Bool, true, false, none, some, if◌then◌else◌, ℤ, ◌==ℤ◌, eq_bytes}
use plcstub.Types.{TypeT}
use plcstub.Bytes.{Bytes}
use plcstub.Env.Rb.{RbTree}
use plcstub.Env.Libc.{Libc}
use plcstub.TagTree.Ops.{metatag_id, meta_name, rb_find}
use plcstub.Parallel.{ret, rdlock, wrlock, rwunlock, atom, ◌>>=◌, ◌>>◌}
use plcstub.Parallel.Tree.{
  metanode_create_prog, tree_insert_prog, tree_remove_prog, tree_lookup_prog,
}
use plcstub.Parallel.Discipline.{nothing, reading, writing, both, Obeys, Obeys-bind}
use plcstub.Parallel.Keeps.{rb_find-Spares, rb_remove-Spares, read_id-Spares}
use plcstub.Parallel.Obeys.{
  to, Obeys-if, Obeys-option, after_unlock-holding, after_unlock-both, node_destroy_prog-Obeys,
  node_create_prog-Obeys, metanode_create_prog-Obeys, tree_init_prog-Obeys,
}

module _ {T : Type 0} (rb : RbTree T) (libc : Libc) where
  pub tree_insert_prog-Obeys :
      (name : Bytes) (type : TypeT)
      → Obeys (to nothing) nothing (tree_insert_prog rb libc name type)
  unfolding tree_insert_prog
  tree_insert_prog-Obeys name type =
      Obeys-bind (to nothing) (to nothing) _
        (λ _. (
          refl,
          Obeys-bind (to writing) (to nothing) _ (λ id. (_, refl, refl)) writing _
              (Obeys-if (to writing) writing (eq_bytes name meta_name) _ _
                (Obeys-bind (to writing) (to writing) _ (λ p. (read_id-Spares p, λ id. refl))
                  writing _ (metanode_create_prog-Obeys rb libc))
                (Obeys-bind both (to writing) _
                  (λ p. (_, after_unlock-both p, (read_id-Spares p, λ id. refl))) writing _
                  (node_create_prog-Obeys rb libc name type))),
        ))
        nothing _ (tree_init_prog-Obeys rb libc)

  pub tree_remove_prog-Obeys : (id : ℤ) → Obeys (to nothing) nothing (tree_remove_prog rb libc id)
  unfolding tree_remove_prog
  tree_remove_prog-Obeys id = Obeys-if (to nothing) nothing (id ==ℤ metatag_id) _ _ refl (
      Obeys-bind (to nothing) (to nothing) _
        (λ _. (
          refl,
          (
            rb_find-Spares rb id,
            λ found.
                Obeys-option (to nothing) writing found _ _ (_, refl, refl)
                  λ e. (
                    _,
                    refl,
                    (
                      rb_remove-Spares rb e,
                      λ _. (
                        _,
                        refl,
                        (
                          _,
                          after_unlock-holding e.node,
                          Obeys-bind (to nothing) (to nothing) _ (λ _. refl) nothing _
                              (node_destroy_prog-Obeys T e.node),
                        ),
                      ),
                    ),
                  ),
          ),
        ))
        nothing _ (tree_init_prog-Obeys rb libc))

  pub tree_lookup_prog-Obeys : (id : ℤ) → Obeys (to nothing) nothing (tree_lookup_prog rb libc id)
  unfolding tree_lookup_prog
  tree_lookup_prog-Obeys id =
      Obeys-bind (to nothing) (to nothing) _ (λ _. locked (id ==ℤ metatag_id)) nothing _
        (tree_init_prog-Obeys rb libc)
    where
      -- `is_meta` chooses the lock, and only under the one to write is the metatag made.
      locked :
          (is_meta : Bool)
          → Obeys (to nothing) nothing (do
            if is_meta then wrlock (ret tt) else rdlock (ret tt)
            found ← atom (rb_find rb id) ret
            r ← elim found [
              | some e ↦ ret (some e.node)
              | none ↦
                  if is_meta then (do p ← metanode_create_prog rb libc; ret (some p)) else ret none
            ]
            rwunlock (ret r))
      locked true = (
        refl,
        (
          rb_find-Spares rb id,
          λ found.
              Obeys-bind (to writing) (to nothing) _ (λ r. (_, refl, refl)) writing _
                (Obeys-option (to writing) writing found _ _
                  (Obeys-bind (to writing) (to writing) _ (λ p. refl) writing _
                    (metanode_create_prog-Obeys rb libc))
                  (λ e. refl)),
        ),
      )
      locked false = (
        refl,
        (
          rb_find-Spares rb id,
          λ found.
              Obeys-bind (to reading) (to nothing) _ (λ r. (_, refl, refl)) reading _
                (Obeys-option (to reading) reading found _ _ refl (λ e. refl)),
        ),
      )
