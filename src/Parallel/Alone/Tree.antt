-- ===== src/Parallel/Alone/Tree.antt =====
-- The operations of src/tagtree.c do what their programs do that run alone.
use plcstub.Base.{
  eq_bytes, ◌==ℤ◌, ℕ, ℤ, List, [], ◌∷◌, ◌≡◌, refl, ◌∙◌, true, Option, none, some, arith,
  if◌then◌else◌, Bool-cases, Option-cases, inl, inr, ◌==◌,
}
use mathlib.Core.Path.{fun_ext}
use plcstub.TagTree.State
use plcstub.TagTree.State.{M, bind_outcome}
use plcstub.Env.Rb.{Ptr, RbTree, Entry, entry}
use plcstub.Status.{status_ok, err_not_found}
use plcstub.Env.Libc.{Libc}
use plcstub.Parallel
use plcstub.Parallel.{Prog, ret, rdlock, wrlock, rwunlock, lock, unlock, free_node, atom, run}
use plcstub.Parallel.Tree.{
  node_destroy_prog, drop_metatag_prog, node_create_prog, define_scalar_prog, define_scalars_prog,
  tree_init_prog, metanode_create_prog, tree_insert_prog, tree_remove_prog, tree_lookup_prog,
}
use plcstub.Parallel.Actions.{add_node, set_first, sum_sizes, add_metanode, read_id}
use plcstub.Types.{TypeT, type_new_simple}
use plcstub.Bytes.{Bytes}
use plcstub.TagTree.Ops.{
  meta_name, rb_remove, tag_tree_node_destroy, drop_metatag, tag_tree_node_create, metatag_id,
  rb_find, decr_size, define_scalar, define_scalars, tags_inc, tag_tree_init,
  tag_tree_metanode_create, tag_tree_insert, tag_tree_remove, tag_tree_lookup,
}
use plcstub.Parallel.Alone.{both_run, rest_run, if_run, option_run}

module _ {T : Type 0} where
  pub run-destroy : (p : Ptr) → run {T = T} (node_destroy_prog p) ≡ tag_tree_node_destroy p
  unfolding run node_destroy_prog tag_tree_node_destroy
  run-destroy p = elim (Bool-cases (p == 0)) [ inl null ↦ rw null refl | inr live ↦ rw live refl ]

module _ {T : Type 0} (rb : RbTree T) where
  run-drop : run (drop_metatag_prog rb) ≡ drop_metatag rb
  unfolding run drop_metatag_prog drop_metatag
  run-drop = fun_ext λ s. elim (Option-cases (rb.find s.tree (entry metatag_id 0))) [
    | inl none_there ↦ rw (none_there, rb_find) refl
    | inr (e, there) ↦
        rw (there, rb_find)
          λ i.
            run-destroy e.node i
              (record s { tree = rb.remove s.tree e; tree_size = decr_size s.tree_size })
  ]

module _ {T : Type 0} (rb : RbTree T) (libc : Libc) where
  run-create :
      (name : Bytes) (type : TypeT)
      → run (node_create_prog rb libc name type) ≡ tag_tree_node_create rb libc name type
  unfolding run node_create_prog tag_tree_node_create add_node
  run-create name type =
      rest_run (add_node rb libc name type)
        (λ p. both_run (drop_metatag_prog rb) (λ _. lock p (ret p)) (run-drop rb) (λ _. refl))
      ∙ fun_ext λ s. ground arith

  run-define :
      (name : Bytes) (type val : ℕ)
      → run (define_scalar_prog rb libc name type val) ≡ define_scalar rb libc name type val
  unfolding run define_scalar_prog define_scalar set_first
  run-define name type val =
      both_run (node_create_prog rb libc name (type_new_simple type))
        (λ p. atom (set_first val p) (λ _. unlock p (ret tt)))
        (run-create name (type_new_simple type)) (λ p. fun_ext λ s. ground arith)

  run-defines :
      (ts : List (Bytes × ℕ × ℕ)) → run (define_scalars_prog rb libc ts) ≡ define_scalars rb libc ts
  unfolding run define_scalars_prog define_scalars
  run-defines [] = refl
  run-defines ((name, type, val) ∷ rest) =
      both_run (define_scalar_prog rb libc name type val) (λ _. define_scalars_prog rb libc rest)
        (run-define name type val) (λ _. run-defines rest)

  run-release : run {T = T} (rwunlock (ret tt)) ≡ State.rw_unlock
  unfolding run
  run-release = fun_ext λ s. ground arith

  -- Behind the second test of `tag_tree_init`.
  abbrev start_up : Prog T (Unit {0})
  start_up =
      atom (State.modify (λ s. record s { tag_tree_inited = true }))
        λ _. Parallel.◌>>◌ (define_scalars_prog rb libc tags_inc) (rwunlock (ret tt))

  run-start_up :
      run start_up
      ≡ State.◌>>◌
          (State.modify (λ s. record s { tag_tree_inited = true }))
          (State.◌>>◌ (define_scalars rb libc tags_inc) State.rw_unlock)
  unfolding run
  run-start_up = rest_run (State.modify (λ s. record s { tag_tree_inited = true })) λ _.
      both_run (define_scalars_prog rb libc tags_inc) (λ _. rwunlock (ret tt))
        (run-defines tags_inc) (λ _. run-release)

  run-init : run (tree_init_prog rb libc) ≡ tag_tree_init rb libc
  unfolding run tree_init_prog tag_tree_init
  run-init = rest_run State.rw_rdlock λ _. rest_run (State.gets (λ s. s.tag_tree_inited)) λ b.
      if_run b _ _ _ _ run-release (
        rest_run State.rw_unlock λ _. rest_run State.rw_wrlock λ _.
          rest_run (State.gets (λ s. s.tag_tree_inited))
            λ b'. if_run b' _ _ _ _ run-release run-start_up)

  run-metanode : run (metanode_create_prog rb libc) ≡ tag_tree_metanode_create rb libc
  unfolding run metanode_create_prog tag_tree_metanode_create sum_sizes add_metanode
  run-metanode =
      rest_run (sum_sizes rb) (λ total.
        both_run (drop_metatag_prog rb) (λ _. atom (add_metanode rb libc total) ret) (run-drop rb)
          (λ _. refl))
      ∙ fun_ext λ s. ground arith

  -- What `tag_tree_insert` does between its locks.
  abbrev new_id : Bytes → TypeT → Prog T ℤ
  new_id name type =
      if eq_bytes name meta_name
      then Parallel.◌>>=◌ (metanode_create_prog rb libc) (λ p. atom (read_id p) ret)
      else Parallel.◌>>=◌ (node_create_prog rb libc name type)
          (λ p. unlock p (atom (read_id p) ret))

  pub run-insert :
      (name : Bytes) (type : TypeT)
      → run (tree_insert_prog rb libc name type) ≡ tag_tree_insert rb libc name type
  unfolding run tree_insert_prog tag_tree_insert read_id
  run-insert name type =
      both_run (tree_init_prog rb libc)
        (λ _. wrlock (Parallel.◌>>=◌ (new_id name type) (λ id. rwunlock (ret id)))) run-init
        λ _. rest_run State.rw_wrlock λ _.
          both_run (new_id name type) (λ id. rwunlock (ret id))
            (if_run (eq_bytes name meta_name) _ _ _ _
              (both_run (metanode_create_prog rb libc) (λ p. atom (read_id p) ret) run-metanode
                (λ p. fun_ext λ s. ground arith))
              (both_run (node_create_prog rb libc name type) (λ p. unlock p (atom (read_id p) ret))
                (run-create name type) (λ p. fun_ext λ s. ground arith)))
            (λ id. refl)

  -- What `tag_tree_remove` does behind its search.
  abbrev remove_entry : Entry → Prog T ℤ
  remove_entry e = lock e.node (
      atom (rb_remove rb e)
        λ _. rwunlock (unlock e.node (Parallel.◌>>◌ (node_destroy_prog e.node) (ret status_ok))))

  abbrev remove_found : Option Entry → Prog T ℤ
  remove_found found = elim found [ none ↦ rwunlock (ret err_not_found) | some e ↦ remove_entry e ]

  pub run-remove : (id : ℤ) → run (tree_remove_prog rb libc id) ≡ tag_tree_remove rb libc id
  unfolding run tree_remove_prog tag_tree_remove
  run-remove id = if_run (id ==ℤ metatag_id) _ _ _ _ refl (
      both_run (tree_init_prog rb libc) (λ _. wrlock (atom (rb_find rb id) remove_found)) run-init
        λ _. rest_run State.rw_wrlock λ _. rest_run (rb_find rb id) λ found.
          option_run found (rwunlock (ret err_not_found)) remove_entry _ _ refl λ e.
            rest_run (State.mtx_lock e.node) λ _. rest_run (rb_remove rb e) λ _.
              rest_run State.rw_unlock λ _. rest_run (State.mtx_unlock e.node) λ _.
                both_run (node_destroy_prog e.node) (λ _. ret status_ok) (run-destroy e.node)
                  (λ _. refl))

  -- What `tag_tree_lookup` does behind its search, and the whole behind the start-up.
  abbrev look_found : ℤ → Option Entry → Prog T (Option Ptr)
  look_found id found = elim found [
    | some e ↦ ret (some e.node)
    | none ↦
        if id ==ℤ metatag_id
        then Parallel.◌>>=◌ (metanode_create_prog rb libc) (λ p. ret (some p))
        else ret none
  ]

  abbrev look : ℤ → Prog T (Option Ptr)
  look id =
      atom (rb_find rb id) λ found. Parallel.◌>>=◌ (look_found id found) (λ r. rwunlock (ret r))

  pub run-lookup : (id : ℤ) → run (tree_lookup_prog rb libc id) ≡ tag_tree_lookup rb libc id
  unfolding run tree_lookup_prog tag_tree_lookup
  run-lookup id =
      both_run (tree_init_prog rb libc)
        (λ _.
          Parallel.◌>>◌ (if id ==ℤ metatag_id then wrlock (ret tt) else rdlock (ret tt)) (look id))
        run-init
        λ _.
          both_run (if id ==ℤ metatag_id then wrlock (ret tt) else rdlock (ret tt)) (λ _. look id)
            (if_run (id ==ℤ metatag_id) _ _ _ _ (fun_ext λ s. ground arith)
              (fun_ext λ s. ground arith))
            λ _. rest_run (rb_find rb id) λ found.
              both_run (look_found id found) (λ r. rwunlock (ret r))
                (option_run found _ _ _ _
                  (if_run (id ==ℤ metatag_id) _ _ _ _
                    (both_run (metanode_create_prog rb libc) (λ p. ret (some p)) run-metanode
                      (λ p. refl))
                    refl)
                  (λ e. refl))
                (λ r. refl)
