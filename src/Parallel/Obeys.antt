-- ===== src/Parallel/Obeys.antt =====
-- The operations of src/tagtree.c obey the discipline of the locks.
pub mod Entries
pub mod Access
pub mod Calls
use plcstub.Base.{
  ℕ, ◌≡◌, refl, Bool, true, false, Option, none, some, List, [], ◌∷◌, arith, ◌==◌, if◌then◌else◌, ℤ,
  ◌==ℤ◌, eq_bytes, ==-refl,
}
use plcstub.Types.{TypeT, type_new_simple}
use plcstub.Bytes.{Bytes}
use plcstub.Env.Rb.{Ptr, RbTree, Entry}
use plcstub.Env.Libc.{Libc}
use plcstub.Status.{status_ok, err_not_found}
use plcstub.TagTree.Ops.{metatag_id, meta_name, rb_find, rb_remove, tags_inc}
use plcstub.TagTree.State.{M}
use plcstub.Parallel.{
  Prog, ret, rdlock, wrlock, rwunlock, lock, unlock, free_node, atom, ◌>>=◌, ◌>>◌,
}
use plcstub.Parallel.Actions.{add_node, sum_sizes, add_metanode, set_first, read_id}
use plcstub.Parallel.Tree.{
  node_destroy_prog, drop_metatag_prog, node_create_prog, define_scalar_prog, define_scalars_prog,
  tree_init_prog, metanode_create_prog, tree_insert_prog, tree_remove_prog, tree_lookup_prog,
}
use plcstub.Parallel.Discipline.{
  holds, Held, nothing, reading, writing, holding, both, after_unlock, Obeys, Obeys-bind, Spares,
}
use plcstub.Parallel.Keeps.{
  Spares-gets, rb_find-Spares, rb_remove-Spares, sum_sizes-Spares, set_first-Spares, read_id-Spares,
}
use plcstub.Parallel.Fresh.{add_node-Spares, add_metanode-Spares, inited-Spares}

-- To return with `h` held.
abbrev pub to : {A : Type 0} → Held → A → Held
to h a = h

module _ {T A : Type 0} (Q : A → Held) where
  -- An action by itself, with what it leaves held.
  pub Obeys-if :
      (h : Held) (b : Bool) (p q : Prog T A)
      → Obeys Q h p
      → Obeys Q h q
      → Obeys Q h (if b then p else q)
  Obeys-if h true p q op oq = op
  Obeys-if h false p q op oq = oq

  pub Obeys-option :
      {C : Type 0} (h : Held) (o : Option C) (p : Prog T A) (q : C → Prog T A)
      → Obeys Q h p
      → ((c : C) → Obeys Q h (q c))
      → Obeys Q h (elim o [ none ↦ p | some c ↦ q c ])
  Obeys-option h none p q op oq = op
  Obeys-option h (some c) p q op oq = oq c

pub after_unlock-holding : (p : Ptr) → after_unlock p (holding p) ≡ some nothing
after_unlock-holding p = ground arith

pub after_unlock-both : (p : Ptr) → after_unlock p (both p) ≡ some writing
after_unlock-both p = ground arith

pub holds-holding : (p : Ptr) → holds p (holding p) ≡ 1
holds-holding p = ground arith

pub holds-both : (p : Ptr) → holds p (both p) ≡ 1
holds-both p = ground arith

module _ (T : Type 0) where
  pub node_destroy_prog-Obeys : (p : Ptr) → Obeys (to nothing) nothing (node_destroy_prog {T = T} p)
  unfolding node_destroy_prog
  node_destroy_prog-Obeys p =
      Obeys-if (to nothing) nothing (p == 0) _ _ refl (_, refl, (_, after_unlock-holding p, refl))

  pub node_destroy_prog-Obeys_writing :
      (p : Ptr) → Obeys (to writing) writing (node_destroy_prog {T = T} p)
  unfolding node_destroy_prog
  node_destroy_prog-Obeys_writing p =
      Obeys-if (to writing) writing (p == 0) _ _ refl (_, refl, (_, after_unlock-both p, refl))

module _ {T : Type 0} (rb : RbTree T) where
  pub drop_metatag_prog-Obeys : Obeys (to writing) writing (drop_metatag_prog rb)
  unfolding drop_metatag_prog
  drop_metatag_prog-Obeys = (
    rb_find-Spares rb metatag_id,
    λ found.
        Obeys-option (to writing) writing found _ _ refl
          λ e. (rb_remove-Spares rb e, λ _. node_destroy_prog-Obeys_writing T e.node),
  )

module _ {T : Type 0} (rb : RbTree T) (libc : Libc) where
  pub node_create_prog-Obeys :
      (name : Bytes) (type : TypeT) → Obeys both writing (node_create_prog rb libc name type)
  unfolding node_create_prog
  node_create_prog-Obeys name type = (
    add_node-Spares rb libc name type,
    λ p.
        Obeys-bind (to writing) both _ (λ _. (_, refl, refl)) writing (drop_metatag_prog rb)
          (drop_metatag_prog-Obeys rb),
  )

  pub define_scalar_prog-Obeys :
      (name : Bytes) (type val : ℕ)
      → Obeys (to writing) writing (define_scalar_prog rb libc name type val)
  unfolding define_scalar_prog
  define_scalar_prog-Obeys name type val =
      Obeys-bind both (to writing) _
        (λ p. (set_first-Spares val p (holds-both p), λ _. (_, after_unlock-both p, refl))) writing
        _ (node_create_prog-Obeys name (type_new_simple type))

  pub define_scalars_prog-Obeys :
      (defs : List (Bytes × ℕ × ℕ)) → Obeys (to writing) writing (define_scalars_prog rb libc defs)
  unfolding define_scalars_prog
  define_scalars_prog-Obeys [] = refl
  define_scalars_prog-Obeys ((name, type, val) ∷ rest) =
      Obeys-bind (to writing) (to writing) _ (λ _. define_scalars_prog-Obeys rest) writing _
        (define_scalar_prog-Obeys name type val)

  pub tree_init_prog-Obeys : Obeys (to nothing) nothing (tree_init_prog rb libc)
  unfolding tree_init_prog
  tree_init_prog-Obeys = (
    refl,
    (
      Spares-gets _,
      λ inited.
          Obeys-if (to nothing) reading inited _ _ (_, refl, refl)
            (
              _,
              refl,
              (
                refl,
                (
                  Spares-gets _,
                  λ inited'.
                      Obeys-if (to nothing) writing inited' _ _ (_, refl, refl)
                        (
                          inited-Spares,
                          λ _.
                              Obeys-bind (to writing) (to nothing) _ (λ _. (_, refl, refl)) writing
                                _ (define_scalars_prog-Obeys tags_inc),
                        ),
                ),
              ),
            ),
    ),
  )

  pub metanode_create_prog-Obeys : Obeys (to writing) writing (metanode_create_prog rb libc)
  unfolding metanode_create_prog
  metanode_create_prog-Obeys = (
    sum_sizes-Spares rb,
    λ total.
        Obeys-bind (to writing) (to writing) _ (λ _. (add_metanode-Spares rb libc total, λ p. refl))
          writing _ (drop_metatag_prog-Obeys rb),
  )
