-- ===== src/Parallel/Alone.antt =====
-- Programs that run alone: `run` is a monad morphism, so that an operation is compared with its
-- program part by part.
pub mod Access
pub mod Tree
pub mod Calls
use plcstub.Base.{
  eq_bytes, ◌==ℤ◌, ℕ, ℤ, List, [], ◌∷◌, ◌≡◌, refl, sym, ap, ◌∙◌, Bool, true, false, Option, none,
  some, arith, if◌then◌else◌, Bool-cases, Option-cases, inl, inr, ◌==◌,
}
use mathlib.Core.Path.{fun_ext}
use plcstub.Outcome.{Outcome, done, exit, blocked, fault}
use plcstub.TagTree.State
use plcstub.TagTree.State.{M, bind_outcome}
use plcstub.Env.Rb.{Ptr, RbTree, Entry, entry}
use plcstub.Status.{status_ok, err_not_found}
use plcstub.Env.Libc.{Libc}
use plcstub.Parallel
use plcstub.Parallel.{Prog, ret, rdlock, wrlock, rwunlock, lock, unlock, free_node, atom, run}
use plcstub.Parallel.Tree.{
  node_destroy_prog, drop_metatag_prog, node_create_prog, define_scalar_prog, define_scalars_prog,
  tree_init_prog, metanode_create_prog, tree_insert_prog, tree_remove_prog, tree_lookup_prog,
}
use plcstub.Parallel.Actions.{add_node, set_first, sum_sizes, add_metanode, read_id}
use plcstub.Types.{TypeT, type_new_simple}
use plcstub.Bytes.{Bytes}
use plcstub.TagTree.Ops.{
  meta_name, rb_remove, tag_tree_node_destroy, drop_metatag, tag_tree_node_create, metatag_id,
  rb_find, decr_size, define_scalar, define_scalars, tags_inc, tag_tree_init,
  tag_tree_metanode_create, tag_tree_insert, tag_tree_remove, tag_tree_lookup,
}

module _ {T A B C : Type 0} where
  -- Binds associate.
  bind_bind :
      (o : Outcome (C × State.State T)) (g : C → M T A) (f : A → M T B)
      → bind_outcome (bind_outcome o g) f ≡ bind_outcome o (λ c. State.◌>>=◌ (g c) f)
  bind_bind (done (c, s)) g f = refl
  bind_bind exit g f = refl
  bind_bind blocked g f = refl
  bind_bind (fault x) g f = refl

  then_run :
      (m : M T C) (g : C → M T A) (f : A → M T B) (h : C → M T B)
      → ((c : C) → h c ≡ State.◌>>=◌ (g c) f)
      → State.◌>>=◌ m h ≡ State.◌>>=◌ (State.◌>>=◌ m g) f
  then_run m g f h e = fun_ext λ s. ap (bind_outcome (m s)) (fun_ext e) ∙ sym (bind_bind (m s) g f)

module _ {T A B : Type 0} (f : A → Prog T B) where
  pub run->>= : (p : Prog T A) → run (Parallel.◌>>=◌ p f) ≡ State.◌>>=◌ (run p) (λ a. run (f a))
  unfolding run
  run->>= (ret a) = refl
  run->>= (rdlock k) = then_run _ _ _ _ (λ c. run->>= k)
  run->>= (wrlock k) = then_run _ _ _ _ (λ c. run->>= k)
  run->>= (rwunlock k) = then_run _ _ _ _ (λ c. run->>= k)
  run->>= (lock p k) = then_run _ _ _ _ (λ c. run->>= k)
  run->>= (unlock p k) = then_run _ _ _ _ (λ c. run->>= k)
  run->>= (free_node p k) =
      fun_ext λ s. λ i. run->>= k i (record s { heap = Parallel.delete p s.heap })
  run->>= (atom m k) = then_run _ _ _ _ (λ b. run->>= (k b))

module _ {T A B : Type 0} where
  -- The parts of a bind one by one.
  pub both_run :
      (p : Prog T A) (f : A → Prog T B) {m : M T A} {g : A → M T B}
      → run p ≡ m
      → ((a : A) → run (f a) ≡ g a)
      → run (Parallel.◌>>=◌ p f) ≡ State.◌>>=◌ m g
  both_run p f {m} {g} e h = run->>= f p ∙ (λ i. State.◌>>=◌ (e i) (λ a. h a i))

  pub rest_run :
      (m : M T A) {h g : A → M T B} → ((a : A) → h a ≡ g a) → State.◌>>=◌ m h ≡ State.◌>>=◌ m g
  rest_run m e = λ i. State.◌>>=◌ m (λ a. e a i)

module _ {T A : Type 0} where
  pub if_run :
      (b : Bool) (p q : Prog T A) (m n : M T A)
      → run p ≡ m
      → run q ≡ n
      → run (if b then p else q) ≡ (if b then m else n)
  if_run true p q m n e f = e
  if_run false p q m n e f = f

  pub option_run :
      {C : Type 0} (o : Option C) (p : Prog T A) (q : C → Prog T A) (m : M T A) (n : C → M T A)
      → run p ≡ m
      → ((c : C) → run (q c) ≡ n c)
      → run (elim o [ none ↦ p | some c ↦ q c ]) ≡ elim o [ none ↦ m | some c ↦ n c ]
  option_run none p q m n e f = e
  option_run (some c) p q m n e f = f c
