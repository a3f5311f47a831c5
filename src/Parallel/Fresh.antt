-- ===== src/Parallel/Fresh.antt =====
-- The actions of src/tagtree.c that make a node leave the locks alone: no node has its address, and
-- its mutex is free.
use plcstub.Base.{
  List, [], ◌∷◌, ℕ, ◌≡◌, ℤ, refl, ◌∙◌, ap, sym, true, false, Option, none, some, arith,
}
use plcstub.Types.{TypeT}
use plcstub.Bytes.{Bytes}
use mathlib.Core.Path.{subst}
use plcstub.Outcome.{dangling, Outcome, done, exit, blocked, fault}
use plcstub.Env.Rb.{Entry, Ptr, RbTree}
use plcstub.Env.Heap.{Node, Heap, get-put, get}
use plcstub.Env.Libc.{Libc}
use plcstub.TagTree.State.{
  deref, State, M, ◌>>=◌, ◌>>◌, gets, lift, lift_outcome, bind_outcome, modify, write, pure,
}
use plcstub.TagTree.Ops.{
  deref_all, metatag_id, sizeof_node, incr_size, meta_name, alloc_node, rb_insert,
}
use plcstub.TagTree.Create.Insert.{alloc_node-IsFresh}
use plcstub.Parallel.Actions.{add_node, add_metanode}
use plcstub.Parallel.Discipline.{Held, lock_bit, lock_count, Leaves, Spares}
use plcstub.Parallel.Waits.{
  Ends, Ends-next_id, Ends-alloc_node, Ends-unless_exit, Ends-malloc, Ends-type_new_array,
  Ends-write_entries,
}
use plcstub.Parallel.Keeps.{
  lock_count-put, Leaves->>=, Spares->>=, Spares-pure, Spares-gets, Spares-lift, rb_insert-Spares,
}

count_fresh : (h : Heap) (p : Ptr) → get p h ≡ none → lock_count h p ≡ 0
unfolding lock_count
count_fresh h p at = ground (arith, at)

abbrev OnlyReads : {T B : Type 0} → State T → Outcome (B × State T) → Type 0
OnlyReads s (done (b, s')) = s' ≡ s
OnlyReads s exit = Unit
OnlyReads s blocked = ⊥
OnlyReads s (fault e) = Unit

-- An action that does not change the state
record Reads {T B : Type 0} (m : M T B) : Type 0 where
  at : (s : State T) → OnlyReads s (m s)

-- An action that spares the locks and the nodes of others where no node has the address `p`.
record SparesWithout {T B : Type 0} (h : Held) (p : Ptr) (m : M T B) : Type 0 where
  at : (s : State T) → get p s.heap ≡ none → Leaves h s (m s)

module _ {T A B : Type 0} {h : Held} (p : Ptr) (m : M T A) (f : A → M T B) where
  SparesWithout-before : Reads m → ((a : A) → SparesWithout h p (f a)) → SparesWithout h p (m >>= f)
  SparesWithout-before k l = record { at = λ s gone. before s gone (m s) (k.at s) }
    where
      before :
          (s : State T)
          → get p s.heap ≡ none
          → (o : Outcome (A × State T)) → OnlyReads s o
          → Leaves h s (bind_outcome o f)
      before s gone (done (a, s')) e = subst (λ s'. Leaves h s (f a s')) (sym e) ((l a).at s gone)
      before s gone exit e = tt
      before s gone blocked e = absurd e
      before s gone (fault x) e = tt

  SparesWithout-after :
      SparesWithout h p m → ((a : A) → Spares h (f a)) → SparesWithout h p (m >>= f)
  SparesWithout-after k l = record {
    at = λ s gone. Leaves->>= s (m s) f (k.at s gone) λ a s' same. (l a).at s';
  }

module _ {T : Type 0} where
  Reads-lift : {B : Type 0} (o : Outcome B) → Ends o → Reads {T = T} (lift o)
  Reads-lift {B = B} o e = record { at = λ s. lifted s o e }
    where
      lifted : (s : State T) (o : Outcome B) → Ends o → OnlyReads s (lift_outcome s o)
      lifted s (done b) e = refl
      lifted s exit e = tt
      lifted s blocked e = absurd e
      lifted s (fault x) e = tt

  Reads-gets : {B : Type 0} (f : State T → B) → Reads (gets f)
  Reads-gets f = record { at = λ s. refl }

  Reads->>= :
      {A B : Type 0} (m : M T A) (f : A → M T B)
      → Reads m
      → ((a : A) → Reads (f a))
      → Reads (m >>= f)
  Reads->>= {A} m f k l = record { at = λ s. both s (m s) (k.at s) }
    where
      both :
          (s : State T) (o : Outcome (A × State T)) → OnlyReads s o → OnlyReads s (bind_outcome o f)
      both s (done (a, s')) e = subst (λ s'. OnlyReads s (f a s')) (sym e) ((l a).at s)
      both s exit e = tt
      both s blocked e = absurd e
      both s (fault x) e = tt

  deref_all-Reads : (es : List Entry) → Reads {T = T} (deref_all es)
  unfolding deref_all deref
  deref_all-Reads [] = record { at = λ s. refl }
  deref_all-Reads (e ∷ es) =
      Reads->>= _ _ (record { at = λ s. found s (get e.node s.heap) })
        λ n. Reads->>= _ _ (deref_all-Reads es) λ ns. record { at = λ s. refl }
    where
      found :
          (s : State T) (o : Option Node)
          → OnlyReads s (elim o [ none ↦ fault dangling | some n ↦ done (n, s) ])
      found s none = tt
      found s (some n) = refl

module _ {T : Type 0} {h : Held} where
  write-SparesWithout :
      (p : Ptr) (n : Node) → n.locked ≡ false → SparesWithout {T = T} h p (write p n)
  unfolding write
  write-SparesWithout p n free = record {
    at = λ s gone. record {
      tree = refl;
      nodes = lock_count-put s.heap p n (ap lock_bit free ∙ sym (count_fresh s.heap p gone));
      kept = λ q m there idle. ground (arith, get-put p q n s.heap, gone, there);
    };
  }

  -- What is made from the heap has an address of its own.
  Spares-made :
      {A B : Type 0} (make : Heap → Outcome A) (address : A → Ptr) (f : Heap → A → M T B)
      → ((h : Heap) → Ends (make h))
      → ((h : Heap) (a : A) → make h ≡ done a → get (address a) h ≡ none)
      → ((heap : Heap) (a : A) → make heap ≡ done a → SparesWithout h (address a) (f heap a))
      → Spares h (gets (λ s. s.heap) >>= λ heap. lift (make heap) >>= f heap)
  Spares-made {A} {B} make address f ends fresh k = record {
    at = λ s. made s (make s.heap) (ends s.heap) (λ a e. (k s.heap a e).at s (fresh s.heap a e));
  }
    where
      made :
          (s : State T) (o : Outcome A)
          → Ends o
          → ((a : A) → o ≡ done a → Leaves h s (f s.heap a s))
          → Leaves h s (bind_outcome (lift_outcome s o) (f s.heap))
      made s (done a) e next = next a refl
      made s exit e next = tt
      made s blocked e next = absurd e
      made s (fault x) e next = tt

size-Spares :
    {T : Type 0} {h : Held}
    → Spares {T = T} h (modify (λ s. record s { tree_size = incr_size s.tree_size }))
size-Spares = record {
  at = λ s. record { tree = refl; nodes = λ q. refl; kept = λ q n at idle. at };
}

pub inited-Spares :
    {T : Type 0} {h : Held} → Spares {T = T} h (modify (λ s. record s { tag_tree_inited = true }))
inited-Spares = record {
  at = λ s. record { tree = refl; nodes = λ q. refl; kept = λ q n at idle. at };
}

module _ {T : Type 0} (rb : RbTree T) (libc : Libc) {held : Held} where
  pub add_node-Spares : (name : Bytes) (type : TypeT) → Spares held (add_node rb libc name type)
  unfolding add_node
  add_node-Spares name type = Spares->>= _ _ (Spares-gets _) λ biggest.
      Spares->>= _ _ (Spares-lift _ (Ends-next_id biggest)) λ id.
        Spares-made (λ h. alloc_node libc h name type id) (λ (p, n). p) (λ h. entered id)
          (λ h. Ends-alloc_node libc h name type id)
          (λ h (p, n) e. (alloc_node-IsFresh libc h name type id p n e).unused)
          (λ h (p, n) e.
            SparesWithout-after p (write p n) _
              (write-SparesWithout p n (alloc_node-IsFresh libc h name type id p n e).unlocked)
              (λ _.
                Spares->>= _ _ (rb_insert-Spares rb id p)
                  λ _. Spares->>= _ _ size-Spares λ _. Spares-pure p))
    where
      entered : ℤ → Ptr × Node → M T Ptr
      entered id (p, n) = do
        write p n
        rb_insert rb id p
        modify (λ s. record s { tree_size = incr_size s.tree_size })
        pure p

  pub add_metanode-Spares : (total : ℕ) → Spares held (add_metanode rb libc total)
  unfolding add_metanode
  add_metanode-Spares total =
      Spares-made (λ h. elim (libc.malloc h sizeof_node) [ none ↦ exit | some p ↦ done p ]) (λ p. p)
        _ (λ h. Ends-malloc (libc.malloc h sizeof_node)) (λ h p e. fresh h p _ e refl)
        λ h p e. SparesWithout-before p _ _ (Reads-lift _ (Ends-unless_exit _)) λ _.
          SparesWithout-before p _ _ (Reads-lift _ (Ends-type_new_array _ _ _)) λ t.
            SparesWithout-before p _ _ (Reads-lift _ (Ends-unless_exit _)) λ _.
              SparesWithout-before p _ _ (Reads-gets _) λ after.
                SparesWithout-before p _ _ (deref_all-Reads after) λ ns'.
                  SparesWithout-before p _ _
                    (Reads-lift _ (Ends-write_entries ns' 0 (libc.garbage h total)))
                    λ d.
                      SparesWithout-after p _ _ (write-SparesWithout p (metanode t d) refl)
                        λ _. Spares->>= _ _ (rb_insert-Spares rb metatag_id p) λ _. Spares-pure p
    where
      metanode : TypeT → Bytes → Node
      metanode t d = record {
        tag_id = metatag_id;
        name = meta_name;
        cb = none;
        locked = false;
        type = t;
        contents = d;
      }

      fresh :
          (h : Heap) (p : Ptr) (o : Option Ptr)
          → elim o as (λ o. Outcome Ptr) [ none ↦ exit | some p ↦ done p ] ≡ done p
          → libc.malloc h sizeof_node ≡ o
          → get p h ≡ none
      fresh h p none e m = absurd (ground arith)
      fresh h p (some q) e m = (libc.malloc-fresh h sizeof_node p (ground arith)).1
