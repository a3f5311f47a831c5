-- ===== src/Parallel/Keeps.antt =====
-- What src/tagtree.c and src/plcstub.c do between operations on locks leaves the locks alone: the
-- rules, and the actions without an allocation.
use plcstub.Base.{
  ap, inl, inr, false, true, ◌⊎◌, ◌==◌, Bool-cases, ==_iff, ℕ, ◌≡◌, refl, ◌∙◌, Option, none, some,
  List, [], ◌∷◌, arith, ℤ,
}
use plcstub.Outcome.{Outcome, done, exit, blocked, fault, dangling}
use plcstub.Env.Rb.{Ptr, Entry, RbTree}
use plcstub.Env.Heap.{Node, Heap, get, put, get-put}
use plcstub.Bytes.{Bytes}
use plcstub.TagTree.State.{
  State, M, pure, ◌>>=◌, lift, lift_outcome, gets, deref, write, bind_outcome,
}
use plcstub.TagTree.Metatag.{total_size}
use plcstub.TagTree.Ops.{rb_find, rb_remove, rb_insert, deref_all}
use plcstub.Api.Access.{setter_cb, call_cb}
use plcstub.Parallel.Actions.{set_first, set_cb, read_data, write_data, read_id, sum_sizes}
use plcstub.Parallel.Discipline.{Held, holds, lock_bit, lock_count, Spared, Leaves, Spares}
use plcstub.Parallel.Waits.{Ends, Ends-getter_cb, Ends-setter_cb}

pub lock_count-put :
    (h : Heap) (p : Ptr) (n : Node)
    → lock_bit n.locked ≡ lock_count h p
    → (q : Ptr) → lock_count (put p n h) q ≡ lock_count h q
unfolding lock_count
lock_count-put h p n e q = ground (arith, e, get-put p q n h)

-- A node whose mutex is not held is not one whose mutex is.
pub apart : (h : Held) (p q : Ptr) → holds p h ≡ 1 → holds q h ≡ 0 → (q == p) ≡ false
apart h p q own idle = differ (Bool-cases (q == p))
  where
    differ : ((q == p) ≡ true) ⊎ ((q == p) ≡ false) → (q == p) ≡ false
    differ (inr other) = other
    differ (inl equal) =
        let same : q ≡ p = (==_iff q p).0 equal in
        absurd (omega (arith, own, idle, ap (λ r. holds r h) same))

module _ {T : Type 0} (h : Held) where
  pub Spared-refl : (s : State T) → Spared h s s
  Spared-refl s = record { tree = refl; nodes = λ q. refl; kept = λ q n at idle. at }

  Leaves-lift : {B : Type 0} (s : State T) (o : Outcome B) → Ends o → Leaves h s (lift_outcome s o)
  Leaves-lift s (done b) e = Spared-refl s
  Leaves-lift s exit e = tt
  Leaves-lift s blocked e = absurd e
  Leaves-lift s (fault x) e = tt

  -- A node is written with its mutex as it was.
  write_at :
      (s : State T) (p : Ptr) (n n' : Node)
      → holds p h ≡ 1
      → get p s.heap ≡ some n
      → n'.locked ≡ n.locked
      → Leaves h s (write p n' s)
  unfolding write lock_count
  write_at s p n n' own at same = record {
    tree = refl;
    nodes = lock_count-put s.heap p n' (ground (arith, at, same));
    kept = λ q m there idle. get-put p q n' s.heap ∙ (rw (apart h p q own idle) there);
  }

module _ {T : Type 0} {h : Held} where
  Spared-trans : {s s' s'' : State T} → Spared h s s' → Spared h s' s'' → Spared h s s''
  Spared-trans a b = record {
    tree = b.tree ∙ a.tree;
    nodes = λ q. b.nodes q ∙ a.nodes q;
    kept = λ q n at idle. b.kept q n (a.kept q n at idle) idle;
  }

  Leaves-trans :
      {B : Type 0} {s s' : State T} (o : Outcome (B × State T))
      → Spared h s s'
      → Leaves h s' o
      → Leaves h s o
  Leaves-trans (done (b, s'')) a l = Spared-trans a l
  Leaves-trans exit a l = tt
  Leaves-trans blocked a l = absurd l
  Leaves-trans (fault e) a l = tt

  -- The rules
  pub Spares-lift : {B : Type 0} (o : Outcome B) → Ends o → Spares {T = T} h (lift o)
  Spares-lift o e = record { at = λ s. Leaves-lift h s o e }

  pub Spares-gets : {B : Type 0} (f : State T → B) → Spares h (gets f)
  Spares-gets f = record { at = λ s. Spared-refl h s }

  pub Spares-pure : {B : Type 0} (b : B) → Spares {T = T} h (pure b)
  Spares-pure b = record { at = λ s. Spared-refl h s }

  pub Leaves->>= :
      {A B : Type 0} (s : State T) (o : Outcome (A × State T)) (f : A → M T B)
      → Leaves h s o
      → ((a : A) (s' : State T) → Spared h s s' → Leaves h s' (f a s'))
      → Leaves h s (bind_outcome o f)
  Leaves->>= s (done (a, s')) f l k = Leaves-trans (f a s') l (k a s' l)
  Leaves->>= s exit f l k = tt
  Leaves->>= s blocked f l k = absurd l
  Leaves->>= s (fault e) f l k = tt

  pub Spares->>= :
      {A B : Type 0} (m : M T A) (f : A → M T B)
      → Spares h m
      → ((a : A) → Spares h (f a))
      → Spares h (m >>= f)
  Spares->>= m f k l = record { at = λ s. Leaves->>= s (m s) f (k.at s) λ a s' same. (l a).at s' }

  pub deref-Spares : (p : Ptr) → Spares {T = T} h (deref p)
  unfolding deref
  deref-Spares p = record { at = λ s. read s (get p s.heap) }
    where
      read :
          (s : State T) (o : Option Node)
          → Leaves h s (elim o [ none ↦ fault dangling | some n ↦ done (n, s) ])
      read s none = tt
      read s (some n) = Spared-refl h s

  pub deref_all-Spares : (es : List Entry) → Spares {T = T} h (deref_all es)
  unfolding deref_all
  deref_all-Spares [] = Spares-pure []
  deref_all-Spares (e ∷ es) =
      Spares->>= _ _ (deref-Spares e.node)
        λ n. Spares->>= _ _ (deref_all-Spares es) λ ns. Spares-pure (n ∷ ns)

  -- What goes on with a node may use that it stands at its address.
  with_node :
      {B : Type 0} (p : Ptr) (f : Node → M T B)
      → ((s : State T) (n : Node) → get p s.heap ≡ some n → Leaves h s (f n s))
      → Spares h (deref p >>= f)
  unfolding deref
  with_node p f next = record { at = λ s. found s (get p s.heap) (next s) }
    where
      found :
          (s : State T) (o : Option Node)
          → ((n : Node) → o ≡ some n → Leaves h s (f n s))
          → Leaves h s (bind_outcome (elim o [ none ↦ fault dangling | some n ↦ done (n, s) ]) f)
      found s none k = tt
      found s (some n) k = k n refl

  pub set_first-Spares : (val : ℕ) (p : Ptr) → holds p h ≡ 1 → Spares {T = T} h (set_first val p)
  unfolding set_first
  set_first-Spares val p own = with_node p _ λ s n at. write_at h s p n _ own at refl

  pub set_cb-Spares : (cb : Option ℕ) (p : Ptr) → holds p h ≡ 1 → Spares {T = T} h (set_cb cb p)
  unfolding set_cb
  set_cb-Spares cb p own = with_node p _ λ s n at. write_at h s p n _ own at refl

  pub read_id-Spares : (p : Ptr) → Spares {T = T} h (read_id p)
  unfolding read_id
  read_id-Spares p = Spares->>= _ _ (deref-Spares p) λ n. Spares-pure n.tag_id

  pub call_cb-Spares : (p : Ptr) (tag ev status : ℤ) → Spares {T = T} h (call_cb p tag ev status)
  unfolding call_cb
  call_cb-Spares p tag ev status =
      with_node p _ λ s n at. record { tree = refl; nodes = λ q. refl; kept = λ q n at idle. at }

  pub read_data-Spares : (w : ℕ) (off : ℤ) (p : Ptr) → Spares {T = T} h (read_data w off p)
  unfolding read_data
  read_data-Spares w off p =
      Spares->>= _ _ (deref-Spares p) λ n. Spares-lift _ (Ends-getter_cb w off n.contents)

  pub write_data-Spares :
      (w v : ℕ) (off : ℤ) (p : Ptr) → holds p h ≡ 1 → Spares {T = T} h (write_data w v off p)
  unfolding write_data
  write_data-Spares w v off p own =
      with_node p _
        λ s n at. written s n at (setter_cb w off v n.contents) (Ends-setter_cb w off v n.contents)
    where
      written :
          (s : State T) (n : Node)
          → get p s.heap ≡ some n
          → (o : Outcome Bytes) → Ends o
          → Leaves h s (bind_outcome (lift_outcome s o) (λ d. write p (record n { contents = d })))
      written s n at (done d) e = write_at h s p n _ own at refl
      written s n at exit e = tt
      written s n at blocked e = absurd e
      written s n at (fault x) e = tt

module _ {T : Type 0} (rb : RbTree T) {h : Held} where
  pub rb_find-Spares : (id : ℤ) → Spares h (rb_find rb id)
  unfolding rb_find
  rb_find-Spares id = record { at = λ s. Spared-refl h s }

  pub rb_remove-Spares : (e : Entry) → Spares h (rb_remove rb e)
  unfolding rb_remove
  rb_remove-Spares e = record {
    at = λ s. record { tree = refl; nodes = λ q. refl; kept = λ q n at idle. at };
  }

  pub rb_insert-Spares : (id : ℤ) (p : Ptr) → Spares h (rb_insert rb id p)
  unfolding rb_insert
  rb_insert-Spares id p = record {
    at = λ s. record { tree = refl; nodes = λ q. refl; kept = λ q n at idle. at };
  }

  pub sum_sizes-Spares : Spares h (sum_sizes rb)
  unfolding sum_sizes
  sum_sizes-Spares =
      Spares->>= _ _ (Spares-gets _)
        λ es. Spares->>= _ _ (deref_all-Spares es) λ ns. Spares-pure (total_size 0 ns)
