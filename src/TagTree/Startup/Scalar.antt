-- ===== src/TagTree/Startup/Scalar.antt =====
-- DEFINE_SCALAR of src/tagtree.c: one tag of tags.inc, where no allocation fails.
use plcstub.Base.{
  ℕ, ◌+◌, ◌≡◌, refl, sym, ap, ◌∙◌, Bool, true, false, none, some, [], ◌∷◌, ◌++◌, arith, ℤ, pos,
  length, replicate, is_some, ==-refl, eq_of_==ℤ, Bool-cases, inl, inr, ◌==◌, leb, ◌&&◌, ◌%◌,
}
use plcstub.Types.{type_new_simple, type_dup, tag_lint_code}
use plcstub.Outcome.{done}
use plcstub.Bytes.{Bytes, splice}
use plcstub.Env.Rb.{Ptr, entry, RbTree}
use plcstub.Env.Heap.{Node, Heap, get, put, delete, get-put}
use plcstub.Env.Libc.{Libc}
use plcstub.TagTree.State.{State, deref, write, mtx_unlock}
use plcstub.TagTree.Ops.{
  metatag_id, sizeof_node, buffer_size, next_id, not_null, alloc_node, tag_tree_node_create,
  define_scalar,
}
use plcstub.TagTree.Order.{find_id, find_id-append, Above-append}
use plcstub.TagTree.Same.{find_id-ext}
use plcstub.TagTree.Sound.{IsSound}
use plcstub.TagTree.Create.Drop.{MetatagFree}
use plcstub.TagTree.Create.Fresh.{IsWith, next_id-Below}
use plcstub.TagTree.Create.Insert.{tag_tree_node_create-IsWith, IsWith-rewrite}

-- An allocator that never fails, and mutexes that can always be made.
pub record IsGenerous (libc : Libc) : Type 0 where
  pub gives : (h : Heap) (n : ℕ) → (p : Ptr) × (libc.malloc h n ≡ some p)
  pub mutex : (p : Ptr) → libc.mutex_init p ≡ true

simple_dup :
    (mem : ℕ → Bool) (ty : ℕ) → type_dup mem (type_new_simple ty) ≡ done (type_new_simple ty)
unfolding type_dup type_new_simple
simple_dup mem ty = elim (Bool-cases (leb 1 ty && leb ty tag_lint_code)) [
  | inl b ↦ rw b
  | inr b ↦ rw b
]

-- A new node with a simple type.
abbrev pub simple_node : Bytes → ℕ → ℤ → Node
simple_node name ty id = record {
  tag_id = id;
  name = name;
  cb = none;
  locked = false;
  type = type_new_simple ty;
  contents = replicate (buffer_size (type_new_simple ty)) 0x42;
}

alloc_simple :
    (libc : Libc)
    → IsGenerous libc
    → (h : Heap) (name : Bytes) (ty : ℕ) (id : ℤ) → not_null (type_new_simple ty) ≡ true
    → (p : Ptr) × (alloc_node libc h name (type_new_simple ty) id
        ≡ done (p, simple_node name ty id))
unfolding alloc_node
alloc_simple libc g h name ty id nonnull =
    let (p, e) = g.gives h sizeof_node in
    let (_, e') = g.gives h (length name + 1) in
    let (_, e'') = g.gives h (buffer_size (type_new_simple ty)) in
    let d = simple_dup (λ n. is_some (libc.malloc h n)) ty in
    (p, rw (e, g.mutex p, e', d, nonnull, e''))

pub alloc_done :
    (libc : Libc)
    → IsGenerous libc
    → (h : Heap) (name : Bytes) (ty : ℕ) (id : ℤ) → not_null (type_new_simple ty) ≡ true
    → (p : Ptr) × (n : Node) × (alloc_node libc h name (type_new_simple ty) id ≡ done (p, n))
alloc_done libc g h name ty id nonnull =
    let (p, e) = alloc_simple libc g h name ty id nonnull in (p, simple_node name ty id, e)

delete_twice : (p : Ptr) (h : Heap) → delete p (delete p h) ≡ delete p h
unfolding delete
delete_twice p [] = refl
delete_twice p ((q, n) ∷ h) = elim (Bool-cases (p == q)) [
  | inl hit ↦ rw hit (delete_twice p h)
  | inr miss ↦ rw (miss, miss) (ap (λ l. (q, n) ∷ l) (delete_twice p h))
]

put-put : (p : Ptr) (m n : Node) (h : Heap) → put p m (put p n h) ≡ put p m h
unfolding put delete
put-put p m n h = rw (==-refl p) (ap (λ l. (p, m) ∷ l) (delete_twice p h))

-- A tree with a new tag is the tree with its entry at the end.
module _ {T : Type 0} (rb : RbTree T) (id : ℤ) (p : Ptr) (n : Node) (s s' : State T)
    (sound : IsSound rb s) (no_metatag : find_id metatag_id (rb.elements s.tree) ≡ none)
    (next : next_id (rb.maximum s.tree) ≡ done id) (w : IsWith rb id p n s s') where
  elements-IsWith : rb.elements s'.tree ≡ rb.elements s.tree ++ entry id p ∷ []
  elements-IsWith =
      let (below, high) =
        next_id-Below (rb.elements s.tree) id sound.ordered
          (ap next_id (sym (rb.maximum_lem s.tree)) ∙ next) in
      find_id-ext (pos 0) (rb.elements s'.tree) (rb.elements s.tree ++ entry id p ∷ [])
        w.sound.ordered
        (Above-append (pos 0) (entry id p) (rb.elements s.tree) sound.ordered below (omega arith))
        λ j. ground (
          arith,
          w.finds j,
          find_id-append j (entry id p) (rb.elements s.tree) below,
          no_metatag,
          eq_of_==ℤ j metatag_id,
        )

-- What DEFINE_SCALAR does to the node that it gets.
abbrev defined : ℕ → Node → Node
defined val n = record n { contents = splice 0 (val % 256 ∷ []) n.contents; locked = false }

-- A tag of tags.inc: the first byte of its buffer is the value.
abbrev pub scalar_node : Bytes → ℕ → ℕ → ℤ → Node
scalar_node name ty val id = defined val (simple_node name ty id)

module _ {T : Type 0} (rb : RbTree T) (libc : Libc) (generous : IsGenerous libc) where
  define_runs :
      (s s₁ : State T) (p : Ptr) (n : Node) (name : Bytes) (ty val : ℕ)
      → tag_tree_node_create rb libc name (type_new_simple ty) s ≡ done (p, s₁)
      → get p s₁.heap ≡ some n
      → n.locked ≡ true
      → define_scalar rb libc name ty val s
        ≡ done (tt, record s₁ { heap = put p (defined val n) s₁.heap })
  unfolding define_scalar deref write mtx_unlock
  define_runs s s₁ p n name ty val made at held =
      let m : Node = record n { contents = splice 0 (val % 256 ∷ []) n.contents } in
      rw made (
        ground
          (arith, at, held, get-put p p m s₁.heap, ==-refl p, put-put p (defined val n) m s₁.heap))

  pub define_scalar-IsWith :
      (s : State T) (id : ℤ) (name : Bytes) (ty val : ℕ)
      → IsSound rb s
      → find_id metatag_id (rb.elements s.tree) ≡ none
      → not_null (type_new_simple ty) ≡ true
      → next_id (rb.maximum s.tree) ≡ done id
      → (s' : State T) × (p : Ptr) × (define_scalar rb libc name ty val s ≡ done (tt, s'))
        × IsWith rb id p (scalar_node name ty val id) s s'
  define_scalar-IsWith s id name ty val sound no_metatag nonnull next =
      let (p, alloc) = alloc_simple libc generous s.heap name ty id nonnull in
      let n : Node = simple_node name ty id in
      let metafree : MetatagFree rb s sound = λ e m g at. absurd (ground arith) in
      let (s₁, made, w) =
        tag_tree_node_create-IsWith rb libc name (type_new_simple ty) id p n s sound metafree next
          alloc in
      let m : Node = scalar_node name ty val id in
      (
        record s₁ { heap = put p m s₁.heap; tag_tree_mtx = s.tag_tree_mtx },
        p,
        define_runs s s₁ p (record n { locked = true }) name ty val made w.at refl
            ∙ (λ i. done (tt, record s₁ { heap = put p m s₁.heap; tag_tree_mtx = w.rwlock i })),
        IsWith-rewrite rb id p (record n { locked = true }) s s₁ w refl m s.tag_tree_mtx refl,
      )

  -- The tree has one more entry, at its end, and no metatag.
  pub define_scalar_lem :
      (s s' : State T) (id : ℤ) (p : Ptr) (n : Node)
      → IsSound rb s
      → find_id metatag_id (rb.elements s.tree) ≡ none
      → next_id (rb.maximum s.tree) ≡ done id
      → IsWith rb id p n s s'
      → (rb.elements s'.tree ≡ rb.elements s.tree ++ entry id p ∷ [])
        × (find_id metatag_id (rb.elements s'.tree) ≡ none)
  define_scalar_lem s s' id p n sound no_metatag next w =
      let (_, high) =
        next_id-Below (rb.elements s.tree) id sound.ordered
          (ap next_id (sym (rb.maximum_lem s.tree)) ∙ next) in
      (elements-IsWith rb id p n s s' sound no_metatag next w, w.finds metatag_id ∙ ground arith)
