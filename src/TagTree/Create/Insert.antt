-- ===== src/TagTree/Create/Insert.antt =====
-- `tag_tree_node_create` and `tag_tree_insert` of src/tagtree.c, from a sound tree.
use plcstub.Base.{
  ◌≡◌, ◌≢◌, refl, sym, ap, ◌∙◌, true, false, none, some, Bool-cases, arith, ℤ, ◌==ℤ◌, inl, inr,
  ◌==◌, ==-refl, if◌then◌else◌, is_some, replicate, eq_bytes,
}
use plcstub.Outcome.{done}
use plcstub.Bytes.{Bytes}
use plcstub.Types.{TypeT, type_dup}
use plcstub.Env.Rb.{Ptr, Entry, RbTree}
use plcstub.Env.Heap.{Node, Heap, get, put, get-put}
use plcstub.Env.Libc.{Libc}
use plcstub.TagTree.State.{
  State, RwLock, free, writer, mtx_lock, mtx_unlock, deref, rw_wrlock, rw_unlock,
}
use plcstub.TagTree.Ops.{
  meta_name, sizeof_node, buffer_size, next_id, alloc_node, tag_tree_node_create, tag_tree_insert,
}
use plcstub.TagTree.Lookup.{IsReady, init_ready, with_rw}
use plcstub.TagTree.Order.{find_id, find_id-some, Owns-find_id}
use plcstub.TagTree.Sound.{IsSound, Live-mono}
use plcstub.TagTree.Create.Drop.{MetatagFree, drop_metatag_lem}
use plcstub.TagTree.Create.Fresh.{
  next_id-Below, IsWith, inserted, sound_inserted, MetatagFree_inserted, with_node, at_gone,
  with_node-IsWith,
}

-- A node as `tag_tree_node_create` makes it: at a fresh address, unlocked, with no callback, a copy
-- of the type and a buffer filled with 0x42.
pub record IsFresh (libc : Libc) (h : Heap) (name : Bytes) (type : TypeT) (id : ℤ) (p : Ptr)
    (n : Node) : Type 0 where
  pub nonnull : p ≢ 0
  pub unused : get p h ≡ none
  pub tag_id : n.tag_id ≡ id
  pub name_kept : n.name ≡ name
  pub no_callback : n.cb ≡ none
  pub unlocked : n.locked ≡ false
  pub copied : type_dup (λ k. is_some (libc.malloc h k)) type ≡ done n.type
  pub filled : n.contents ≡ replicate (buffer_size type) 0x42

pub alloc_node-IsFresh :
    (libc : Libc) (h : Heap) (name : Bytes) (type : TypeT) (id : ℤ) (p : Ptr) (n : Node)
    → alloc_node libc h name type id ≡ done (p, n)
    → IsFresh libc h name type id p n
unfolding alloc_node
alloc_node-IsFresh libc h name type id p n e = ground (arith, libc.malloc-fresh h sizeof_node p)

module _ {T : Type 0} (rb : RbTree T) (libc : Libc) (name : Bytes) (type : TypeT) (id : ℤ) (p : Ptr)
    (n : Node) where
  -- The new tag, with its mutex held.
  pub tag_tree_node_create-IsWith :
      (s : State T) (sound : IsSound rb s)
      → MetatagFree rb s sound
      → next_id (rb.maximum s.tree) ≡ done id
      → alloc_node libc s.heap name type id ≡ done (p, n)
      → (s' : State T) × (tag_tree_node_create rb libc name type s ≡ done (p, s'))
        × IsWith rb id p (record n { locked = true }) s s'
  unfolding tag_tree_node_create mtx_lock
  tag_tree_node_create-IsWith s sound metafree next alloc =
      let f = alloc_node-IsFresh libc s.heap name type id p n alloc in
      let (below, high) =
        next_id-Below (rb.elements s.tree) id sound.ordered
          (ap next_id (sym (rb.maximum_lem s.tree)) ∙ next) in
      let (s₂, dropped, gone) =
        drop_metatag_lem rb (inserted rb s sound id p n below high f.nonnull f.unused f.tag_id)
          (sound_inserted rb s sound id p n below high f.nonnull f.unused f.tag_id)
          (MetatagFree_inserted rb s sound id p n below high f.nonnull f.unused f.tag_id
            metafree) in
      let there = at_gone rb s sound id p n below high f.nonnull f.unused f.tag_id s₂ gone in
      (
        with_node rb s sound id p n below high f.nonnull f.unused f.tag_id s₂ gone
            (record n { locked = true }),
        rw (next, alloc, dropped) (ground (arith, f.unlocked)),
        with_node-IsWith rb s sound id p n below high f.nonnull f.unused f.tag_id s₂ gone
            (record n { locked = true }) f.tag_id,
      )

-- Writing the new tag's node again, and setting the rwlock, leaves the rest.
module _ {T : Type 0} (rb : RbTree T) (id : ℤ) (p : Ptr) (m : Node) (s s₃ : State T)
    (w : IsWith rb id p m s s₃) (named : m.tag_id ≡ id) where
  apart_from_new :
      (j : ℤ) (e : Entry)
      → find_id j (rb.elements s₃.tree) ≡ some e
      → (j ==ℤ id) ≡ false
      → e.node ≢ p
  apart_from_new j e f other same =
      let (k, at, i) = Owns-find_id s₃.heap j (rb.elements s₃.tree) e w.sound.live f in
      let i' : k.tag_id ≡ j = i ∙ find_id-some j (rb.elements s₃.tree) e f in
      let same_k : m ≡ k = ground (arith, w.at) in ground arith

  pub IsWith-rewrite :
      (m' : Node) (l : RwLock)
      → m'.tag_id ≡ id
      → IsWith rb id p m'
          (record s { tag_tree_mtx = l })
          (record s₃ { heap = put p m' s₃.heap; tag_tree_mtx = l })
  IsWith-rewrite m' l named' = record {
    sound = record {
      ordered = w.sound.ordered;
      nonnull = w.sound.nonnull;
      live =
          Live-mono s₃.heap (put p m' s₃.heap) (rb.elements s₃.tree)
            (λ q k at. relabel q k at (get-put p q m' s₃.heap)) w.sound.live;
    };
    finds = w.finds;
    at = get-put p p m' s₃.heap ∙ ground (arith, ==-refl p);
    keeps = λ j e f other.
        let ne = apart_from_new j e f other in
        ground (arith, get-put p e.node m' s₃.heap, w.keeps j e f);
    inited = w.inited;
    rwlock = refl;
    events = w.events;
    size = w.size;
  }
    where
      relabel :
          (q : Ptr) (k : Node)
          → get q s₃.heap ≡ some k
          → get q (put p m' s₃.heap) ≡ (if q == p then some m' else get q s₃.heap)
          → (k' : Node) × (get q (put p m' s₃.heap) ≡ some k') × (k'.tag_id ≡ k.tag_id)
      relabel q k at e = elim (Bool-cases (q == p)) [
        | inl hit ↦ (m', ground arith, ground (arith, w.at))
        | inr miss ↦ (k, ground arith, refl)
      ]

module _ {T : Type 0} (rb : RbTree T) (libc : Libc) (name : Bytes) (type : TypeT) (id : ℤ) (p : Ptr)
    (n : Node) (s : State T) (ready : IsReady s) (sound : IsSound rb s) where
  sound_writer : IsSound rb (with_rw ready writer)
  sound_writer = record { ordered = sound.ordered; nonnull = sound.nonnull; live = sound.live }

  -- On a started library with a sound tree, whose metatag is not locked, `tag_tree_insert` of a name
  -- other than "@tags" returns the ID after the highest one. The new tag is found under it, unlocked
  -- and without a callback, with the name, a copy of the type and a buffer filled with 0x42; the
  -- metatag is gone; every other tag is found with its node as before; and the tree is sound again.
  -- The IDs are not used up, and the allocations succeed, as the premises say.
  pub tag_tree_insert-IsWith :
      eq_bytes name meta_name ≡ false
      → MetatagFree rb s sound
      → next_id (rb.maximum s.tree) ≡ done id
      → alloc_node libc s.heap name type id ≡ done (p, n)
      → (s' : State T) × (tag_tree_insert rb libc name type s ≡ done (id, s'))
        × IsWith rb id p n s s'
        × IsReady s'
        × IsFresh libc s.heap name type id p n
  unfolding tag_tree_insert rw_wrlock rw_unlock mtx_unlock deref
  tag_tree_insert-IsWith plain metafree next alloc =
      let f = alloc_node-IsFresh libc s.heap name type id p n alloc in
      let (s₃, made, w) =
        tag_tree_node_create-IsWith rb libc name type id p n (with_rw ready writer) sound_writer
          metafree next alloc in
      let n' : record n { locked = false } ≡ n = λ i. record n { locked = sym f.unlocked i } in
      let s' : State T = record s₃ { heap = put p n s₃.heap; tag_tree_mtx = s.tag_tree_mtx } in
      let closed : s'
          ≡ record s₃ { heap = put p (record n { locked = false }) s₃.heap; tag_tree_mtx = free } =
        λ i. record s₃ { heap = put p (sym n' i) s₃.heap; tag_tree_mtx = ready.unlocked i } in
      (
        s',
        rw (init_ready ready rb libc, plain)
            (ground (
              arith,
              ready.unlocked,
              made,
              w.at,
              w.rwlock,
              f.tag_id,
              sym closed,
              ==-refl p,
              get-put p p (record n { locked = false }) s₃.heap,
            )),
        IsWith-rewrite rb id p (record n { locked = true }) (with_rw ready writer) s₃ w f.tag_id n
            s.tag_tree_mtx f.tag_id,
        record { inited = w.inited ∙ ready.inited; unlocked = ready.unlocked },
        f,
      )
