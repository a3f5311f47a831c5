-- ===== src/TagTree/Create/Drop.antt =====
-- How the metatag leaves the tree: the same lines stand in `tag_tree_node_create` and in
-- `tag_tree_metanode_create`; and how any other entry leaves it.
use plcstub.Base.{
  ◌≡◌, ◌≢◌, refl, ◌∙◌, true, false, none, some, Option-cases, List, arith, ℤ, pos, ◌==ℤ◌, eq_of_==ℤ,
  inl, inr, if◌then◌else◌, is_some,
}
use plcstub.Outcome.{done}
use plcstub.Env.Rb.{Ptr, Entry, entry, RbTree, unlink}
use plcstub.Env.Heap.{Node, Heap, get, put, delete, get-put, get-delete}
use plcstub.TagTree.State.{State, mtx_lock}
use plcstub.TagTree.Ops.{metatag_id, decr_size, drop_metatag, tag_tree_node_destroy}
use plcstub.TagTree.Order.{find_id, find_id-unlink, rb_find-find_id, Owns-find_id}
use plcstub.TagTree.Sound.{
  IsSound, Above-unlink, Live-unlink, Avoids-unlink, Avoids-find_id, Avoids-less, Live-elsewhere,
}

-- The state without an entry and its node.
abbrev pub without : {T : Type 0} → RbTree T → State T → Entry → Node → State T
without rb s e m = record s {
  tree = rb.remove s.tree e;
  tree_size = decr_size s.tree_size;
  heap = delete e.node (put e.node (record m { locked = true }) s.heap);
}

-- `s'` is `s` without the tag `i`: the other entries are there, with their nodes.
pub record IsWithout {T : Type 0} (rb : RbTree T) (i : ℤ) (s s' : State T) : Type 0 where
  pub sound : IsSound rb s'
  pub finds :
      (j : ℤ)
      → find_id j (rb.elements s'.tree) ≡ (if j ==ℤ i then none else find_id j (rb.elements s.tree))
  pub keeps :
      (j : ℤ) (e : Entry)
      → find_id j (rb.elements s'.tree) ≡ some e
      → get e.node s'.heap ≡ get e.node s.heap
  pub inited : s'.tag_tree_inited ≡ s.tag_tree_inited
  pub rwlock : s'.tag_tree_mtx ≡ s.tag_tree_mtx
  pub events : s'.events ≡ s.events
  pub size :
      s'.tree_size
      ≡ (if is_some (find_id i (rb.elements s.tree)) then decr_size s.tree_size else s.tree_size)

module _ {T : Type 0} (rb : RbTree T) (s : State T) (sound : IsSound rb s) (i : ℤ) (e : Entry)
    (found : find_id i (rb.elements s.tree) ≡ some e) where
  elements_without : rb.elements (rb.remove s.tree e) ≡ unlink e (rb.elements s.tree)
  elements_without = rb.elements-remove s.tree e (entry i 0) (rb_find-find_id rb s.tree i 0 ∙ found)

  same_elsewhere :
      (m : Node) (q : Ptr)
      → q ≢ e.node
      → get q (delete e.node (put e.node (record m { locked = true }) s.heap)) ≡ get q s.heap
  same_elsewhere m q ne = ground (
    arith,
    get-delete e.node q (put e.node (record m { locked = true }) s.heap),
    get-put e.node q (record m { locked = true }) s.heap,
  )

  -- The state without the entry, and with a heap that differs at its address only.
  pub cut-IsWithout :
      (g : Heap)
      → ((q : Ptr) → q ≢ e.node → get q g ≡ get q s.heap)
      → IsWithout rb i s
          (record s { tree = rb.remove s.tree e; tree_size = decr_size s.tree_size; heap = g })
  cut-IsWithout g same =
      let xs : List Entry = rb.elements s.tree in
      let avoids = Avoids-unlink s.heap (pos 0) i e xs sound.ordered sound.live found in
      record {
        sound = record {
          ordered = rw elements_without (Above-unlink (pos 0) e xs sound.ordered);
          nonnull = rw elements_without (Avoids-less 0 e xs sound.nonnull);
          live = rw elements_without (
              Live-elsewhere s.heap g e.node (unlink e xs) avoids same
                (Live-unlink s.heap e xs sound.live));
        };
        finds = λ j.
            rw elements_without
              (find_id-unlink s.heap (pos 0) i j xs e sound.ordered sound.live found);
        keeps = λ j x f.
            same x.node (Avoids-find_id e.node j (unlink e xs) x avoids (rw elements_without at f));
        inited = refl;
        rwlock = refl;
        events = refl;
        size = rw found refl;
      }

  pub without-IsWithout : (m : Node) → IsWithout rb i s (without rb s e m)
  without-IsWithout m = cut-IsWithout _ (same_elsewhere m)

module _ {T : Type 0} (rb : RbTree T) (s : State T) (sound : IsSound rb s) where
  drop_present :
      (e : Entry) (m : Node)
      → find_id metatag_id (rb.elements s.tree) ≡ some e
      → get e.node s.heap ≡ some m
      → m.locked ≡ false
      → drop_metatag rb s ≡ done (tt, without rb s e m)
  unfolding drop_metatag tag_tree_node_destroy mtx_lock
  drop_present e m f at free =
      let ne : e.node ≢ 0 = Avoids-find_id 0 metatag_id (rb.elements s.tree) e sound.nonnull f in
      let found : rb.find s.tree (entry metatag_id 0) ≡ some e =
        rb_find-find_id rb s.tree metatag_id 0 ∙ f in
      ground arith

  pub drop_absent :
      find_id metatag_id (rb.elements s.tree) ≡ none → drop_metatag rb s ≡ done (tt, s)
  unfolding drop_metatag
  drop_absent f =
      let found : rb.find s.tree (entry metatag_id 0) ≡ none =
        rb_find-find_id rb s.tree metatag_id 0 ∙ f in
      ground arith

  -- The metatag, if there is one, is not locked by anybody.
  abbrev pub MetatagFree : Type 0
  MetatagFree =
      (e : Entry) (m : Node)
      → find_id metatag_id (rb.elements s.tree) ≡ some e
      → get e.node s.heap ≡ some m
      → m.locked ≡ false

  absent-IsWithout : find_id metatag_id (rb.elements s.tree) ≡ none → IsWithout rb metatag_id s s
  absent-IsWithout f = record {
    sound = sound;
    finds = λ j. ground (arith, eq_of_==ℤ j metatag_id);
    keeps = λ j e g. refl;
    inited = refl;
    rwlock = refl;
    events = refl;
    size = rw f refl;
  }

  pub drop_metatag_lem :
      MetatagFree
      → (s' : State T) × (drop_metatag rb s ≡ done (tt, s')) × IsWithout rb metatag_id s s'
  drop_metatag_lem free = elim (Option-cases (find_id metatag_id (rb.elements s.tree))) [
    | inl f ↦ (s, drop_absent f, absent-IsWithout f)
    | inr (e, f) ↦
        let (m, at, id) = Owns-find_id s.heap metatag_id (rb.elements s.tree) e sound.live f in
        (
          without rb s e m,
          drop_present e m f at (free e m f at),
          without-IsWithout rb s sound metatag_id e f m,
        )
  ]
