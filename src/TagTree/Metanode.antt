-- ===== src/TagTree/Metanode.antt =====
-- `tag_tree_metanode_create` of src/tagtree.c, as `tag_tree_lookup` calls it.
use plcstub.Base.{
  ℕ, ◌%◌, ◌<◌, ◌≡◌, refl, sym, ◌∙◌, true, false, none, some, List, [], ◌∷◌, map, arith, pos, length,
  is_some, ==-refl,
}
use plcstub.Types.{
  word, array, u16, size_mod, sizeof_array, type_new_simple, type_new_array, new_array, type_dup,
}
use plcstub.Outcome.{done}
use plcstub.Bytes.{Bytes}
use plcstub.Env.Rb.{Ptr, Entry, entry, RbTree, tagcmp, put_in_order}
use plcstub.Env.Heap.{Node, Heap, get, put, get-put}
use plcstub.Env.Libc.{Libc}
use plcstub.TagTree.State.{State, writer, deref, write, rw_wrlock, rw_unlock}
use plcstub.TagTree.Metatag.{total_size, write_entries}
use plcstub.TagTree.Ops.{
  metatag_id, meta_name, sizeof_node, deref_all, rb_insert, rb_find, tag_tree_metanode_create,
  tag_tree_lookup, drop_metatag,
}
use plcstub.TagTree.Lookup.{IsReady, init_ready, with_rw}
use plcstub.TagTree.Order.{find_id, Above, Live, rb_find-find_id}
use plcstub.TagTree.Sound.{IsSound, Avoids-fresh, Live-elsewhere}
use plcstub.TagTree.Create.Drop.{drop_absent}
use plcstub.TagTree.Listing.{listing, AreShort, total_size-listing, write_entries-listing}
use plcstub.TagTree.Readback.{row, read_rows, read_rows-listing}

-- The nodes of the entries that have one.
unfoldable pub nodes_at : Heap → List Entry → List Node
nodes_at h [] = []
nodes_at h (x ∷ xs) = elim (get x.node h) [ none ↦ nodes_at h xs | some n ↦ n ∷ nodes_at h xs ]

deref_all-Live :
    {T : Type 0} (s : State T) (xs : List Entry)
    → Live s.heap xs
    → deref_all xs s ≡ done (nodes_at s.heap xs, s)
unfolding deref_all deref nodes_at
deref_all-Live s [] l = refl
deref_all-Live s (x ∷ xs) ((n, at, i), l) = ground (arith, deref_all-Live s xs l)

-- The IDs of tags other than the metatag lie above its own.
Above-metatag :
    (xs : List Entry) → Above (pos 0) xs → find_id metatag_id xs ≡ none → Above metatag_id xs
unfolding find_id
Above-metatag [] a f = tt
Above-metatag (x ∷ xs) a f = (ground arith, a.1)

-- So the metatag comes first.
metatag_first :
    (p : Ptr) (xs : List Entry)
    → Above metatag_id xs
    → put_in_order tagcmp (entry metatag_id p) xs ≡ entry metatag_id p ∷ xs
unfolding tagcmp
metatag_first p [] a = refl
metatag_first p (x ∷ xs) a = ground arith

-- The tree with a metatag, whose contents are `d`.
module _ {T : Type 0} (rb : RbTree T) (libc : Libc) (s : State T) (p : Ptr) (sound : IsSound rb s)
    (no_metatag : find_id metatag_id (rb.elements s.tree) ≡ none) (d : Bytes) where
  -- The node of the metatag.
  abbrev pub metanode : Node
  metanode = record {
    tag_id = metatag_id;
    name = meta_name;
    cb = none;
    locked = false;
    type = array (length d % u16) (word 2);
    contents = d;
  }

  abbrev pub with_metanode : State T
  with_metanode = record s {
    heap = put p metanode s.heap;
    tree = rb.insert s.tree (entry metatag_id p);
  }

  module _ (alloc : libc.malloc s.heap sizeof_node ≡ some p) where
    pub elements-metanode : rb.elements with_metanode.tree ≡ entry metatag_id p ∷ rb.elements s.tree
    elements-metanode =
        rb.elements-insert s.tree (entry metatag_id p)
        ∙ metatag_first p (rb.elements s.tree)
            (Above-metatag (rb.elements s.tree) sound.ordered no_metatag)

    pub sound_metanode : IsSound rb with_metanode
    sound_metanode =
        let (ne, fresh) = libc.malloc-fresh s.heap sizeof_node p alloc in
        let apart = Avoids-fresh s.heap p (rb.elements s.tree) sound.live fresh in
        record {
          ordered =
              rw elements-metanode
                (ground arith, Above-metatag (rb.elements s.tree) sound.ordered no_metatag);
          nonnull = rw elements-metanode (ne, sound.nonnull);
          live = rw elements-metanode (
            (metanode, get-put p p metanode s.heap ∙ ground (arith, ==-refl p), refl),
            Live-elsewhere s.heap (put p metanode s.heap) p (rb.elements s.tree) apart
                (λ q ne'. ground (arith, get-put p q metanode s.heap)) sound.live,
          );
        }

-- The metatag is made once the old one, if there is one, is gone.
module _ {T : Type 0} (rb : RbTree T) (libc : Libc) (s s₂ : State T) (p : Ptr)
    (sound : IsSound rb s) (sound₂ : IsSound rb s₂)
    (no_metatag : find_id metatag_id (rb.elements s₂.tree) ≡ none) where
  abbrev total : ℕ
  total = length (listing (nodes_at s.heap (rb.elements s.tree)))

  pub metanode_create :
      (d : Bytes)
      → drop_metatag rb s ≡ done (tt, s₂)
      → write_entries 0 (nodes_at s₂.heap (rb.elements s₂.tree)) (libc.garbage s₂.heap total)
        ≡ done d
      → length d ≡ total
      → libc.malloc s₂.heap sizeof_node ≡ some p
      → libc.mutex_init p ≡ true
      → is_some (libc.malloc s₂.heap sizeof_array) ≡ true
      → is_some (libc.malloc s₂.heap total) ≡ true
      → AreShort (nodes_at s.heap (rb.elements s.tree))
      → total < size_mod
      → tag_tree_metanode_create rb libc s
        ≡ done (p, with_metanode rb libc s₂ p sound₂ no_metatag d)
  unfolding tag_tree_metanode_create rb_insert write type_new_simple type_new_array new_array
      type_dup
  metanode_create d dropped filled same alloc mutex room room' short small =
      let size : total_size 0 (nodes_at s.heap (rb.elements s.tree)) ≡ total =
        total_size-listing 0 (nodes_at s.heap (rb.elements s.tree)) short (omega arith)
        ∙ omega arith in
      rw (
        deref_all-Live s (rb.elements s.tree) sound.live,
        size,
        dropped,
        alloc,
        mutex,
        room,
        room',
        deref_all-Live s₂ (rb.elements s₂.tree) sound₂.live,
        filled,
        same,
      )

module _ {T : Type 0} (rb : RbTree T) (libc : Libc) (s : State T) (p : Ptr) (ready : IsReady s)
    (sound : IsSound rb s) (no_metatag : find_id metatag_id (rb.elements s.tree) ≡ none) where
  abbrev others : List Node
  others = nodes_at s.heap (rb.elements s.tree)

  abbrev with_listing : State T
  with_listing = with_metanode rb libc s p sound no_metatag (listing others)

  sound_writer : IsSound rb (with_rw ready writer)
  sound_writer = record { ordered = sound.ordered; nonnull = sound.nonnull; live = sound.live }

  -- The lookup, as an equation.
  pub lookup_makes :
      libc.malloc s.heap sizeof_node ≡ some p
      → libc.mutex_init p ≡ true
      → is_some (libc.malloc s.heap sizeof_array) ≡ true
      → is_some (libc.malloc s.heap (length (listing others))) ≡ true
      → AreShort others
      → length (listing others) < size_mod
      → tag_tree_lookup rb libc metatag_id s ≡ done (some p, with_listing)
  unfolding tag_tree_lookup rb_find rw_wrlock rw_unlock
  lookup_makes alloc mutex room room' short small =
      let made =
        metanode_create rb libc (with_rw ready writer) (with_rw ready writer) p sound_writer
          sound_writer no_metatag (listing others)
          (drop_absent rb (with_rw ready writer) sound_writer no_metatag)
          (write_entries-listing others (libc.garbage s.heap (length (listing others)))
            (libc.length-garbage s.heap (length (listing others))))
          refl alloc mutex room room' short small in
      let missing : rb.find s.tree (entry metatag_id 0) ≡ none =
        rb_find-find_id rb s.tree metatag_id 0 ∙ no_metatag in
      rw (init_ready ready rb libc) (ground (arith, ready.unlocked, made))
      ∙ (λ i. done (some p, record with_listing { tag_tree_mtx = sym ready.unlocked i }))

  -- On a started library with a sound tree that has no metatag, where the allocations succeed, no
  -- name is longer than 16 bits can say and the listing is shorter than 2^64 bytes: a lookup of the
  -- metatag's ID makes a node and returns its address. A reader of the node's buffer finds there the
  -- ID, the size modulo 2^16, the first dimension modulo 2^32 and the name of every tag, in the order
  -- of the tree. The node's type is an array of SINTs of the buffer's length modulo 2^16. The metatag
  -- comes first in the tree, which is sound again, with the other entries behind it.
  pub tag_tree_lookup-metatag :
      libc.malloc s.heap sizeof_node ≡ some p
      → libc.mutex_init p ≡ true
      → is_some (libc.malloc s.heap sizeof_array) ≡ true
      → is_some (libc.malloc s.heap (length (listing others))) ≡ true
      → AreShort others
      → length (listing others) < size_mod
      → (s' : State T) × (m : Node) × (tag_tree_lookup rb libc metatag_id s ≡ done (some p, s'))
        × (get p s'.heap ≡ some m)
        × (read_rows (length others) m.contents ≡ map row others)
        × (m.type ≡ array (length m.contents % u16) (word 2))
        × (rb.elements s'.tree ≡ entry metatag_id p ∷ rb.elements s.tree)
        × IsSound rb s'
        × IsReady s'
  tag_tree_lookup-metatag alloc mutex room room' short small = (
    with_listing,
    metanode rb libc s p sound no_metatag (listing others),
    lookup_makes alloc mutex room room' short small,
    get-put p p (metanode rb libc s p sound no_metatag (listing others)) s.heap
        ∙ ground (arith, ==-refl p),
    read_rows-listing (length others) others short (omega arith),
    refl,
    elements-metanode rb libc s p sound no_metatag (listing others) alloc,
    sound_metanode rb libc s p sound no_metatag (listing others) alloc,
    record { inited = ready.inited; unlocked = ready.unlocked },
  )
