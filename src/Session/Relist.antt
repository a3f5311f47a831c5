-- ===== src/Session/Relist.antt =====
-- `tag_tree_insert` of src/tagtree.c with the name "@tags": the metatag is made again.
use plcstub.Base.{
  ◌%◌, ◌≤◌, ◌≡◌, refl, ap, ◌∙◌, none, some, Bool-cases, inl, inr, List, [], ◌∷◌, ◌++◌, map, arith,
  ℤ, ◌==ℤ◌, length, length-append, drop,
}
use plcstub.Types.{TypeT, word, array, u16, sizeof_array}
use plcstub.Bytes.{Bytes}
use plcstub.Outcome.{done}
use plcstub.Env.Rb.{Ptr, RbTree}
use plcstub.Env.Heap.{Node, get}
use plcstub.Env.Libc.{Libc}
use plcstub.TagTree.State.{State, writer, deref, rw_wrlock, rw_unlock}
use plcstub.TagTree.Ops.{
  metatag_id, meta_name, sizeof_node, tag_tree_metanode_create, tag_tree_insert,
}
use plcstub.TagTree.Metatag.{meta_entry}
use plcstub.TagTree.Lookup.{init_ready, with_rw}
use plcstub.TagTree.Sound.{IsSound}
use plcstub.TagTree.Order.{find_id}
use plcstub.TagTree.Listing.{listing, write_entries-prefix, length-overwritten}
use plcstub.TagTree.Readback.{row, read_rows, read_rows-prefix}
use plcstub.TagTree.Create.Drop.{MetatagFree, IsWithout, drop_metatag_lem}
use plcstub.TagTree.Metanode.{nodes_at, with_metanode, metanode, metanode_create}
use plcstub.TagTree.Startup.Scalar.{IsGenerous}
use plcstub.Session.Spec.{drop_tag}
use plcstub.Session.Listed.{at-with_metanode, nodes-with_metanode, IsInvariant-with_metanode}
use plcstub.Session.Change.{nodes_without, IsInvariant-without}
use plcstub.Session.Invariant.{IsInvariant, AreShort-drop, listing-fits}

listing-drop : (i : ℤ) (ns : List Node) → length (listing (drop_tag i ns)) ≤ length (listing ns)
unfolding drop_tag listing
listing-drop i [] = omega arith
listing-drop i (n ∷ ns) =
    let e = length-append (meta_entry n) (listing ns) in
    let e' = length-append (meta_entry n) (listing (drop_tag i ns)) in
    elim (Bool-cases (i ==ℤ n.tag_id)) [
      | inl hit ↦ rw hit (omega (arith, listing-drop i ns))
      | inr miss ↦ rw miss (omega (arith, listing-drop i ns))
    ]

module _ {T : Type 0} (rb : RbTree T) (libc : Libc) (generous : IsGenerous libc) (s : State T)
    (inv : IsInvariant rb s) where
  abbrev ns : List Node
  ns = nodes_at s.heap (rb.elements s.tree)

  abbrev others : List Node
  others = drop_tag metatag_id ns

  sound_writer : IsSound rb (with_rw inv.ready writer)
  sound_writer = record {
    ordered = inv.sound.ordered;
    nonnull = inv.sound.nonnull;
    live = inv.sound.live;
  }

  -- The state after the old metatag is gone, with the tree unlocked again.
  IsWithout-old :
      (s₂ : State T)
      → IsWithout rb metatag_id (with_rw inv.ready writer) s₂
      → IsWithout rb metatag_id s (record s₂ { tag_tree_mtx = s.tag_tree_mtx })
  IsWithout-old s₂ o = record {
    sound = record { ordered = o.sound.ordered; nonnull = o.sound.nonnull; live = o.sound.live };
    finds = o.finds;
    keeps = o.keeps;
    inited = o.inited;
    rwlock = refl;
    events = o.events;
    size = o.size;
  }

  insert_runs :
      (type : TypeT) (s₁ : State T) (p : Ptr) (m : Node)
      → tag_tree_metanode_create rb libc (with_rw inv.ready writer) ≡ done (p, s₁)
      → get p s₁.heap ≡ some m
      → m.tag_id ≡ metatag_id
      → s₁.tag_tree_mtx ≡ writer
      → tag_tree_insert rb libc meta_name type s
        ≡ done (metatag_id, record s₁ { tag_tree_mtx = s.tag_tree_mtx })
  unfolding tag_tree_insert deref rw_wrlock rw_unlock
  insert_runs type s₁ p m made at named held =
      rw (init_ready inv.ready rb libc) (ground (arith, inv.ready.unlocked, made, at, held, named))

  -- On a started library and between its calls, where no allocation fails, no tag has a name of
  -- 2^16 bytes or more, and nobody holds the mutex of the metatag, if there is one:
  -- `tag_tree_insert` of the name "@tags" returns 1. Then the metatag is the first tag, with the ID
  -- 1, as an array of SINTs of its buffer's length modulo 2^16, and the other tags are as they
  -- were. A reader who knows their number finds in the buffer the entry of each. The buffer is as
  -- long as a listing of the tags before the call, among which the old metatag may be, which the
  -- new listing does not have.
  pub tag_tree_insert-metatag :
      (type : TypeT)
      → MetatagFree rb s inv.sound
      → (s' : State T) × (m : Node) × (tag_tree_insert rb libc meta_name type s
          ≡ done (metatag_id, s'))
        × (nodes_at s'.heap (rb.elements s'.tree) ≡ m ∷ others)
        × (m.tag_id ≡ metatag_id)
        × (m.type ≡ array (length m.contents % u16) (word 2))
        × (length m.contents ≡ length (listing ns))
        × (read_rows (length others) m.contents ≡ map row others)
        × IsInvariant rb s'
  tag_tree_insert-metatag type metafree =
      let (s₂, dropped, o₂) =
        drop_metatag_lem rb (with_rw inv.ready writer) sound_writer metafree in
      let o = IsWithout-old s₂ o₂ in
      let s₃ : State T = record s₂ { tag_tree_mtx = s.tag_tree_mtx } in
      let inv₃ = IsInvariant-without rb s s₃ inv metatag_id o in
      let left : nodes_at s₂.heap (rb.elements s₂.tree) ≡ others =
        nodes_without rb s s₃ inv metatag_id o in
      let absent : find_id metatag_id (rb.elements s₂.tree) ≡ none = o.finds metatag_id in
      let (p, alloc) = generous.gives s₂.heap sizeof_node in
      let junk : Bytes = libc.garbage s₂.heap (length (listing ns)) in
      let fits : length (listing others) ≤ length junk =
        omega
          (arith, listing-drop metatag_id ns, libc.length-garbage s₂.heap (length (listing ns))) in
      let d : Bytes = listing others ++ drop (length (listing others)) junk in
      let long : length d ≡ length (listing ns) =
        length-overwritten (listing others) junk fits
        ∙ libc.length-garbage s₂.heap (length (listing ns)) in
      let (_, room) = generous.gives s₂.heap sizeof_array in
      let (_, room') = generous.gives s₂.heap (length (listing ns)) in
      let made =
        metanode_create rb libc (with_rw inv.ready writer) s₂ p sound_writer o₂.sound absent d
          dropped (rw left (write_entries-prefix others junk fits)) long alloc (generous.mutex p)
          (rw room) (rw room') inv.short (listing-fits rb s inv) in
      let m : Node = metanode rb libc s₃ p inv₃.sound absent d in
      (
        with_metanode rb libc s₃ p inv₃.sound absent d,
        m,
        insert_runs type (with_metanode rb libc s₂ p o₂.sound absent d) p m made
            (at-with_metanode rb libc s₃ inv₃ absent p alloc d) refl o₂.rwlock,
        nodes-with_metanode rb libc s₃ inv₃ absent p alloc d ∙ ap (λ l. m ∷ l) left,
        refl,
        refl,
        long,
        read_rows-prefix others (drop (length (listing others)) junk)
            (AreShort-drop metatag_id ns inv.short),
        IsInvariant-with_metanode rb libc s₃ inv₃ absent p alloc d,
      )
