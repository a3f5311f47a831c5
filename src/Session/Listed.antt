-- ===== src/Session/Listed.antt =====
-- The tags once the metatag has been made, between the calls of a session.
use plcstub.Base.{◌≡◌, ap, ◌∙◌, none, some, List, ◌∷◌, arith, pos, ==-refl}
use plcstub.Bytes.{Bytes}
use plcstub.Env.Rb.{Ptr, Entry, entry, RbTree}
use plcstub.Env.Heap.{get, get-put}
use plcstub.Env.Libc.{Libc}
use plcstub.TagTree.State.{State}
use plcstub.TagTree.Ops.{metatag_id, sizeof_node}
use plcstub.TagTree.Order.{find_id}
use plcstub.TagTree.Sound.{Avoids-fresh, Avoids-find_id}
use plcstub.TagTree.Metanode.{nodes_at, with_metanode, metanode, elements-metanode, sound_metanode}
use plcstub.TagTree.Nodes.{nodes-cons, nodes-ext}
use plcstub.Session.Invariant.{IsInvariant}

module _ {T : Type 0} (rb : RbTree T) (libc : Libc) (s : State T) (inv : IsInvariant rb s)
    (absent : find_id metatag_id (rb.elements s.tree) ≡ none) (p : Ptr)
    (alloc : libc.malloc s.heap sizeof_node ≡ some p) (d : Bytes) where
  abbrev listed : State T
  listed = with_metanode rb libc s p inv.sound absent d

  pub at-with_metanode : get p listed.heap ≡ some (metanode rb libc s p inv.sound absent d)
  at-with_metanode =
      get-put p p (metanode rb libc s p inv.sound absent d) s.heap ∙ ground (arith, ==-refl p)

  pub nodes-with_metanode :
      nodes_at listed.heap (rb.elements listed.tree)
      ≡ metanode rb libc s p inv.sound absent d ∷ nodes_at s.heap (rb.elements s.tree)
  nodes-with_metanode =
      let xs : List Entry = rb.elements s.tree in
      let apart =
        Avoids-fresh s.heap p xs inv.sound.live (libc.malloc-fresh s.heap sizeof_node p alloc).1 in
      let same : nodes_at listed.heap xs ≡ nodes_at s.heap xs =
        nodes-ext (pos 0) listed.heap s.heap xs inv.sound.ordered λ j e f. ground (
          arith,
          get-put p e.node (metanode rb libc s p inv.sound absent d) s.heap,
          Avoids-find_id p j xs e apart f,
        ) in
      ap (nodes_at listed.heap) (elements-metanode rb libc s p inv.sound absent d alloc)
      ∙ nodes-cons listed.heap (entry metatag_id p) xs at-with_metanode
      ∙ ap (λ l. metanode rb libc s p inv.sound absent d ∷ l) same

  pub IsInvariant-with_metanode : IsInvariant rb listed
  IsInvariant-with_metanode = record {
    ready = record { inited = inv.ready.inited; unlocked = inv.ready.unlocked };
    sound = sound_metanode rb libc s p inv.sound absent d alloc;
    ints = rw (elements-metanode rb libc s p inv.sound absent d alloc) (omega arith, inv.ints);
    short = rw nodes-with_metanode (omega arith, inv.short);
  }
