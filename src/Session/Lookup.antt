-- ===== src/Session/Lookup.antt =====
-- What `tag_tree_lookup` does between the calls of a session: it finds a tag or not, and makes the
-- metatag when there is none.
use plcstub.Base.{
  ◌≡◌, refl, sym, ap, ◌∙◌, none, some, Option-cases, Bool-cases, inl, inr, List, arith, ℤ, ◌==ℤ◌,
  eq_of_==ℤ, length,
}
use plcstub.Types.{sizeof_array}
use plcstub.Outcome.{done}
use plcstub.Env.Rb.{Entry, entry, RbTree}
use plcstub.Env.Heap.{Node, get}
use plcstub.Bytes.{Bytes}
use plcstub.Env.Libc.{Libc}
use plcstub.TagTree.State.{State}
use plcstub.TagTree.Ops.{metatag_id, sizeof_node, tag_tree_lookup}
use plcstub.TagTree.Lookup.{lookup_found, lookup_missing}
use plcstub.TagTree.Order.{find_id, rb_find-find_id, Owns-find_id}
use plcstub.TagTree.Listing.{listing}
use plcstub.TagTree.Metanode.{nodes_at, with_metanode, metanode, lookup_makes, elements-metanode}
use plcstub.TagTree.Startup.Scalar.{IsGenerous}
use plcstub.Session.Spec.{find_tag, listed, metatag_of}
use plcstub.Session.Listed.{at-with_metanode, nodes-with_metanode, IsInvariant-with_metanode}
use plcstub.Session.View.{find_tag-some, find_tag-none}
use plcstub.Session.Invariant.{IsInvariant, listing-fits}

-- The two ways a lookup ends, for the tags and for the specification's list.
pub data Looked {T : Type 0} (rb : RbTree T) (libc : Libc) (s : State T) (id : ℤ) : Type 0 where
  missing :
      tag_tree_lookup rb libc id s ≡ done (none, s)
      → listed id (nodes_at s.heap (rb.elements s.tree)) ≡ nodes_at s.heap (rb.elements s.tree)
      → find_tag id (nodes_at s.heap (rb.elements s.tree)) ≡ none
      → Looked rb libc s id
  present :
      (s₁ : State T) (e : Entry) (n : Node)
      → tag_tree_lookup rb libc id s ≡ done (some e.node, s₁)
      → IsInvariant rb s₁
      → find_id id (rb.elements s₁.tree) ≡ some e
      → get e.node s₁.heap ≡ some n
      → listed id (nodes_at s.heap (rb.elements s.tree)) ≡ nodes_at s₁.heap (rb.elements s₁.tree)
      → s.events ≡ s₁.events
      → Looked rb libc s id

module _ {T : Type 0} (rb : RbTree T) (libc : Libc) (generous : IsGenerous libc) (s : State T)
    (inv : IsInvariant rb s) where
  abbrev xs : List Entry
  xs = rb.elements s.tree

  -- The metatag is made.
  module _ (absent : find_id metatag_id (rb.elements s.tree) ≡ none) where
    Looked-new : Looked rb libc s metatag_id
    unfolding listed find_id metatag_of
    Looked-new =
        let (p, alloc) = generous.gives s.heap sizeof_node in
        let (_, room) = generous.gives s.heap sizeof_array in
        let (_, room') = generous.gives s.heap (length (listing (nodes_at s.heap xs))) in
        let d : Bytes = listing (nodes_at s.heap xs) in
        let made =
          lookup_makes rb libc s p inv.ready inv.sound absent alloc (generous.mutex p) (rw room)
            (rw room') inv.short (listing-fits rb s inv) in
        let nodes = nodes-with_metanode rb libc s inv absent p alloc d in
        present (with_metanode rb libc s p inv.sound absent d) (entry metatag_id p)
          (metanode rb libc s p inv.sound absent d) made
          (IsInvariant-with_metanode rb libc s inv absent p alloc d)
          (ap (find_id metatag_id) (elements-metanode rb libc s p inv.sound absent d alloc))
          (at-with_metanode rb libc s inv absent p alloc d)
          (rw (find_tag-none s.heap metatag_id xs inv.sound.live absent) (sym nodes)) refl

  pub looked : (id : ℤ) → Looked rb libc s id
  unfolding listed
  looked id = elim (Option-cases (find_id id xs)) [
    | inr (e, f) ↦
        let (n, at, named) = Owns-find_id s.heap id xs e inv.sound.live f in
        let there = find_tag-some s.heap id xs e n inv.sound.live f at in
        present s e n (lookup_found inv.ready rb libc id e (rb_find-find_id rb s.tree id 0 ∙ f)) inv
          f at (ground (arith, there)) refl
    | inl f ↦ elim (Bool-cases (id ==ℤ metatag_id)) [
      | inr other ↦
          missing (lookup_missing inv.ready rb libc id other (rb_find-find_id rb s.tree id 0 ∙ f))
            (rw other) (find_tag-none s.heap id xs inv.sound.live f)
      | inl meta ↦
          rw (eq_of_==ℤ id metatag_id meta)
            (Looked-new (ap (λ i. find_id i xs) (sym (eq_of_==ℤ id metatag_id meta)) ∙ f))
    ]
  ]
