-- ===== src/Session/Drift.antt =====
-- `tree_size` of src/tagtree.c against the tags in the tree.
use plcstub.Base.{
  ◌<◌, ◌≡◌, refl, sym, ap, ◌∙◌, false, none, some, List, [], ◌∷◌, ◌++◌, arith, ℤ, length, eq_bytes,
}
use plcstub.Types.{size_mod, sizeof_array, type_new_simple, tag_lint_code}
use plcstub.Bytes.{Bytes}
use plcstub.Outcome.{done}
use plcstub.Env.Rb.{Ptr, Entry, entry, RbTree, last_entry}
use plcstub.Env.Heap.{Node}
use plcstub.Env.Libc.{Libc}
use plcstub.TagTree.State.{State}
use plcstub.TagTree.Ops.{
  metatag_id, meta_name, sizeof_node, next_id, tag_tree_lookup, tag_tree_insert,
}
use plcstub.TagTree.Order.{find_id}
use plcstub.TagTree.Listing.{listing}
use plcstub.TagTree.Create.Insert.{tag_tree_insert-IsWith}
use plcstub.TagTree.Metanode.{nodes_at, with_metanode, metanode, elements-metanode, lookup_makes}
use plcstub.TagTree.Startup.Scalar.{IsGenerous, alloc_done}
use plcstub.Api.Create.{lint}
use plcstub.Session.Spec.{find_tag, drop_tag, new_tag}
use plcstub.Session.View.{find_tag-none}
use plcstub.Session.Listed.{at-with_metanode, nodes-with_metanode, IsInvariant-with_metanode}
use plcstub.Session.Add.{new_node, nodes_with}
use plcstub.Session.Invariant.{IsInvariant, listing-fits}

drop_tag-absent : (i : ℤ) (ns : List Node) → find_tag i ns ≡ none → drop_tag i ns ≡ ns
unfolding find_tag drop_tag
drop_tag-absent i [] e = refl
drop_tag-absent i (n ∷ ns) e = ground (arith, drop_tag-absent i ns)

-- The metatag does not count for the next ID.
next_id-metatag :
    (p : Ptr) (xs : List Entry)
    → next_id (last_entry (entry metatag_id p ∷ xs)) ≡ next_id (last_entry xs)
unfolding next_id
next_id-metatag p [] = ground arith
next_id-metatag p (x ∷ xs) = refl

module _ {T : Type 0} (rb : RbTree T) (libc : Libc) (generous : IsGenerous libc) (s : State T)
    (inv : IsInvariant rb s) where
  -- On a started library and between its calls, where no allocation fails, no tag has a name of
  -- 2^16 bytes or more and there is no metatag: a lookup of the metatag and then `tag_tree_insert`
  -- of a LINT, with a name other than "@tags" and with an ID left, leave `tree_size` as it was,
  -- though the tree has one tag more.
  pub tree_size_drifts :
      (name : Bytes) (id : ℤ)
      → find_id metatag_id (rb.elements s.tree) ≡ none
      → eq_bytes name meta_name ≡ false
      → next_id (rb.maximum s.tree) ≡ done id
      → s.tree_size < size_mod
      → (s₁ : State T) × (s₂ : State T) × (p : Ptr) × (tag_tree_lookup rb libc metatag_id s
          ≡ done (some p, s₁))
        × (tag_tree_insert rb libc name lint s₁ ≡ done (id, s₂))
        × (nodes_at s₂.heap (rb.elements s₂.tree)
            ≡ nodes_at s.heap (rb.elements s.tree) ++ new_tag name id ∷ [])
        × (s₂.tree_size ≡ s.tree_size)
  unfolding type_new_simple find_id drop_tag
  tree_size_drifts name id absent plain next small =
      let ns : List Node = nodes_at s.heap (rb.elements s.tree) in
      let d : Bytes = listing ns in
      let (p, alloc) = generous.gives s.heap sizeof_node in
      let (_, room) = generous.gives s.heap sizeof_array in
      let (_, room') = generous.gives s.heap (length d) in
      let s₁ : State T = with_metanode rb libc s p inv.sound absent d in
      let m : Node = metanode rb libc s p inv.sound absent d in
      let els = elements-metanode rb libc s p inv.sound absent d alloc in
      let inv₁ = IsInvariant-with_metanode rb libc s inv absent p alloc d in
      let at = at-with_metanode rb libc s inv absent p alloc d in
      let looked =
        lookup_makes rb libc s p inv.ready inv.sound absent alloc (generous.mutex p) (rw room)
          (rw room') inv.short (listing-fits rb s inv) in
      let next₁ : next_id (rb.maximum s₁.tree) ≡ done id =
        ap next_id (rb.maximum_lem s₁.tree ∙ ap last_entry els)
        ∙ next_id-metatag p (rb.elements s.tree)
        ∙ ap next_id (sym (rb.maximum_lem s.tree))
        ∙ next in
      let there : find_id metatag_id (rb.elements s₁.tree) ≡ some (entry metatag_id p) =
        ap (find_id metatag_id) els in
      let (q, n, made) = alloc_done libc generous s₁.heap name tag_lint_code id refl in
      let (s₂, inserts, w, _, f) =
        tag_tree_insert-IsWith rb libc name lint id q n s₁ inv₁.ready inv₁.sound plain
          (λ e k g at'. ground (arith, there, at)) next₁ made in
      (
        s₁,
        s₂,
        p,
        looked,
        inserts,
        nodes_with rb libc s₁ s₂ inv₁ name id q n next₁ w (new_node libc name id q n f)
            ∙ ap (λ l. drop_tag metatag_id l ++ new_tag name id ∷ [])
                (nodes-with_metanode rb libc s inv absent p alloc d)
            ∙ ap (λ l. l ++ new_tag name id ∷ [])
                (drop_tag-absent metatag_id ns
                  (find_tag-none s.heap metatag_id (rb.elements s.tree) inv.sound.live absent)),
        w.size ∙ rw there (omega arith),
      )
