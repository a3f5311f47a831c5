-- ===== src/Session/Change.antt =====
-- Creating and destroying tags, against the specification.
use plcstub.Base.{◌^◌, ◌≡◌, sym, ap, ◌∙◌, Option-cases, Bool-cases, inl, inr, ℤ, pos, ◌==ℤ◌}
use plcstub.Outcome.{Outcome}
use plcstub.Env.Rb.{RbTree}
use plcstub.Env.Libc.{Libc}
use plcstub.Status.{status_ok, err_not_found}
use plcstub.TagTree.State.{State, pure, bind_outcome}
use plcstub.TagTree.Ops.{metatag_id, tag_tree_remove}
use plcstub.TagTree.Order.{find_id, rb_find-find_id, Owns-find_id}
use plcstub.TagTree.Same.{find_id-ext}
use plcstub.TagTree.Create.Drop.{IsWithout}
use plcstub.TagTree.Remove.{tag_tree_remove-IsWithout}
use plcstub.TagTree.Metanode.{nodes_at}
use plcstub.Api.Locking.{remove_blocked}
use plcstub.Api.Unknown.{remove_missing}
use plcstub.Session.{Result, int}
use plcstub.Session.Spec.{drop_tag, remove_tag}
use plcstub.TagTree.Nodes.{nodes-ext}
use plcstub.Session.View.{
  view, find_tag-some, find_tag-none, omit, find_id-omit, Above-omit, nodes-omit, Below-omit,
}
use plcstub.Session.Invariant.{IsInvariant, AreShort-drop}
use plcstub.Session.Lift.{Agrees, returns_in, blocks_too}

-- Without a tag.
module _ {T : Type 0} (rb : RbTree T) (s s' : State T) (inv : IsInvariant rb s) (i : ℤ)
    (o : IsWithout rb i s s') where
  elements_omit : rb.elements s'.tree ≡ omit i (rb.elements s.tree)
  elements_omit =
      find_id-ext (pos 0) (rb.elements s'.tree) (omit i (rb.elements s.tree)) o.sound.ordered
        (Above-omit (pos 0) i (rb.elements s.tree) inv.sound.ordered)
        λ j. o.finds j ∙ sym (find_id-omit i j (rb.elements s.tree))

  pub nodes_without :
      nodes_at s'.heap (rb.elements s'.tree) ≡ drop_tag i (nodes_at s.heap (rb.elements s.tree))
  nodes_without =
      nodes-ext (pos 0) s'.heap s.heap (rb.elements s'.tree) o.sound.ordered o.keeps
      ∙ ap (nodes_at s.heap) elements_omit
      ∙ nodes-omit s.heap i (rb.elements s.tree) inv.sound.live

  pub IsInvariant-without : IsInvariant rb s'
  IsInvariant-without = record {
    ready = record {
      inited = o.inited ∙ inv.ready.inited;
      unlocked = o.rwlock ∙ inv.ready.unlocked;
    };
    sound = o.sound;
    ints = rw elements_omit (Below-omit (pos (2 ^ 31)) i (rb.elements s.tree) inv.ints);
    short = rw nodes_without (AreShort-drop i (nodes_at s.heap (rb.elements s.tree)) inv.short);
  }

module _ {T : Type 0} (rb : RbTree T) (libc : Libc) (s : State T) (inv : IsInvariant rb s) where
  abbrev returning : Outcome (ℤ × State T) → Outcome (Result × State T)
  returning o = bind_outcome o (λ r. pure (int r))

  pub remove-Agrees :
      (id : ℤ) → Agrees rb (returning (tag_tree_remove rb libc id s)) (remove_tag id (view rb s))
  unfolding remove_tag
  remove-Agrees id = elim (Bool-cases (id ==ℤ metatag_id)) [
    | inl meta ↦ returns_in (int status_ok) s (unfold tag_tree_remove in rw meta) (rw meta) inv
    | inr other ↦ elim (Option-cases (find_id id (rb.elements s.tree))) [
      | inl f ↦
          returns_in (int err_not_found) s
            (rw (remove_missing rb libc inv.ready id other (rb_find-find_id rb s.tree id 0 ∙ f)))
            (rw (other, find_tag-none s.heap id (rb.elements s.tree) inv.sound.live f)) inv
      | inr (e, f) ↦
          let (n, at, named) = Owns-find_id s.heap id (rb.elements s.tree) e inv.sound.live f in
          let there = find_tag-some s.heap id (rb.elements s.tree) e n inv.sound.live f at in
          elim (Bool-cases n.locked) [
            | inl taken ↦
                blocks_too
                  (rw (
                    remove_blocked rb libc other inv.ready (rb_find-find_id rb s.tree id 0 ∙ f) at
                      taken))
                  (rw (other, there, taken))
            | inr free ↦
                let (s', gone, o, _, ready) =
                  tag_tree_remove-IsWithout rb libc id s inv.ready inv.sound e n other f at free in
                returns_in (int status_ok) s' (rw gone)
                  (rw (other, there, free, nodes_without rb s s' inv id o, o.events))
                  (IsInvariant-without rb s s' inv id o)
          ]
    ]
  ]
