-- ===== src/Api/Lifetime.antt =====
-- The life of a tag in src/plcstub.c: `plc_tag_create`, accesses to the new tag, `plc_tag_destroy`.
use plcstub.Base.{
  ℕ, ◌+◌, ◌^◌, ◌≤◌, ◌<◌, ◌≡◌, refl, sym, ap, ◌∙◌, true, false, none, some, List, arith, ℤ, pos,
  ◌==ℤ◌, eq_of_==ℤ, is_some, length, replicate, length-replicate, eq_bytes,
}
use plcstub.Bytes.{Bytes}
use plcstub.Types.{type_to_enum}
use plcstub.Outcome.{done}
use plcstub.Env.Rb.{Ptr, entry, RbTree}
use plcstub.Env.Heap.{Node}
use plcstub.Env.Libc.{Libc}
use plcstub.Status.{status_ok}
use plcstub.TagTree.State.{State}
use plcstub.TagTree.Ops.{metatag_id, meta_name, next_id, alloc_node}
use plcstub.TagTree.Lookup.{IsReady}
use plcstub.TagTree.Order.{find_id, rb_find-find_id}
use plcstub.TagTree.Same.{find_id-Below, find_id-ext, tags, tags-ext}
use plcstub.TagTree.Sound.{IsSound}
use plcstub.TagTree.Create.Drop.{IsWithout, MetatagFree}
use plcstub.TagTree.Create.Fresh.{IsWith, next_id-Below}
use plcstub.TagTree.Remove.{tag_tree_remove-IsWithout}
use plcstub.Api.Access.{Accessor, width, plc_tag_get, plc_tag_set}
use plcstub.Api.RoundTrip.{IsTag, Fits, get-set}
use plcstub.Api.Attrib.Laws.{join, AreAttributes, last_name}
use plcstub.Api.Calls.{plc_tag_create, plc_tag_destroy}
use plcstub.Api.Create.{lint, plc_tag_create-join}

pub width-bound : (a : Accessor) → 0 + width a ≤ 8
width-bound a = ground arith

-- Every accessor fits the buffer of a LINT, at the offset 0.
Fits-lint :
    (a : Accessor) (n : Node)
    → n.type ≡ lint
    → n.contents ≡ replicate 8 0x42
    → Fits n (width a) (pos 0) 0
unfolding type_to_enum
Fits-lint a n t c = record {
  resolved = rw t refl;
  inside = rw (c, length-replicate {A = ℕ} 8 0x42) (width-bound a);
}

module _ {T : Type 0} (rb : RbTree T) (libc : Libc) (timeout : ℤ) (s : State T)
    (kvs : List (Bytes × Bytes)) (name : Bytes) (id : ℤ) (p : Ptr) (n : Node) (ready : IsReady s)
    (sound : IsSound rb s) where
  IsTag-IsWith :
      (s' : State T)
      → IsWith rb id p n s s'
      → IsReady s'
      → n.locked ≡ false
      → IsTag rb s' id (entry id p) n
  IsTag-IsWith s' w r free = record {
    ready = r;
    found = rb_find-find_id rb s'.tree id 0 ∙ (w.finds id ∙ ground arith);
    at = w.at;
    free = free;
  }

  -- On a started library with a sound tree whose metatag is not locked, where the allocations succeed
  -- and an ID is left, and for attributes whose last `name` is not "@tags": a value that fits in the
  -- accessor and is set with it on the tag that `plc_tag_create` made, at the offset 0, is what an
  -- accessor of the same size gets there. All three calls return.
  pub create-set-get :
      (fb : ℕ → ℤ → ℕ) (a b : Accessor) (v : ℕ)
      → MetatagFree rb s sound
      → AreAttributes kvs
      → last_name kvs none ≡ some name
      → eq_bytes name meta_name ≡ false
      → is_some (libc.malloc s.heap (length (join kvs) + 1)) ≡ true
      → next_id (rb.maximum s.tree) ≡ done id
      → alloc_node libc s.heap name lint id ≡ done (p, n)
      → v < 256 ^ width a
      → width b ≡ width a
      → (s₁ : State T) × (s₂ : State T) × (s₃ : State T) × (plc_tag_create rb libc
            (join kvs)
            timeout
            s
          ≡ done (id, s₁))
        × (plc_tag_set rb libc a id (pos 0) v s₁ ≡ done (status_ok, s₂))
        × (plc_tag_get rb libc fb b id (pos 0) s₂ ≡ done (v, s₃))
  create-set-get fb a b v metafree are last plain room next alloc small same =
      let (s₁, made, w, r, _, t, c, free, _) =
        plc_tag_create-join rb libc timeout s kvs name id p n ready sound metafree are last plain
          room next alloc in
      let (s₂, s₃, set, got) =
        get-set rb libc fb a b (pos 0) v (IsTag-IsWith s₁ w r free) (Fits-lint a n t c) small
          same in
      (s₁, s₂, s₃, made, set, got)

  fresh_id : next_id (rb.maximum s.tree) ≡ done id → find_id id (rb.elements s.tree) ≡ none
  fresh_id next =
      find_id-Below id (rb.elements s.tree)
        (next_id-Below (rb.elements s.tree) id sound.ordered
          (ap next_id (sym (rb.maximum_lem s.tree)) ∙ next)).0

  module _ (no_metatag : find_id metatag_id (rb.elements s.tree) ≡ none) where
    MetatagFree-none : MetatagFree rb s sound
    MetatagFree-none e m f at = absurd (ground arith)

    -- A tree with the new tag and then without it is the tree as it was.
    elements_back :
        (s₁ s₂ : State T)
        → IsWith rb id p n s s₁
        → IsWithout rb id s₁ s₂
        → next_id (rb.maximum s.tree) ≡ done id
        → rb.elements s₂.tree ≡ rb.elements s.tree
    elements_back s₁ s₂ w o next =
        find_id-ext (pos 0) (rb.elements s₂.tree) (rb.elements s.tree) o.sound.ordered sound.ordered
          λ j. ground (
            arith,
            o.finds j,
            w.finds j,
            no_metatag,
            fresh_id next,
            eq_of_==ℤ j id,
            eq_of_==ℤ j metatag_id,
          )

    tags_back :
        (s₁ s₂ : State T)
        → IsWith rb id p n s s₁
        → IsWithout rb id s₁ s₂
        → next_id (rb.maximum s.tree) ≡ done id
        → tags s₂.heap (rb.elements s.tree) ≡ tags s.heap (rb.elements s.tree)
    tags_back s₁ s₂ w o next =
        tags-ext (pos 0) s₂.heap s.heap (rb.elements s.tree) sound.ordered λ j e f.
          let back = elements_back s₁ s₂ w o next in
          let f₂ : find_id j (rb.elements s₂.tree) ≡ some e = rw back f in
          let other : (j ==ℤ id) ≡ false = ground (arith, o.finds j) in
          let f₁ : find_id j (rb.elements s₁.tree) ≡ some e = ground (arith, o.finds j) in
          o.keeps j e f₂ ∙ w.keeps j e f₁ other

    -- On a started library with a sound tree without the metatag, where the allocations succeed and
    -- an ID is left, and for attributes whose last `name` is not "@tags": to create a tag and to
    -- destroy it leaves the tags as they were, each with its node. Both calls return, and the tree is
    -- sound again. The next tag gets the same ID, so that a handle is used twice.
    pub destroy-create :
        AreAttributes kvs
        → last_name kvs none ≡ some name
        → eq_bytes name meta_name ≡ false
        → is_some (libc.malloc s.heap (length (join kvs) + 1)) ≡ true
        → next_id (rb.maximum s.tree) ≡ done id
        → alloc_node libc s.heap name lint id ≡ done (p, n)
        → (s₁ : State T) × (s₂ : State T) × (plc_tag_create rb libc (join kvs) timeout s
            ≡ done (id, s₁))
          × (plc_tag_destroy rb libc id s₁ ≡ done (status_ok, s₂))
          × (tags s₂.heap (rb.elements s₂.tree) ≡ tags s.heap (rb.elements s.tree))
          × IsSound rb s₂
          × IsReady s₂
          × (next_id (rb.maximum s₂.tree) ≡ done id)
    unfolding plc_tag_destroy
    destroy-create are last plain room next alloc =
        let (s₁, made, w, r, _, t, c, free, _) =
          plc_tag_create-join rb libc timeout s kvs name id p n ready sound MetatagFree-none are
            last plain room next alloc in
        let (below, high) =
          next_id-Below (rb.elements s.tree) id sound.ordered
            (ap next_id (sym (rb.maximum_lem s.tree)) ∙ next) in
        let (s₂, gone, o, _, r₂) =
          tag_tree_remove-IsWithout rb libc id s₁ r w.sound (entry id p) n (ground arith)
            (w.finds id ∙ ground arith) w.at free in
        let back = elements_back s₁ s₂ w o next in
        (
          s₁,
          s₂,
          made,
          gone,
          rw back (tags_back s₁ s₂ w o next),
          o.sound,
          r₂,
          rw (rb.maximum_lem s₂.tree, back, ← rb.maximum_lem s.tree) next,
        )
