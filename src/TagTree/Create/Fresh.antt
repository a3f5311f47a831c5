-- ===== src/TagTree/Create/Fresh.antt =====
-- `tag_tree_node_create` of src/tagtree.c: the new tag and what becomes of the others.
use plcstub.Base.{
  ◌≡◌, ◌≢◌, refl, ap, ◌∙◌, false, none, some, Option-cases, Bool-cases, List, [], ◌∷◌, ◌++◌, arith,
  ℤ, pos, ◌==ℤ◌, ◌<ℤ◌, suc_ℤ, eq_of_==ℤ, <ℤ-suc_ℤ, inl, inr, ◌==◌, ==-refl, if◌then◌else◌, is_some,
}
use plcstub.Outcome.{done}
use plcstub.Env.Rb.{Ptr, Entry, entry, RbTree, last_entry}
use plcstub.Env.Heap.{Node, get, put, get-put}
use plcstub.TagTree.State.{State}
use plcstub.TagTree.Ops.{metatag_id, decr_size, incr_size, next_id}
use plcstub.TagTree.Order.{
  find_id, Above, Below, Below-last_entry, put_in_order-Below, Above-append, find_id-append,
  last_entry-Above,
}
use plcstub.TagTree.Sound.{
  IsSound, Avoids-fresh, Avoids-append, Live-append, Live-elsewhere, Live-mono, Avoids-find_id,
}
use plcstub.TagTree.Create.Drop.{IsWithout, MetatagFree}

Below-none : (k : ℤ) (xs : List Entry) → last_entry xs ≡ none → Below k xs
Below-none k [] e = tt
Below-none k (x ∷ []) e = absurd (ground arith)
Below-none k (x ∷ y ∷ xs) e = (absurd (never y xs e), Below-none k (y ∷ xs) e)
  where
    never : (y : Entry) (xs : List Entry) → last_entry (y ∷ xs) ≡ none → ⊥
    never y [] e = ground arith
    never y (z ∷ xs) e = never z xs e

-- The new ID is above all others and above that of the metatag.
pub next_id-Below :
    (xs : List Entry) (id : ℤ)
    → Above (pos 0) xs
    → next_id (last_entry xs) ≡ done id
    → Below id xs × (metatag_id <ℤ id)
unfolding next_id
next_id-Below xs id a e = elim (Option-cases (last_entry xs)) [
  | inl no_entry ↦ let i : id ≡ pos 2 = ground arith in (Below-none id xs no_entry, ground arith)
  | inr (m, last) ↦
      let i : id ≡ suc_ℤ m.tag_id = ground arith in
      let low : pos 0 <ℤ m.tag_id = last_entry-Above (pos 0) xs m a last in
      (Below-last_entry (pos 0) id xs m a last (rw i (<ℤ-suc_ℤ m.tag_id)), ground arith)
]

-- `s'` is `s` with a new tag `id`, whose node `n` is at `p`: the metatag is gone, and the other tags
-- and their nodes are as they were.
pub record IsWith {T : Type 0} (rb : RbTree T) (id : ℤ) (p : Ptr) (n : Node) (s s' : State T)
    : Type 0 where
  pub sound : IsSound rb s'
  pub finds :
      (j : ℤ)
      → find_id j (rb.elements s'.tree) ≡ (
          if j ==ℤ id
          then some (entry id p)
          else if j ==ℤ metatag_id
          then none
          else find_id j (rb.elements s.tree))
  pub at : get p s'.heap ≡ some n
  pub keeps :
      (j : ℤ) (e : Entry)
      → find_id j (rb.elements s'.tree) ≡ some e
      → (j ==ℤ id) ≡ false
      → get e.node s'.heap ≡ get e.node s.heap
  pub inited : s'.tag_tree_inited ≡ s.tag_tree_inited
  pub rwlock : s'.tag_tree_mtx ≡ s.tag_tree_mtx
  pub events : s'.events ≡ s.events
  pub size : s'.tree_size ≡ (
      if is_some (find_id metatag_id (rb.elements s.tree))
      then decr_size (incr_size s.tree_size)
      else incr_size s.tree_size)

module _ {T : Type 0} (rb : RbTree T) (s : State T) (sound : IsSound rb s) (id : ℤ) (p : Ptr)
    (n : Node) (below : Below id (rb.elements s.tree)) (high : metatag_id <ℤ id) (ne : p ≢ 0)
    (fresh : get p s.heap ≡ none) (named : n.tag_id ≡ id) where
  -- The state with the node in the heap and in the tree.
  abbrev pub inserted : State T
  inserted = record s {
    heap = put p n s.heap;
    tree = rb.insert s.tree (entry id p);
    tree_size = incr_size s.tree_size;
  }

  elements_inserted :
      rb.elements (rb.insert s.tree (entry id p)) ≡ rb.elements s.tree ++ entry id p ∷ []
  elements_inserted =
      rb.elements-insert s.tree (entry id p)
      ∙ put_in_order-Below (entry id p) (rb.elements s.tree) below

  pub finds_inserted :
      (j : ℤ)
      → find_id j (rb.elements (rb.insert s.tree (entry id p)))
        ≡ (if j ==ℤ id then some (entry id p) else find_id j (rb.elements s.tree))
  finds_inserted j =
      ap (find_id j) elements_inserted ∙ find_id-append j (entry id p) (rb.elements s.tree) below

  pub sound_inserted : IsSound rb inserted
  sound_inserted =
      let avoids = Avoids-fresh s.heap p (rb.elements s.tree) sound.live fresh in
      record {
        ordered = rw elements_inserted (
            Above-append (pos 0) (entry id p) (rb.elements s.tree) sound.ordered below
              (omega arith));
        nonnull =
            rw elements_inserted
              (Avoids-append 0 (rb.elements s.tree) (entry id p) sound.nonnull ne);
        live = rw elements_inserted (
            Live-append (put p n s.heap) (rb.elements s.tree) (entry id p)
              (Live-elsewhere s.heap (put p n s.heap) p (rb.elements s.tree) avoids
                (λ q ne. ground (arith, get-put p q n s.heap)) sound.live)
              (n, get-put p p n s.heap ∙ ground (arith, ==-refl p), named));
      }

  pub MetatagFree_inserted : MetatagFree rb s sound → MetatagFree rb inserted sound_inserted
  MetatagFree_inserted free e m f at =
      let other : (metatag_id ==ℤ id) ≡ false = ground arith in
      let f' : find_id metatag_id (rb.elements s.tree) ≡ some e =
        ground (arith, finds_inserted metatag_id) in
      let apart =
        Avoids-find_id p metatag_id (rb.elements s.tree) e
          (Avoids-fresh s.heap p (rb.elements s.tree) sound.live fresh) f' in
      free e m f' (ground (arith, get-put p e.node n s.heap))

  module _ (s₂ : State T) (gone : IsWithout rb metatag_id inserted s₂) where
    -- The state with the new node's mutex held.
    abbrev pub with_node : Node → State T
    with_node m = record s₂ { heap = put p m s₂.heap }

    finds_gone :
        (j : ℤ)
        → find_id j (rb.elements s₂.tree) ≡ (
            if j ==ℤ id
            then some (entry id p)
            else if j ==ℤ metatag_id
            then none
            else find_id j (rb.elements s.tree))
    finds_gone j =
        ground (arith, gone.finds j, finds_inserted j, eq_of_==ℤ j id, eq_of_==ℤ j metatag_id)

    pub at_gone : get p s₂.heap ≡ some n
    at_gone =
        gone.keeps id (entry id p) (finds_gone id ∙ ground arith)
        ∙ (get-put p p n s.heap ∙ ground (arith, ==-refl p))

    -- Entries with another ID have another address.
    apart_gone :
        (j : ℤ) (e : Entry)
        → find_id j (rb.elements s₂.tree) ≡ some e
        → (j ==ℤ id) ≡ false
        → e.node ≢ p
    apart_gone j e f other =
        let f' : find_id j (rb.elements s.tree) ≡ some e = ground (arith, finds_gone j) in
        Avoids-find_id p j (rb.elements s.tree) e
          (Avoids-fresh s.heap p (rb.elements s.tree) sound.live fresh) f'

    pub with_node-IsWith : (m : Node) → m.tag_id ≡ id → IsWith rb id p m s (with_node m)
    with_node-IsWith m same = record {
      sound = record {
        ordered = gone.sound.ordered;
        nonnull = gone.sound.nonnull;
        live =
            Live-mono s₂.heap (put p m s₂.heap) (rb.elements s₂.tree)
              (λ q k at. relabel q k at (get-put p q m s₂.heap)) gone.sound.live;
      };
      finds = finds_gone;
      at = get-put p p m s₂.heap ∙ ground (arith, ==-refl p);
      keeps = λ j e f other.
          let ne' = apart_gone j e f other in
          ground (arith, get-put p e.node m s₂.heap, get-put p e.node n s.heap, gone.keeps j e f);
      inited = gone.inited;
      rwlock = gone.rwlock;
      events = gone.events;
      size =
          gone.size
          ∙ ap (λ o. if is_some o then decr_size (incr_size s.tree_size) else incr_size s.tree_size)
              (finds_inserted metatag_id ∙ ground arith);
    }
      where
        relabel :
            (q : Ptr) (k : Node)
            → get q s₂.heap ≡ some k
            → get q (put p m s₂.heap) ≡ (if q == p then some m else get q s₂.heap)
            → (k' : Node) × (get q (put p m s₂.heap) ≡ some k') × (k'.tag_id ≡ k.tag_id)
        relabel q k at e = elim (Bool-cases (q == p)) [
          | inl hit ↦ (m, ground arith, ground (arith, at_gone))
          | inr miss ↦ (k, ground arith, refl)
        ]
