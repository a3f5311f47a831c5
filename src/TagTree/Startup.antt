-- ===== src/TagTree/Startup.antt =====
-- `tag_tree_init` of src/tagtree.c on a library that has not started: the tags of tags.inc.
pub mod Scalar
use plcstub.Base.{
  ◌==ℤ◌, ℕ, zero, suc, ◌+◌, ◌^◌, ◌<◌, ◌≡◌, refl, sym, ap, ◌∙◌, Bool, true, false, none, some, List,
  [], ◌∷◌, ◌++◌, map, arith, ℤ, pos, length, replicate, is_some, ==-refl, eq_of_==ℤ, Bool-cases,
  inl, inr, ◌==◌, leb, ◌&&◌, ◌%◌,
}
use plcstub.Types.{type_new_simple, type_dup, tag_lint_code}
use plcstub.Outcome.{done}
use plcstub.Bytes.{Bytes, splice}
use plcstub.Env.Rb.{Ptr, Entry, entry, RbTree, last_entry}
use plcstub.Env.Heap.{Node, Heap, get, put, delete, get-put}
use plcstub.Env.Libc.{Libc}
use plcstub.TagTree.State.{
  State, free, writer, deref, write, mtx_unlock, rw_rdlock, rw_wrlock, rw_unlock,
}
use plcstub.TagTree.Ops.{
  metatag_id, sizeof_node, buffer_size, next_id, not_null, alloc_node, tag_tree_node_create,
  define_scalar, define_scalars, tags_inc, tag_tree_init,
}
use plcstub.TagTree.Lookup.{IsReady, init_ready}
use plcstub.TagTree.Order.{Below, find_id, find_id-append, Above-append}
use plcstub.TagTree.Same.{find_id-ext, find_id-Below}
use plcstub.TagTree.Metanode.{nodes_at}
use plcstub.TagTree.Nodes.{nodes-ext, nodes-append, Below-weaken}
use plcstub.TagTree.Sound.{IsSound}
use plcstub.TagTree.Create.Drop.{MetatagFree}
use plcstub.TagTree.Create.Fresh.{IsWith, next_id-Below}
use plcstub.TagTree.Create.Insert.{tag_tree_node_create-IsWith, IsWith-rewrite, alloc_node-IsFresh}
use plcstub.TagTree.Startup.Scalar.{
  IsGenerous, scalar_node, define_scalar-IsWith, define_scalar_lem,
}

-- The IDs from `k` on.
abbrev pub ids_from : ℕ → ℕ → List ℤ
ids_from k zero = []
ids_from k (suc n) = pos k ∷ ids_from (k + 1) n

abbrev pub ids : List Entry → List ℤ
ids xs = map (λ e. e.tag_id) xs

-- The tags of tags.inc, with the IDs from `k` on: the first byte of each buffer is the value.
abbrev pub start_nodes : ℕ → List (Bytes × ℕ × ℕ) → List Node
start_nodes k [] = []
start_nodes k ((name, ty, val) ∷ rest) = scalar_node name ty val (pos k) ∷ start_nodes (k + 1) rest

-- The tags have simple types.
abbrev AreScalars : List (Bytes × ℕ × ℕ) → Type 0
AreScalars [] = Unit
AreScalars ((name, ty, val) ∷ rest) = (not_null (type_new_simple ty) ≡ true) × AreScalars rest

last_append : (xs : List Entry) (e : Entry) → last_entry (xs ++ e ∷ []) ≡ some e
last_append [] e = refl
last_append (x ∷ []) e = refl
last_append (x ∷ y ∷ xs) e = last_append (y ∷ xs) e

ids-append :
    (xs : List Entry) (e : Entry) (is : List ℤ) → ids (xs ++ e ∷ []) ++ is ≡ ids xs ++ e.tag_id ∷ is
ids-append [] e is = refl
ids-append (x ∷ xs) e is = ap (λ l. x.tag_id ∷ l) (ids-append xs e is)

append-nothing : {A : Type 0} (xs : List A) → xs ++ [] ≡ xs
append-nothing [] = refl
append-nothing (x ∷ xs) = ap (λ l. x ∷ l) (append-nothing xs)

append-cons : {A : Type 0} (xs : List A) (y : A) (ys : List A) → (xs ++ y ∷ []) ++ ys ≡ xs ++ y ∷ ys
append-cons [] y ys = refl
append-cons (x ∷ xs) y ys = ap (λ l. x ∷ l) (append-cons xs y ys)

Below-same : (k m : ℕ) (xs : List Entry) → k ≡ m → Below (pos k) xs → Below (pos m) xs
Below-same k m xs e b = rw (← e) b

module _ {T : Type 0} (rb : RbTree T) (libc : Libc) (generous : IsGenerous libc) where
  next_after :
      (s : State T) (xs : List Entry) (k : ℕ) (p : Ptr)
      → rb.elements s.tree ≡ xs ++ entry (pos k) p ∷ []
      → k + 1 < 2 ^ 31
      → next_id (rb.maximum s.tree) ≡ done (pos (k + 1))
  unfolding next_id
  next_after s xs k p e small =
      rw (rb.maximum_lem s.tree, e, last_append xs (entry (pos k) p)) (ground arith)

  -- One more tag in the list of tags.
  nodes_with :
      (s s' : State T) (id : ℤ) (p : Ptr) (n : Node)
      → IsSound rb s
      → find_id metatag_id (rb.elements s.tree) ≡ none
      → Below id (rb.elements s.tree)
      → rb.elements s'.tree ≡ rb.elements s.tree ++ entry id p ∷ []
      → IsWith rb id p n s s'
      → nodes_at s'.heap (rb.elements s'.tree) ≡ nodes_at s.heap (rb.elements s.tree) ++ n ∷ []
  nodes_with s s' id p n sound no_metatag below added w =
      let xs : List Entry = rb.elements s.tree in
      let same : nodes_at s'.heap xs ≡ nodes_at s.heap xs =
        nodes-ext (pos 0) s'.heap s.heap xs sound.ordered λ j e f.
          let older : (j ==ℤ id) ≡ false =
            ground (arith, find_id-Below id xs below, eq_of_==ℤ j id) in
          let plain : (j ==ℤ metatag_id) ≡ false =
            ground (arith, no_metatag, eq_of_==ℤ j metatag_id) in
          w.keeps j e (w.finds j ∙ rw (older, plain) f) older in
      ap (nodes_at s'.heap) added
      ∙ nodes-append s'.heap xs (entry id p) n w.at
      ∙ ap (λ l. l ++ n ∷ []) same

  -- What making the tags leaves.
  record IsFilled (s s' : State T) (k : ℕ) (rest : List (Bytes × ℕ × ℕ)) : Type 0 where
    pub sound : IsSound rb s'
    pub listed : ids (rb.elements s'.tree) ≡ ids (rb.elements s.tree) ++ ids_from k (length rest)
    pub below : Below (pos (k + length rest)) (rb.elements s'.tree)
    pub nodes :
        nodes_at s'.heap (rb.elements s'.tree)
        ≡ nodes_at s.heap (rb.elements s.tree) ++ start_nodes k rest
    pub inited : s'.tag_tree_inited ≡ s.tag_tree_inited
    pub rwlock : s'.tag_tree_mtx ≡ s.tag_tree_mtx
    pub events : s'.events ≡ s.events

  define_scalars_lem :
      (s : State T) (k : ℕ) (rest : List (Bytes × ℕ × ℕ))
      → IsSound rb s
      → find_id metatag_id (rb.elements s.tree) ≡ none
      → AreScalars rest
      → next_id (rb.maximum s.tree) ≡ done (pos k)
      → k + length rest < 2 ^ 31
      → (s' : State T) × (define_scalars rb libc rest s ≡ done (tt, s')) × IsFilled s s' k rest
  unfolding define_scalars
  define_scalars_lem s k [] sound no_metatag are next small =
      let (below, high) =
        next_id-Below (rb.elements s.tree) (pos k) sound.ordered
          (ap next_id (sym (rb.maximum_lem s.tree)) ∙ next) in
      (
        s,
        refl,
        record {
          sound = sound;
          listed = sym (append-nothing (ids (rb.elements s.tree)));
          below = Below-same k (k + 0) (rb.elements s.tree) (omega arith) below;
          nodes = sym (append-nothing (nodes_at s.heap (rb.elements s.tree)));
          inited = refl;
          rwlock = refl;
          events = refl;
        },
      )
  define_scalars_lem s k ((name, ty, val) ∷ rest) sound no_metatag are next small =
      let xs : List Entry = rb.elements s.tree in
      let n : Node = scalar_node name ty val (pos k) in
      let (below, high) =
        next_id-Below xs (pos k) sound.ordered (ap next_id (sym (rb.maximum_lem s.tree)) ∙ next) in
      let (s₁, p, made, w) =
        define_scalar-IsWith rb libc generous s (pos k) name ty val sound no_metatag are.0 next in
      let (added, no_metatag₁) =
        define_scalar_lem rb libc generous s s₁ (pos k) p n sound no_metatag next w in
      let (s₂, rest_made, filled) =
        define_scalars_lem s₁ (k + 1) rest w.sound no_metatag₁ are.1
          (next_after s₁ xs k p added (omega arith)) (omega arith) in
      (
        s₂,
        rw made rest_made,
        record {
          sound = filled.sound;
          listed =
              filled.listed
              ∙ ap (λ ys. ids ys ++ ids_from (k + 1) (length rest)) added
              ∙ ids-append xs (entry (pos k) p) (ids_from (k + 1) (length rest));
          below =
              Below-same (k + 1 + length rest) (k + suc (length rest)) (rb.elements s₂.tree)
                (omega arith) filled.below;
          nodes =
              filled.nodes
              ∙ ap (λ l. l ++ start_nodes (k + 1) rest)
                  (nodes_with s s₁ (pos k) p n sound no_metatag below added w)
              ∙ append-cons (nodes_at s.heap xs) n (start_nodes (k + 1) rest);
          inited = filled.inited ∙ w.inited;
          rwlock = filled.rwlock ∙ w.rwlock;
          events = filled.events ∙ w.events;
        },
      )

  init_runs :
      (s s₁ : State T)
      → s.tag_tree_inited ≡ false
      → s.tag_tree_mtx ≡ free
      → define_scalars rb libc tags_inc (record s { tag_tree_inited = true; tag_tree_mtx = writer })
        ≡ done (tt, s₁)
      → s₁.tag_tree_mtx ≡ writer
      → tag_tree_init rb libc s ≡ done (tt, record s₁ { tag_tree_mtx = free })
  unfolding tag_tree_init rw_rdlock rw_wrlock rw_unlock
  init_runs s s₁ idle unlocked made held = rw (unlocked, idle, made, held)

  -- From an empty tree, before the library has started, and where no allocation fails: the first
  -- `tag_tree_init` returns, with a sound tree in which the ten tags of tags.inc have the IDs 2
  -- to 11, and with the library ready. Their nodes are unlocked, with no callback, and with eight
  -- bytes of data: the value in the first one, and 0x42 in the others. A second call leaves this
  -- state as it is.
  pub tag_tree_init-start :
      (s : State T)
      → rb.elements s.tree ≡ []
      → s.tag_tree_inited ≡ false
      → s.tag_tree_mtx ≡ free
      → (s' : State T) × (tag_tree_init rb libc s ≡ done (tt, s'))
        × IsSound rb s'
        × IsReady s'
        × (ids (rb.elements s'.tree) ≡ ids_from 2 10)
        × Below (pos 12) (rb.elements s'.tree)
        × (nodes_at s'.heap (rb.elements s'.tree) ≡ start_nodes 2 tags_inc)
        × (s'.events ≡ s.events)
        × (tag_tree_init rb libc s' ≡ done (tt, s'))
  unfolding find_id next_id type_new_simple nodes_at
  tag_tree_init-start s empty idle unlocked =
      let s₀ : State T = record s { tag_tree_inited = true; tag_tree_mtx = writer } in
      let sound₀ : IsSound rb s₀ = record {
        ordered = rw empty tt;
        nonnull = rw empty tt;
        live = rw empty tt;
      } in
      let (s₁, made, filled) =
        define_scalars_lem s₀ 2 tags_inc sound₀ (rw empty refl)
          (refl, (refl, (refl, (refl, (refl, (refl, (refl, (refl, (refl, (refl, tt))))))))))
          (rw (rb.maximum_lem s.tree, empty) refl) (omega arith) in
      let ready : IsReady (record s₁ { tag_tree_mtx = free }) = record {
        inited = filled.inited;
        unlocked = refl;
      } in
      (
        record s₁ { tag_tree_mtx = free },
        init_runs s s₁ idle unlocked made filled.rwlock,
        record {
          ordered = filled.sound.ordered;
          nonnull = filled.sound.nonnull;
          live = filled.sound.live;
        },
        ready,
        filled.listed ∙ rw empty refl,
        filled.below,
        filled.nodes ∙ ap (λ xs. nodes_at s.heap xs ++ start_nodes 2 tags_inc) empty,
        filled.events,
        init_ready ready rb libc,
      )
