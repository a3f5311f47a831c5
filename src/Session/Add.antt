-- ===== src/Session/Add.antt =====
-- `tag_tree_insert` by `plc_tag_create`, against the specification.
use plcstub.Base.{
  ◌^◌, ◌<◌, ◌≡◌, ◌⊎◌, refl, sym, ap, ◌∙◌, false, Option, none, some, Option-cases, Bool-cases, inl,
  inr, List, [], ◌∷◌, ◌++◌, arith, ℤ, pos, ◌<ℤ◌, ◌==ℤ◌, eq_of_==ℤ, suc_ℤ, length, eq_bytes,
  replicate, is_some,
}
use plcstub.Types.{u16, type_new_simple, type_dup, type_size_bytes, tag_lint_code}
use plcstub.Bytes.{Bytes}
use plcstub.Outcome.{Outcome, done, fault, overflow}
use plcstub.Env.Rb.{Ptr, Entry, entry, RbTree, last_entry}
use plcstub.Env.Heap.{Node, Heap}
use plcstub.Env.Libc.{Libc}
use plcstub.TagTree.State.{State, pure, bind_outcome}
use plcstub.TagTree.Ops.{metatag_id, meta_name, int_max, next_id, buffer_size, tag_tree_insert}
use plcstub.TagTree.Order.{find_id, Below, Above-append, find_id-append, Owns-find_id}
use plcstub.TagTree.Same.{find_id-Below, find_id-ext}
use plcstub.TagTree.Create.Drop.{MetatagFree}
use plcstub.TagTree.Create.Fresh.{IsWith, next_id-Below}
use plcstub.TagTree.Create.Insert.{IsFresh, tag_tree_insert-IsWith}
use plcstub.TagTree.Create.Refused.{insert_overflow, insert_blocked}
use plcstub.TagTree.Metanode.{nodes_at}
use plcstub.TagTree.Startup.Scalar.{IsGenerous, alloc_done}
use plcstub.Api.Create.{lint}
use plcstub.Session.{Result, int}
use plcstub.Session.Spec.{drop_tag, id_after, new_tag, add_tag}
use plcstub.TagTree.Nodes.{nodes-append, nodes-ext, Below-append}
use plcstub.Session.View.{
  view, find_tag-some, find_tag-none, omit, find_id-omit, Above-omit, nodes-omit, id_after-nodes,
  Below-omit,
}
use plcstub.Session.Invariant.{IsInvariant, AreShort-drop, AreShort-append}
use plcstub.Session.Lift.{Agrees, returns_in, blocks_too, faults_too}

next_id-cases :
    (o : Option Entry) → ((id : ℤ) × (next_id o ≡ done id)) ⊎ (next_id o ≡ fault overflow)
unfolding next_id
next_id-cases none = inl (_, refl)
next_id-cases (some e) = elim (Bool-cases (e.tag_id ==ℤ int_max)) [
  | inl top ↦ inr (rw top)
  | inr below ↦ inl (suc_ℤ e.tag_id, rw below)
]

-- A new ID is an int.
next_id-int :
    (xs : List Entry) (id : ℤ)
    → Below (pos (2 ^ 31)) xs
    → next_id (last_entry xs) ≡ done id
    → id <ℤ pos (2 ^ 31)
unfolding next_id
next_id-int [] id b next = ground arith
next_id-int (x ∷ []) id b next = ground arith
next_id-int (x ∷ y ∷ xs) id b next = next_id-int (y ∷ xs) id b.1 next

-- The node of a new tag is the specified one.
pub new_node :
    {h : Heap} (libc : Libc) (name : Bytes) (id : ℤ) (p : Ptr) (n : Node)
    → IsFresh libc h name lint id p n
    → n ≡ new_tag name id
new_node {h} libc name id p n f =
    let typed : n.type ≡ lint = type_kept f.copied in
    let filled : n.contents ≡ replicate 8 0x42 =
      f.filled ∙ (unfold buffer_size type_size_bytes in refl) in
    λ i. record {
      tag_id = f.tag_id i;
      name = f.name_kept i;
      cb = f.no_callback i;
      locked = f.unlocked i;
      type = typed i;
      contents = filled i;
    }
  where
    type_kept : type_dup (λ k. is_some (libc.malloc h k)) lint ≡ done n.type → n.type ≡ lint
    type_kept e = (unfold type_dup in ground arith)

module _ {T : Type 0} (rb : RbTree T) (libc : Libc) (s s' : State T) (inv : IsInvariant rb s)
    (name : Bytes) (id : ℤ) (p : Ptr) (n : Node) (next : next_id (rb.maximum s.tree) ≡ done id)
    (w : IsWith rb id p n s s') (is_new : n ≡ new_tag name id) where
  abbrev xs : List Entry
  xs = rb.elements s.tree

  next_xs : next_id (last_entry xs) ≡ done id
  next_xs = ap next_id (sym (rb.maximum_lem s.tree)) ∙ next

  elements_with : rb.elements s'.tree ≡ omit metatag_id xs ++ entry id p ∷ []
  elements_with =
      let (below, high) = next_id-Below xs id inv.sound.ordered next_xs in
      let below' = Below-omit id metatag_id xs below in
      find_id-ext (pos 0) (rb.elements s'.tree) (omit metatag_id xs ++ entry id p ∷ [])
        w.sound.ordered
        (Above-append (pos 0) (entry id p) (omit metatag_id xs)
          (Above-omit (pos 0) metatag_id xs inv.sound.ordered) below' (omega arith))
        λ j. ground (
          arith,
          w.finds j,
          find_id-append j (entry id p) (omit metatag_id xs) below',
          find_id-omit metatag_id j xs,
        )

  pub nodes_with :
      nodes_at s'.heap (rb.elements s'.tree)
      ≡ drop_tag metatag_id (nodes_at s.heap xs) ++ new_tag name id ∷ []
  nodes_with =
      let (below, high) = next_id-Below xs id inv.sound.ordered next_xs in
      let below' = Below-omit id metatag_id xs below in
      let same : nodes_at s'.heap (omit metatag_id xs) ≡ nodes_at s.heap (omit metatag_id xs) =
        nodes-ext (pos 0) s'.heap s.heap (omit metatag_id xs)
          (Above-omit (pos 0) metatag_id xs inv.sound.ordered)
          λ j e f.
            let older : (j ==ℤ id) ≡ false =
              ground (arith, find_id-Below id (omit metatag_id xs) below', eq_of_==ℤ j id) in
            let f' : find_id j (rb.elements s'.tree) ≡ some e =
              ap (find_id j) elements_with
              ∙ find_id-append j (entry id p) (omit metatag_id xs) below'
              ∙ ground arith in
            w.keeps j e f' older in
      ap (nodes_at s'.heap) elements_with
      ∙ nodes-append s'.heap (omit metatag_id xs) (entry id p) n w.at
      ∙ ap (λ l. l ++ n ∷ []) (same ∙ nodes-omit s.heap metatag_id xs inv.sound.live)
      ∙ ap (λ m. drop_tag metatag_id (nodes_at s.heap xs) ++ m ∷ []) is_new

  IsInvariant-with : length name < u16 → IsInvariant rb s'
  IsInvariant-with short = record {
    ready = record {
      inited = w.inited ∙ inv.ready.inited;
      unlocked = w.rwlock ∙ inv.ready.unlocked;
    };
    sound = w.sound;
    ints = rw elements_with (
        Below-append (pos (2 ^ 31)) (omit metatag_id xs) (entry id p)
          (Below-omit (pos (2 ^ 31)) metatag_id xs inv.ints) (next_id-int xs id inv.ints next_xs));
    short = rw nodes_with (
        AreShort-append (drop_tag metatag_id (nodes_at s.heap xs)) (new_tag name id)
          (AreShort-drop metatag_id (nodes_at s.heap xs) inv.short) short);
  }

module _ {T : Type 0} (rb : RbTree T) (libc : Libc) (generous : IsGenerous libc) (s : State T)
    (inv : IsInvariant rb s) (name : Bytes) (plain : eq_bytes name meta_name ≡ false)
    (short : length name < u16) where
  abbrev ns : List Node
  ns = nodes_at s.heap (rb.elements s.tree)

  next_lem : id_after ns ≡ next_id (rb.maximum s.tree)
  next_lem =
      id_after-nodes s.heap (rb.elements s.tree) inv.sound.live
      ∙ ap next_id (sym (rb.maximum_lem s.tree))

  abbrev insertion : Outcome (Result × State T)
  insertion = bind_outcome (tag_tree_insert rb libc name lint s) (λ r. pure (int r))

  -- Where the metatag is not there or not locked.
  added :
      (id : ℤ)
      → next_id (rb.maximum s.tree) ≡ done id
      → MetatagFree rb s inv.sound
      → add_tag name (view rb s)
        ≡ done (
          int id,
          record { tags = drop_tag metatag_id ns ++ new_tag name id ∷ []; events = s.events },
        )
      → Agrees rb insertion (add_tag name (view rb s))
  unfolding type_new_simple
  added id next free adds =
      let (p, n, alloc) = alloc_done libc generous s.heap name tag_lint_code id refl in
      let (s', made, w, _, f) =
        tag_tree_insert-IsWith rb libc name lint id p n s inv.ready inv.sound plain free next
          alloc in
      let is_new = new_node libc name id p n f in
      returns_in (int id) s' (rw made)
        (adds ∙ rw (nodes_with rb libc s s' inv name id p n next w is_new, w.events))
        (IsInvariant-with rb libc s s' inv name id p n next w is_new short)

  pub add-Agrees : Agrees rb insertion (add_tag name (view rb s))
  unfolding add_tag type_new_simple
  add-Agrees = elim (next_id-cases (rb.maximum s.tree)) [
    | inr over ↦
        faults_too overflow (rw (insert_overflow rb libc name lint s inv.ready plain over))
          (rw (next_lem, over))
    | inl (id, next) ↦ elim (Option-cases (find_id metatag_id (rb.elements s.tree))) [
      | inl f ↦
          added id next (λ e m g at. absurd (ground arith))
            (rw (
              next_lem,
              next,
              find_tag-none s.heap metatag_id (rb.elements s.tree) inv.sound.live f,
            ))
      | inr (e, f) ↦
          let (m, at, named) =
            Owns-find_id s.heap metatag_id (rb.elements s.tree) e inv.sound.live f in
          let there =
            find_tag-some s.heap metatag_id (rb.elements s.tree) e m inv.sound.live f at in
          elim (Bool-cases m.locked) [
            | inl taken ↦
                let (p, n, alloc) = alloc_done libc generous s.heap name tag_lint_code id refl in
                blocks_too
                  (rw (
                    insert_blocked rb libc name lint id p n e m s inv.ready inv.sound plain next
                      alloc f at taken))
                  (rw (next_lem, next, there, taken))
            | inr free ↦
                added id next (λ e' m' f' at'. ground arith) (rw (next_lem, next, there, free))
          ]
    ]
  ]
