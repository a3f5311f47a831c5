-- ===== src/Session/View.antt =====
-- The tags that a state of src/tagtree.c stands for, and what changes of the tree and of the nodes
-- do to them.
use plcstub.Base.{
  ◌≡◌, ◌≢◌, refl, sym, ap, ◌∙◌, none, some, List, [], ◌∷◌, arith, ℤ, ◌==ℤ◌, eq_of_==ℤ, Bool-cases,
  inl, inr, ◌==◌, if◌then◌else◌, ==-refl,
}
use plcstub.Env.Rb.{Ptr, Entry, RbTree, last_entry}
use plcstub.Env.Heap.{Node, Heap, get}
use plcstub.TagTree.State.{State}
use plcstub.TagTree.Ops.{next_id}
use plcstub.TagTree.Order.{
  find_id, Above, Below, Above-weaken, Live, Owns-same, find_id-Above, find_id-some, Owns-find_id,
}
use plcstub.TagTree.Metanode.{nodes_at}
use plcstub.TagTree.Nodes.{nodes-cons, nodes-ext}
use plcstub.Session.Spec.{Spec, find_tag, replace_tag, drop_tag, id_after}

abbrev pub view : {T : Type 0} → RbTree T → State T → Spec
view rb s = record { tags = nodes_at s.heap (rb.elements s.tree); events = s.events }

pub find_tag-some :
    (h : Heap) (i : ℤ) (xs : List Entry) (e : Entry) (n : Node)
    → Live h xs
    → find_id i xs ≡ some e
    → get e.node h ≡ some n
    → find_tag i (nodes_at h xs) ≡ some n
unfolding find_id find_tag
find_tag-some h i [] e n l f at = absurd (ground arith)
find_tag-some h i (x ∷ xs) e n ((m, at', named), l) f at =
    rw (nodes-cons h x xs at') (ground (arith, find_tag-some h i xs e n l))

pub find_tag-none :
    (h : Heap) (i : ℤ) (xs : List Entry)
    → Live h xs
    → find_id i xs ≡ none
    → find_tag i (nodes_at h xs) ≡ none
unfolding find_id find_tag nodes_at
find_tag-none h i [] l f = refl
find_tag-none h i (x ∷ xs) ((m, at', named), l) f =
    rw (nodes-cons h x xs at') (ground (arith, find_tag-none h i xs l))

-- A write to the node of one entry.
pub nodes-replace :
    (k : ℤ) (g h : Heap) (i : ℤ) (xs : List Entry) (e : Entry) (m : Node)
    → Above k xs
    → Live h xs
    → find_id i xs ≡ some e
    → ((q : Ptr) → get q g ≡ (if q == e.node then some m else get q h))
    → nodes_at g xs ≡ replace_tag i m (nodes_at h xs)
unfolding find_id replace_tag
nodes-replace k g h i [] e m a l f same = absurd (ground arith)
nodes-replace k g h i (x ∷ xs) e m a ((n, at, named), l) f same =
    elim (Bool-cases (i ==ℤ x.tag_id)) [
      | inl hit ↦
          let is_e : x ≡ e = ground arith in
          let at' : get x.node g ≡ some m = ground (arith, same x.node, ==-refl x.node) in
          let rest : nodes_at g xs ≡ nodes_at h xs =
            nodes-ext x.tag_id g h xs a.1 λ j y f'. ground (arith, same y.node, below j y f') in
          rw (nodes-cons h x xs at, nodes-cons g x xs at', rest) (ground arith)
      | inr miss ↦
          let f' : find_id i xs ≡ some e = ground arith in
          let apart : x.node ≢ e.node = λ eq. ground (
            arith,
            Owns-same h x e (n, at, named) (Owns-find_id h i xs e l f') eq,
            find_id-some i xs e f',
          ) in
          let at' : get x.node g ≡ some n = ground (arith, same x.node) in
          rw
            (
              nodes-cons h x xs at,
              nodes-cons g x xs at',
              nodes-replace x.tag_id g h i xs e m a.1 l f' same,
            )
            (ground arith)
    ]
  where
    below : (j : ℤ) (y : Entry) → find_id j xs ≡ some y → y.node ≡ x.node → ⊥
    below j y f' eq = ground (
      arith,
      Owns-same h x y (n, at, named) (Owns-find_id h j xs y l f') (sym eq),
      find_id-some j xs y f',
      find_id-Above j x.tag_id xs a.1,
    )

-- The entries without an ID.
pub omit : ℤ → List Entry → List Entry
omit i [] = []
omit i (x ∷ xs) = let rest = omit i xs in if i ==ℤ x.tag_id then rest else x ∷ rest

pub find_id-omit :
    (i j : ℤ) (xs : List Entry) → find_id j (omit i xs) ≡ (if j ==ℤ i then none else find_id j xs)
unfolding find_id omit
find_id-omit i j [] = ground arith
find_id-omit i j (x ∷ xs) =
    ground (arith, find_id-omit i j xs, eq_of_==ℤ i x.tag_id, eq_of_==ℤ j i, eq_of_==ℤ j x.tag_id)

pub Above-omit : (k i : ℤ) (xs : List Entry) → Above k xs → Above k (omit i xs)
unfolding omit
Above-omit k i [] a = tt
Above-omit k i (x ∷ xs) a = elim (Bool-cases (i ==ℤ x.tag_id)) [
  | inl hit ↦ rw hit (Above-omit k i xs (Above-weaken k x.tag_id xs a.1 (omega arith)))
  | inr miss ↦ rw miss (a.0, Above-omit x.tag_id i xs a.1)
]

pub Below-omit : (k i : ℤ) (xs : List Entry) → Below k xs → Below k (omit i xs)
unfolding omit
Below-omit k i [] b = tt
Below-omit k i (x ∷ xs) b = elim (Bool-cases (i ==ℤ x.tag_id)) [
  | inl hit ↦ rw hit (Below-omit k i xs b.1)
  | inr miss ↦ rw miss (b.0, Below-omit k i xs b.1)
]

pub nodes-omit :
    (h : Heap) (i : ℤ) (xs : List Entry)
    → Live h xs
    → nodes_at h (omit i xs) ≡ drop_tag i (nodes_at h xs)
unfolding omit drop_tag nodes_at
nodes-omit h i [] l = refl
nodes-omit h i (x ∷ xs) ((n, at, named), l) = ground (arith, nodes-omit h i xs l)

pub id_after-nodes :
    (h : Heap) (xs : List Entry) → Live h xs → id_after (nodes_at h xs) ≡ next_id (last_entry xs)
unfolding id_after next_id nodes_at
id_after-nodes h [] l = refl
id_after-nodes h (x ∷ []) ((n, at, named), l) = rw (nodes-cons h x [] at) (ground arith)
id_after-nodes h (x ∷ y ∷ xs) ((n, at, named), ((m, at', named'), l)) =
    rw (nodes-cons h x (y ∷ xs) at, nodes-cons h y xs at')
      (ap id_after (sym (nodes-cons h y xs at')) ∙ id_after-nodes h (y ∷ xs) ((m, at', named'), l))
