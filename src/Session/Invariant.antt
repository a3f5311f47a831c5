-- ===== src/Session/Invariant.antt =====
-- What holds between the calls of a session.
use plcstub.Base.{
  ℕ, ◌+◌, ◌*◌, ◌^◌, ◌≤◌, ◌<◌, ◌≡◌, some, List, [], ◌∷◌, ◌++◌, arith, ℤ, pos, pos_part, neg_part,
  ◌==ℤ◌, ◌<ℤ◌, Bool-cases, inl, inr, length, length-append,
}
use plcstub.Types.{u16, size_mod}
use plcstub.Env.Rb.{Entry, RbTree}
use plcstub.Env.Heap.{Node, Heap}
use plcstub.TagTree.State.{State}
use plcstub.TagTree.Metatag.{meta_entry}
use plcstub.TagTree.Lookup.{IsReady}
use plcstub.TagTree.Order.{Above, Below}
use plcstub.TagTree.Sound.{IsSound}
use plcstub.TagTree.Listing.{listing, AreShort, length-meta_entry}
use plcstub.TagTree.Metanode.{nodes_at}
use plcstub.Session.Spec.{find_tag, replace_tag, drop_tag}

-- The library has started and is in none of its calls, the tree is sound, every ID is an int, and no
-- name is longer than 16 bits can say.
pub record IsInvariant {T : Type 0} (rb : RbTree T) (s : State T) : Type 0 where
  pub ready : IsReady s
  pub sound : IsSound rb s
  pub ints : Below (pos (2 ^ 31)) (rb.elements s.tree)
  pub short : AreShort (nodes_at s.heap (rb.elements s.tree))

-- There are fewer tags than ints.
length-Above :
    (k : ℤ) (m : ℕ) (xs : List Entry)
    → k <ℤ pos m
    → Above k xs
    → Below (pos m) xs
    → pos_part k + length xs < m + neg_part k
length-Above k m [] lt a b = omega arith
length-Above k m (x ∷ xs) lt a b = omega (arith, length-Above x.tag_id m xs b.0 a.1 b.1)

length-nodes_at : (h : Heap) (xs : List Entry) → length (nodes_at h xs) ≤ length xs
unfolding nodes_at
length-nodes_at h [] = omega arith
length-nodes_at h (x ∷ xs) = ground (arith, length-nodes_at h xs)

length-listing : (ns : List Node) → length (listing ns) ≤ length ns * 65557
unfolding listing
length-listing [] = omega arith
length-listing (n ∷ ns) =
    omega (arith, length-append (meta_entry n) (listing ns), length-meta_entry n, length-listing ns)

-- So the listing fits in memory.
pub listing-fits :
    {T : Type 0} (rb : RbTree T) (s : State T)
    → IsInvariant rb s
    → length (listing (nodes_at s.heap (rb.elements s.tree))) < size_mod
listing-fits rb s inv =
    let ns : List Node = nodes_at s.heap (rb.elements s.tree) in
    let few =
      length-Above (pos 0) (2 ^ 31) (rb.elements s.tree) (omega arith) inv.sound.ordered inv.ints in
    omega (arith, length-nodes_at s.heap (rb.elements s.tree), length-listing ns)

-- Short names under the changes of the tags.
pub AreShort-found :
    (i : ℤ) (ns : List Node) (n : Node) → AreShort ns → find_tag i ns ≡ some n → length n.name < u16
unfolding find_tag
AreShort-found i [] n a f = absurd (ground arith)
AreShort-found i (m ∷ ns) n a f = ground (arith, AreShort-found i ns n a.1)

pub AreShort-replace :
    (i : ℤ) (m : Node) (ns : List Node)
    → AreShort ns
    → length m.name < u16
    → AreShort (replace_tag i m ns)
unfolding replace_tag
AreShort-replace i m [] a le = tt
AreShort-replace i m (n ∷ ns) a le = elim (Bool-cases (i ==ℤ n.tag_id)) [
  | inl hit ↦ rw hit (le, a.1)
  | inr miss ↦ rw miss (a.0, AreShort-replace i m ns a.1 le)
]

pub AreShort-drop : (i : ℤ) (ns : List Node) → AreShort ns → AreShort (drop_tag i ns)
unfolding drop_tag
AreShort-drop i [] a = tt
AreShort-drop i (n ∷ ns) a = elim (Bool-cases (i ==ℤ n.tag_id)) [
  | inl hit ↦ rw hit (AreShort-drop i ns a.1)
  | inr miss ↦ rw miss (a.0, AreShort-drop i ns a.1)
]

pub AreShort-append :
    (ns : List Node) (n : Node) → AreShort ns → length n.name < u16 → AreShort (ns ++ n ∷ [])
AreShort-append [] n a le = (le, tt)
AreShort-append (m ∷ ns) n a le = (a.0, AreShort-append ns n a.1 le)
