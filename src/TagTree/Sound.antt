-- ===== src/TagTree/Sound.antt =====
-- The invariant of the tree of tags, and what keeps it.
use plcstub.Base.{
  ◌≡◌, ◌≢◌, ◌∙◌, false, none, some, List, [], ◌∷◌, ◌++◌, arith, ℤ, pos, ◌≤ℤ◌, ◌==ℤ◌, Bool-cases,
  inl, inr, ◌==◌, ==-refl,
}
use plcstub.Env.Rb.{Ptr, Entry, RbTree, unlink}
use plcstub.Env.Heap.{Node, Heap, get}
use plcstub.TagTree.State.{State}
use plcstub.TagTree.Order.{
  find_id, Above, Above-weaken, Owns, Owns-same, Live, find_id-some, Owns-find_id,
}

-- No entry has the address.
abbrev pub Avoids : Ptr → List Entry → Type 0
Avoids p [] = Unit
Avoids p (x ∷ xs) = (x.node ≢ p) × Avoids p xs

-- The IDs in the tree are positive and grow in the tree's order, and the node of each entry is
-- not NULL, is allocated and carries the entry's ID.
pub record IsSound {T : Type 0} (rb : RbTree T) (s : State T) : Type 0 where
  pub ordered : Above (pos 0) (rb.elements s.tree)
  pub nonnull : Avoids 0 (rb.elements s.tree)
  pub live : Live s.heap (rb.elements s.tree)

-- Entries stay live where their nodes keep their IDs.
pub Live-mono :
    (h g : Heap) (xs : List Entry)
    → ((q : Ptr) (n : Node)
        → get q h ≡ some n
        → (m : Node) × (get q g ≡ some m) × (m.tag_id ≡ n.tag_id))
    → Live h xs
    → Live g xs
Live-mono h g [] keep l = tt
Live-mono h g (x ∷ xs) keep ((n, e, i), l) =
    let (m, e', j) = keep x.node n e in ((m, e', j ∙ i), Live-mono h g xs keep l)

pub Live-append :
    (h : Heap) (xs : List Entry) (e : Entry) → Live h xs → Owns h e → Live h (xs ++ e ∷ [])
Live-append h [] e l o = (o, tt)
Live-append h (x ∷ xs) e l o = (l.0, Live-append h xs e l.1 o)

pub Avoids-fresh : (h : Heap) (p : Ptr) (xs : List Entry) → Live h xs → get p h ≡ none → Avoids p xs
Avoids-fresh h p [] l f = tt
Avoids-fresh h p (x ∷ xs) ((n, e, i), l) f = (ground arith, Avoids-fresh h p xs l f)

-- What changes at one address only leaves the entries of others live.
pub Live-elsewhere :
    (h g : Heap) (p : Ptr) (xs : List Entry)
    → Avoids p xs
    → ((q : Ptr) → q ≢ p → get q g ≡ get q h)
    → Live h xs
    → Live g xs
Live-elsewhere h g p [] a keep l = tt
Live-elsewhere h g p (x ∷ xs) a keep ((n, e, i), l) =
    ((n, keep x.node a.0 ∙ e, i), Live-elsewhere h g p xs a.1 keep l)

-- The entries above an ID do not have the address of an entry with that ID.
Avoids-Above :
    (h : Heap) (e : Entry) (k : ℤ) (xs : List Entry)
    → Owns h e
    → Above k xs
    → e.tag_id ≤ℤ k
    → Live h xs
    → Avoids e.node xs
Avoids-Above h e k [] o s le l = tt
Avoids-Above h e k (x ∷ xs) (n, at, i) s le ((m, at', j), l) =
    (λ same. ground (arith, ids same), Avoids-Above h e x.tag_id xs (n, at, i) s.1 (omega arith) l)
  where
    ids : x.node ≡ e.node → x.tag_id ≡ e.tag_id
    ids same = ground arith

pub Above-unlink : (k : ℤ) (e : Entry) (xs : List Entry) → Above k xs → Above k (unlink e xs)
Above-unlink k e [] s = tt
Above-unlink k e (x ∷ xs) s = elim (Bool-cases (x.node == e.node)) [
  | inl hit ↦ rw hit (Above-weaken k x.tag_id xs s.1 (omega arith))
  | inr miss ↦ rw miss (s.0, Above-unlink x.tag_id e xs s.1)
]

pub Live-unlink : (h : Heap) (e : Entry) (xs : List Entry) → Live h xs → Live h (unlink e xs)
Live-unlink h e [] l = tt
Live-unlink h e (x ∷ xs) l = elim (Bool-cases (x.node == e.node)) [
  | inl hit ↦ rw hit l.1
  | inr miss ↦ rw miss (l.0, Live-unlink h e xs l.1)
]

pub Avoids-unlink :
    (h : Heap) (k i : ℤ) (e : Entry) (xs : List Entry)
    → Above k xs
    → Live h xs
    → find_id i xs ≡ some e
    → Avoids e.node (unlink e xs)
unfolding find_id
Avoids-unlink h k i e [] s l f = absurd (ground arith)
Avoids-unlink h k i e (x ∷ xs) s l f = elim (Bool-cases (i ==ℤ x.tag_id)) [
  | inl hit ↦
      let same : x ≡ e = ground arith in
      rw (← same, ==-refl x.node) (Avoids-Above h x x.tag_id xs l.0 s.1 (omega arith) l.1)
  | inr miss ↦
      let f' : find_id i xs ≡ some e = ground arith in
      let o = Owns-find_id h i xs e l.1 f' in
      let apart : x.node ≢ e.node =
        λ same. ground (arith, Owns-same h x e l.0 o same, find_id-some i xs e f') in
      let differ : (x.node == e.node) ≡ false = ground arith in
      rw differ (apart, Avoids-unlink h x.tag_id i e xs s.1 l.1 f')
]

pub Avoids-find_id :
    (p : Ptr) (i : ℤ) (xs : List Entry) (e : Entry)
    → Avoids p xs
    → find_id i xs ≡ some e
    → e.node ≢ p
unfolding find_id
Avoids-find_id p i [] e a f = absurd (ground arith)
Avoids-find_id p i (x ∷ xs) e a f = elim (Bool-cases (i ==ℤ x.tag_id)) [
  | inl hit ↦ let same : x ≡ e = ground arith in rw (← same) a.0
  | inr miss ↦ Avoids-find_id p i xs e a.1 (ground arith)
]

pub Avoids-append :
    (p : Ptr) (xs : List Entry) (e : Entry) → Avoids p xs → e.node ≢ p → Avoids p (xs ++ e ∷ [])
Avoids-append p [] e a ne = (ne, tt)
Avoids-append p (x ∷ xs) e a ne = (a.0, Avoids-append p xs e a.1 ne)

pub Avoids-less : (p : Ptr) (e : Entry) (xs : List Entry) → Avoids p xs → Avoids p (unlink e xs)
Avoids-less p e [] a = tt
Avoids-less p e (x ∷ xs) a = elim (Bool-cases (x.node == e.node)) [
  | inl hit ↦ rw hit a.1
  | inr miss ↦ rw miss (a.0, Avoids-less p e xs a.1)
]
