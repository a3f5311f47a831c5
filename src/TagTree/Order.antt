-- ===== src/TagTree/Order.antt =====
-- The entries of a tree in the order of their IDs: what finding, inserting and removing mean there.
use plcstub.Base.{
  ◌≡◌, refl, ◌∙◌, false, Option, none, some, List, [], ◌∷◌, ◌++◌, arith, ℤ, ◌<ℤ◌, ◌≤ℤ◌, ◌==ℤ◌,
  eq_of_==ℤ, Bool-cases, inl, inr, ◌==◌, ==-refl, if◌then◌else◌,
}
use plcstub.Env.Rb.{
  Ptr, Entry, entry, RbTree, tagcmp, first_equal, put_in_order, unlink, last_entry,
}
use plcstub.Env.Heap.{Node, Heap, get}

-- The entry with an ID.
unfoldable pub find_id : ℤ → List Entry → Option Entry
find_id i [] = none
find_id i (x ∷ xs) = if i ==ℤ x.tag_id then some x else find_id i xs

-- The IDs grow from entry to entry, and all lie above `k`.
abbrev pub Above : ℤ → List Entry → Type 0
Above k [] = Unit
Above k (x ∷ xs) = (k <ℤ x.tag_id) × Above x.tag_id xs

first_equal-find_id :
    (i : ℤ) (p : Ptr) (xs : List Entry) → first_equal tagcmp (entry i p) xs ≡ find_id i xs
unfolding find_id tagcmp
first_equal-find_id i p [] = refl
first_equal-find_id i p (x ∷ xs) = ground (arith, first_equal-find_id i p xs)

pub rb_find-find_id :
    {T : Type 0} (rb : RbTree T) (t : T) (i : ℤ) (p : Ptr)
    → rb.find t (entry i p) ≡ find_id i (rb.elements t)
rb_find-find_id rb t i p = rb.find_lem t (entry i p) ∙ first_equal-find_id i p (rb.elements t)

pub Above-weaken : (j k : ℤ) (xs : List Entry) → Above k xs → j ≤ℤ k → Above j xs
Above-weaken j k [] h le = tt
Above-weaken j k (x ∷ xs) h le = (omega arith, h.1)

-- An ID that is not above the bound is not there.
pub find_id-Above : (i k : ℤ) (xs : List Entry) → Above k xs → i ≤ℤ k → find_id i xs ≡ none
unfolding find_id
find_id-Above i k [] h le = refl
find_id-Above i k (x ∷ xs) h le = ground (arith, find_id-Above i x.tag_id xs)

-- All IDs are at most that of the last entry.
abbrev pub Below : ℤ → List Entry → Type 0
Below k [] = Unit
Below k (x ∷ xs) = (x.tag_id <ℤ k) × Below k xs

pub last_entry-Above :
    (k : ℤ) (xs : List Entry) (m : Entry) → Above k xs → last_entry xs ≡ some m → k <ℤ m.tag_id
last_entry-Above k [] m h e = absurd (ground arith)
last_entry-Above k (x ∷ []) m h e = ground arith
last_entry-Above k (x ∷ y ∷ xs) m h e = omega (arith, last_entry-Above x.tag_id (y ∷ xs) m h.1 e)

pub Below-last_entry :
    (k j : ℤ) (xs : List Entry) (m : Entry)
    → Above k xs
    → last_entry xs ≡ some m
    → m.tag_id <ℤ j
    → Below j xs
Below-last_entry k j [] m h e lt = tt
Below-last_entry k j (x ∷ []) m h e lt = (ground arith, tt)
Below-last_entry k j (x ∷ y ∷ xs) m h e lt = (
  omega (arith, last_entry-Above x.tag_id (y ∷ xs) m h.1 e),
  Below-last_entry x.tag_id j (y ∷ xs) m h.1 e lt,
)

-- An entry above all goes to the end.
pub put_in_order-Below :
    (e : Entry) (xs : List Entry) → Below e.tag_id xs → put_in_order tagcmp e xs ≡ xs ++ e ∷ []
unfolding tagcmp
put_in_order-Below e [] h = refl
put_in_order-Below e (x ∷ xs) h = ground (arith, put_in_order-Below e xs h.1)

pub Above-append :
    (k : ℤ) (e : Entry) (xs : List Entry)
    → Above k xs
    → Below e.tag_id xs
    → k <ℤ e.tag_id
    → Above k (xs ++ e ∷ [])
Above-append k e [] h b lt = (lt, tt)
Above-append k e (x ∷ xs) h b lt = (h.0, Above-append x.tag_id e xs h.1 b.1 b.0)

pub find_id-append :
    (i : ℤ) (e : Entry) (xs : List Entry)
    → Below e.tag_id xs
    → find_id i (xs ++ e ∷ []) ≡ (if i ==ℤ e.tag_id then some e else find_id i xs)
unfolding find_id
find_id-append i e [] b = refl
find_id-append i e (x ∷ xs) b = ground (arith, find_id-append i e xs b.1)

-- The node at the entry's address is allocated and carries the entry's ID.
abbrev pub Owns : Heap → Entry → Type 0
Owns h e = (n : Node) × (get e.node h ≡ some n) × (n.tag_id ≡ e.tag_id)

abbrev pub Live : Heap → List Entry → Type 0
Live h [] = Unit
Live h (x ∷ xs) = Owns h x × Live h xs

pub find_id-some : (i : ℤ) (xs : List Entry) (e : Entry) → find_id i xs ≡ some e → e.tag_id ≡ i
unfolding find_id
find_id-some i [] e f = absurd (ground arith)
find_id-some i (x ∷ xs) e f = ground (arith, find_id-some i xs e, eq_of_==ℤ i x.tag_id)

pub Owns-find_id :
    (h : Heap) (i : ℤ) (xs : List Entry) (e : Entry) → Live h xs → find_id i xs ≡ some e → Owns h e
unfolding find_id
Owns-find_id h i [] e l f = absurd (ground arith)
Owns-find_id h i (x ∷ xs) e l f = elim (Bool-cases (i ==ℤ x.tag_id)) [
  | inl hit ↦ let same : x ≡ e = ground arith in rw (← same) l.0
  | inr miss ↦ Owns-find_id h i xs e l.1 (ground arith)
]

-- Two entries of one address have one ID.
pub Owns-same :
    (h : Heap) (a b : Entry) → Owns h a → Owns h b → a.node ≡ b.node → a.tag_id ≡ b.tag_id
Owns-same h a b (n, e, i) (m, f, j) same = ground arith

-- Taking the entry with an ID out leaves the others.
pub find_id-unlink :
    (h : Heap) (k i j : ℤ) (xs : List Entry) (e : Entry)
    → Above k xs
    → Live h xs
    → find_id i xs ≡ some e
    → find_id j (unlink e xs) ≡ (if j ==ℤ i then none else find_id j xs)
unfolding find_id
find_id-unlink h k i j [] e s l f = absurd (ground arith)
find_id-unlink h k i j (x ∷ xs) e s l f = elim (Bool-cases (i ==ℤ x.tag_id)) [
  | inl hit ↦
      let same : x ≡ e = ground arith in
      rw (← same, ==-refl x.node)
        (ground
          (arith, eq_of_==ℤ i x.tag_id, eq_of_==ℤ j i, find_id-Above x.tag_id x.tag_id xs s.1))
  | inr miss ↦
      let f' : find_id i xs ≡ some e = ground arith in
      let apart : (x.node == e.node) ≡ false =
        ground
          (arith, Owns-same h x e l.0 (Owns-find_id h i xs e l.1 f'), find_id-some i xs e f') in
      rw apart (ground (arith, find_id-unlink h x.tag_id i j xs e s.1 l.1 f', eq_of_==ℤ j i))
]
