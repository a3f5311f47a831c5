-- ===== src/TagTree/Same.antt =====
-- A tree of tags is determined by what is found in it.
use plcstub.Base.{
  ◌≡◌, refl, sym, ap, ◌∙◌, Option, none, some, List, map, [], ◌∷◌, arith, ℤ, ◌<ℤ◌, ◌==ℤ◌, eq_of_==ℤ,
  Bool-cases, inl, inr,
}
use plcstub.Env.Rb.{Entry}
use plcstub.Env.Heap.{Node, Heap, get}
use plcstub.TagTree.Order.{find_id, Above, Below, find_id-Above}

-- What is found lies above the bound.
above_found : (k i : ℤ) (xs : List Entry) (e : Entry) → Above k xs → find_id i xs ≡ some e → k <ℤ i
above_found k i xs e h f = ground (arith, find_id-Above i k xs h)

pub find_id-Below : (i : ℤ) (xs : List Entry) → Below i xs → find_id i xs ≡ none
unfolding find_id
find_id-Below i [] b = refl
find_id-Below i (x ∷ xs) b = ground (arith, find_id-Below i xs b.1, eq_of_==ℤ i x.tag_id)

found_head : (x : Entry) (xs : List Entry) → find_id x.tag_id (x ∷ xs) ≡ some x
unfolding find_id
found_head x xs = ground arith

-- The first entries are the same.
same_head :
    (k : ℤ) (x y : Entry) (xs ys : List Entry)
    → Above k (x ∷ xs)
    → Above k (y ∷ ys)
    → ((j : ℤ) → find_id j (x ∷ xs) ≡ find_id j (y ∷ ys))
    → x ≡ y
unfolding find_id
same_head k x y xs ys h g same =
    let in_ys = sym (same x.tag_id) ∙ found_head x xs in
    let in_xs = same y.tag_id ∙ found_head y ys in
    ground (arith, above_found y.tag_id x.tag_id ys x g.1, above_found x.tag_id y.tag_id xs y h.1)

same_tail :
    (j : ℤ) (x : Entry) (xs ys : List Entry)
    → Above x.tag_id xs
    → Above x.tag_id ys
    → find_id j (x ∷ xs) ≡ find_id j (x ∷ ys)
    → find_id j xs ≡ find_id j ys
unfolding find_id
same_tail j x xs ys h g same = elim (Bool-cases (j ==ℤ x.tag_id)) [
  | inl hit ↦
      let le = eq_of_==ℤ j x.tag_id hit in
      ground (arith, find_id-Above j x.tag_id xs h, find_id-Above j x.tag_id ys g)
  | inr miss ↦ ground arith
]

pub find_id-ext :
    (k : ℤ) (xs ys : List Entry)
    → Above k xs
    → Above k ys
    → ((j : ℤ) → find_id j xs ≡ find_id j ys)
    → xs ≡ ys
unfolding find_id
find_id-ext k [] [] h g same = refl
find_id-ext k [] (y ∷ ys) h g same =
    let f = same y.tag_id ∙ found_head y ys in absurd (ground arith)
find_id-ext k (x ∷ xs) [] h g same =
    let f = sym (same x.tag_id) ∙ found_head x xs in absurd (ground arith)
find_id-ext k (x ∷ xs) (y ∷ ys) h g same =
    let e = same_head k x y xs ys h g same in
    let g' : Above x.tag_id ys = rw e g.1 in
    let same' : (j : ℤ) → find_id j (x ∷ xs) ≡ find_id j (x ∷ ys) =
      λ j. same j ∙ ap (λ (z : Entry). find_id j (z ∷ ys)) (sym e) in
    rw e (
      ap (λ zs. y ∷ zs)
        (find_id-ext x.tag_id xs ys h.1 g' (λ j. same_tail j x xs ys h.1 g' (same' j))))

-- The tags of a tree: its entries, each with its node.
abbrev pub tags : Heap → List Entry → List (Entry × Option Node)
tags h xs = map (λ e. (e, get e.node h)) xs

pub tags-ext :
    (k : ℤ) (g h : Heap) (xs : List Entry)
    → Above k xs
    → ((j : ℤ) (e : Entry) → find_id j xs ≡ some e → get e.node g ≡ get e.node h)
    → tags g xs ≡ tags h xs
unfolding find_id
tags-ext k g h [] a same = refl
tags-ext k g h (x ∷ xs) a same = rw (
  same x.tag_id x (found_head x xs),
  tags-ext x.tag_id g h xs a.1 (λ j e f. same j e (found_tail j e f)),
)
  where
    found_tail : (j : ℤ) (e : Entry) → find_id j xs ≡ some e → find_id j (x ∷ xs) ≡ some e
    found_tail j e f = ground (arith, above_found x.tag_id j xs e a.1 f)
