-- ===== src/TagTree/Nodes.antt =====
-- The nodes of the entries of src/tagtree.c, in the order of the tree.
use plcstub.Base.{◌≡◌, refl, some, List, [], ◌∷◌, ◌++◌, arith, ℤ, ◌<ℤ◌}
use plcstub.Env.Rb.{Entry}
use plcstub.Env.Heap.{Node, Heap, get}
use plcstub.TagTree.Order.{find_id, Above, Below, find_id-Above}
use plcstub.TagTree.Metanode.{nodes_at}

pub nodes-cons :
    (h : Heap) (x : Entry) (xs : List Entry) {n : Node}
    → get x.node h ≡ some n
    → nodes_at h (x ∷ xs) ≡ n ∷ nodes_at h xs
unfolding nodes_at
nodes-cons h x xs at = ground arith

-- Heaps with the same nodes for the entries.
pub nodes-ext :
    (k : ℤ) (g h : Heap) (xs : List Entry)
    → Above k xs
    → ((j : ℤ) (e : Entry) → find_id j xs ≡ some e → get e.node g ≡ get e.node h)
    → nodes_at g xs ≡ nodes_at h xs
unfolding nodes_at find_id
nodes-ext k g h [] a same = refl
nodes-ext k g h (x ∷ xs) a same =
    let here : get x.node g ≡ get x.node h = same x.tag_id x (ground arith) in
    let rest =
      nodes-ext x.tag_id g h xs a.1
        λ j e f. same j e (ground (arith, find_id-Above j x.tag_id xs a.1)) in
    ground (arith, here, rest)

pub Below-append :
    (k : ℤ) (xs : List Entry) (e : Entry) → Below k xs → e.tag_id <ℤ k → Below k (xs ++ e ∷ [])
Below-append k [] e b lt = (lt, tt)
Below-append k (x ∷ xs) e b lt = (b.0, Below-append k xs e b.1 lt)

pub Below-weaken : (k m : ℤ) (xs : List Entry) → Below k xs → k <ℤ m → Below m xs
Below-weaken k m [] b lt = tt
Below-weaken k m (x ∷ xs) b lt = (omega arith, Below-weaken k m xs b.1 lt)

pub nodes-append :
    (h : Heap) (xs : List Entry) (e : Entry) (n : Node)
    → get e.node h ≡ some n
    → nodes_at h (xs ++ e ∷ []) ≡ nodes_at h xs ++ n ∷ []
unfolding nodes_at
nodes-append h [] e n at = ground arith
nodes-append h (x ∷ xs) e n at = ground (arith, nodes-append h xs e n at)
