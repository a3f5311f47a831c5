-- ===== src/Env/Heap.antt =====
-- The nodes of the library at their addresses: `struct tag_tree_node` of include/tagtree.h.
use plcstub.Base.{
  ℕ, ◌≡◌, refl, Bool, Option, none, some, List, [], ◌∷◌, arith, ℤ, ◌==◌, if◌then◌else◌,
}
use plcstub.Types.{TypeT}
use plcstub.Bytes.{Bytes}
use plcstub.Env.Rb.{Ptr}

-- The fields of a node behind its tree links. `cb` is the address of the callback, `locked` tells
-- whether `mtx` is held, and `data` is the buffer's contents.
pub record Node : Type 0 where
  pub tag_id : ℤ
  pub name : Bytes
  pub cb : Option ℕ
  pub locked : Bool
  pub type : TypeT
  pub contents : Bytes

abbrev pub Heap : Type 0
Heap = List (Ptr × Node)

-- `none`: there is no node at the address.
unfoldable pub get : Ptr → Heap → Option Node
get p [] = none
get p ((q, n) ∷ h) = if p == q then some n else get p h

unfoldable pub delete : Ptr → Heap → Heap
delete p [] = []
delete p ((q, n) ∷ h) = let rest = delete p h in if p == q then rest else (q, n) ∷ rest

unfoldable pub put : Ptr → Node → Heap → Heap
unfolding delete
put p n h = (p, n) ∷ delete p h

pub get-delete : (p q : Ptr) (h : Heap) → get q (delete p h) ≡ (if q == p then none else get q h)
unfolding get delete
get-delete p q [] = ground arith
get-delete p q ((r, n) ∷ h) = ground (arith, get-delete p q h)

pub get-put :
    (p q : Ptr) (n : Node) (h : Heap) → get q (put p n h) ≡ (if q == p then some n else get q h)
unfolding get put
get-put p q n h = ground (arith, get-delete p q h)

pub get-empty : (p : Ptr) → get p [] ≡ none
unfolding get
get-empty p = refl

pub ruleset heap_laws = (get-put, get-delete, get-empty)
