-- ===== src/Env/Rb.antt =====
-- The tree of include/sys/tree.h, as src/tagtree.c uses it: a parameter of the model. A tree holds
-- entries, the nodes as the comparison sees them: a tag's id and the address of its node.
use plcstub.Base.{
  ℕ, ◌≡◌, refl, Option, none, some, List, [], ◌∷◌, ℤ, pos, negsuc, ltb_ℤ, ◌==ℤ◌, ◌==◌,
  if◌then◌else◌,
}

-- The address of a node; 0 is NULL.
abbrev pub Ptr : Type 0
Ptr = ℕ

pub record Entry : Type 0 where
  pub tag_id : ℤ
  pub node : Ptr

abbrev pub entry : ℤ → Ptr → Entry
entry i p = record { tag_id = i; node = p }

-- `tagcmp` of src/tagtree.c
unfoldable pub tagcmp : Entry → Entry → ℤ
tagcmp lhs rhs =
    if ltb_ℤ lhs.tag_id rhs.tag_id
    then negsuc 0
    else if ltb_ℤ rhs.tag_id lhs.tag_id
    then pos 1
    else pos 0

-- What the operations of the tree mean for the sequence of its entries.
module _ (cmp : Entry → Entry → ℤ) where
  -- The entry that compares equal.
  abbrev pub first_equal : Entry → List Entry → Option Entry
  first_equal e [] = none
  first_equal e (x ∷ xs) = if cmp e x ==ℤ pos 0 then some x else first_equal e xs

  -- In front of the first entry that is not smaller; an entry that compares equal keeps its place.
  abbrev pub put_in_order : Entry → List Entry → List Entry
  put_in_order e [] = e ∷ []
  put_in_order e (x ∷ xs) =
      if ltb_ℤ (cmp e x) (pos 0)
      then e ∷ x ∷ xs
      else if ltb_ℤ (pos 0) (cmp e x)
      then x ∷ put_in_order e xs
      else x ∷ xs

-- Without the node of the entry.
abbrev pub unlink : Entry → List Entry → List Entry
unlink e [] = []
unlink e (x ∷ xs) = if x.node == e.node then xs else x ∷ unlink e xs

abbrev pub last_entry : List Entry → Option Entry
last_entry [] = none
last_entry (x ∷ []) = some x
last_entry (x ∷ y ∷ xs) = last_entry (y ∷ xs)

-- `T` is the type of tree heads. The operations are RB_INITIALIZER, RB_FOREACH (the sequence that it
-- goes through), RB_FIND, RB_INSERT, RB_REMOVE and RB_MAX over `tagcmp`.
pub record RbTree (T : Type 0) : Type 0 where
  pub empty : T
  pub elements : T → List Entry
  pub find : T → Entry → Option Entry
  pub insert : T → Entry → T
  pub remove : T → Entry → T
  pub maximum : T → Option Entry
  pub elements-empty : elements empty ≡ []
  pub find_lem : (t : T) (e : Entry) → find t e ≡ first_equal tagcmp e (elements t)
  pub elements-insert :
      (t : T) (e : Entry) → elements (insert t e) ≡ put_in_order tagcmp e (elements t)
  pub elements-remove :
      (t : T) (e x : Entry) → find t x ≡ some e → elements (remove t e) ≡ unlink e (elements t)
  pub maximum_lem : (t : T) → maximum t ≡ last_entry (elements t)

-- The laws can be met: a list of entries.
unfoldable pub list_insert : List Entry → Entry → List Entry
unfolding tagcmp
list_insert t e = put_in_order tagcmp e t

unfoldable pub list_find : List Entry → Entry → Option Entry
unfolding tagcmp
list_find t e = first_equal tagcmp e t

pub list_find_lem : (t : List Entry) (e : Entry) → list_find t e ≡ first_equal tagcmp e t
unfolding list_find
list_find_lem t e = refl

pub list_insert_lem : (t : List Entry) (e : Entry) → list_insert t e ≡ put_in_order tagcmp e t
unfolding list_insert
list_insert_lem t e = refl

abbrev pub list_tree : RbTree (List Entry)
list_tree = record {
  empty = [];
  elements = λ t. t;
  find = list_find;
  insert = list_insert;
  remove = λ t e. unlink e t;
  maximum = last_entry;
  elements-empty = refl;
  find_lem = list_find_lem;
  elements-insert = list_insert_lem;
  elements-remove = λ t e x h. refl;
  maximum_lem = λ t. refl;
}
