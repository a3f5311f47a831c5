-- ===== src/Tests/Sample.antt =====
-- A state with three tags: the metatag at address 3, a LINT with a callback at 1, an array of four
-- DINTs at 2. The tree is a list and the allocator never fails.
use plcstub.Base.{◌≡◌, refl, true, false, List, [], ◌∷◌, pos, none, some, replicate, codes}
use plcstub.Types.{word, array}
use plcstub.Env.Rb.{Ptr, Entry, entry, list_tree, list_find, tagcmp}
use plcstub.Env.Heap.{Node, get}
use plcstub.TagTree.State.{State, free}
use plcstub.Parallel.Discipline.{lock_count}
use plcstub.TagTree.Lookup.{IsReady}
use plcstub.TagTree.Sound.{IsSound}
use plcstub.TagTree.Create.Drop.{MetatagFree}
use plcstub.TagTree.Order.{find_id}
use plcstub.Api.RoundTrip.{IsTag}
use native.Mathlib.Omega.{arith}

abbrev pub lint_node : Node
lint_node = record {
  tag_id = pos 2;
  name = codes "a";
  cb = some 9;
  locked = false;
  type = word 6;
  contents = replicate 8 0x42;
}

abbrev pub array_node : Node
array_node = record {
  tag_id = pos 3;
  name = codes "b";
  cb = none;
  locked = false;
  type = array 4 (word 4);
  contents = replicate 16 0;
}

abbrev pub meta_node : Node
meta_node = record {
  tag_id = pos 1;
  name = codes "@tags";
  cb = none;
  locked = false;
  type = array 46 (word 2);
  contents = replicate 46 0;
}

abbrev pub entries : List Entry
entries = entry (pos 1) 3 ∷ entry (pos 2) 1 ∷ entry (pos 3) 2 ∷ []

abbrev pub sample : State (List Entry)
sample = record {
  tree = entries;
  tree_size = 3;
  tag_tree_inited = true;
  tag_tree_mtx = free;
  heap = (1, lint_node) ∷ (2, array_node) ∷ (3, meta_node) ∷ [];
  events = [];
}

pub sample-IsReady : IsReady sample
sample-IsReady = record { inited = refl; unlocked = refl }

pub sample-IsSound : IsSound list_tree sample
unfolding get
sample-IsSound = record {
  ordered = omega arith;
  nonnull = omega arith;
  live = ((meta_node, refl, refl), ((lint_node, refl, refl), ((array_node, refl, refl), tt)));
}

pub sample-MetatagFree : MetatagFree list_tree sample sample-IsSound
unfolding find_id get
sample-MetatagFree e m f at = ground arith

pub lint-IsTag : IsTag list_tree sample (pos 2) (entry (pos 2) 1) lint_node
unfolding list_find tagcmp get
lint-IsTag = record { ready = sample-IsReady; found = refl; at = refl; free = refl }

pub array-IsTag : IsTag list_tree sample (pos 3) (entry (pos 3) 2) array_node
unfolding list_find tagcmp get
array-IsTag = record { ready = sample-IsReady; found = refl; at = refl; free = refl }

-- The sample before anybody looked at the metatag.
abbrev pub plain_sample : State (List Entry)
plain_sample = record {
  tree = entry (pos 2) 1 ∷ entry (pos 3) 2 ∷ [];
  tree_size = 2;
  tag_tree_inited = true;
  tag_tree_mtx = free;
  heap = (1, lint_node) ∷ (2, array_node) ∷ [];
  events = [];
}

pub plain_sample-IsReady : IsReady plain_sample
plain_sample-IsReady = record { inited = refl; unlocked = refl }

pub plain_sample-IsSound : IsSound list_tree plain_sample
unfolding get
plain_sample-IsSound = record {
  ordered = omega arith;
  nonnull = omega arith;
  live = ((lint_node, refl, refl), ((array_node, refl, refl), tt));
}

-- The node that a new tag gets.
abbrev pub new_node : Node
new_node = record {
  tag_id = pos 4;
  name = codes "tank";
  cb = none;
  locked = false;
  type = word 6;
  contents = replicate 8 0x42;
}

pub sample_unlocked : (q : Ptr) → lock_count sample.heap q ≡ 0
unfolding lock_count get
sample_unlocked q = ground arith
