-- ===== src/Tests/Listings.antt =====
-- The theorems on the metatag at the sample state that has none.
use plcstub.Base.{◌≡◌, ◌%◌, refl, List, [], ◌∷◌, pos, some, codes, map, length}
use plcstub.Outcome.{done}
use plcstub.Types.{word, array, u16, type_size_bytes}
use plcstub.Bytes.{encode}
use plcstub.Env.Rb.{Entry, entry, list_tree}
use plcstub.Env.Heap.{Node, get}
use plcstub.Env.Libc.{bump, top}
use plcstub.TagTree.State.{State}
use plcstub.TagTree.Metatag.{meta_entry, first_dim}
use plcstub.TagTree.Ops.{tag_tree_lookup}
use plcstub.TagTree.Lookup.{IsReady}
use plcstub.TagTree.Order.{find_id}
use plcstub.TagTree.Sound.{IsSound}
use plcstub.TagTree.Listing.{listing}
use plcstub.TagTree.Readback.{Row, row, read_rows}
use plcstub.TagTree.Metanode.{nodes_at, tag_tree_lookup-metatag}
use plcstub.Tests.Sample.{
  plain_sample, plain_sample-IsReady, plain_sample-IsSound, lint_node, array_node,
}
use native.Mathlib.Omega.{arith}

-- What the metatag lists there.
abbrev sample_rows : List Row
sample_rows =
    record { row_id = 2; elem_size = 8; dim = 0; row_name = codes "a" }
    ∷ record { row_id = 3; elem_size = 16; dim = 4; row_name = codes "b" }
    ∷ []

rows : map row (lint_node ∷ array_node ∷ []) ≡ sample_rows
unfolding type_size_bytes first_dim
rows = refl

tag_tree_lookup-metatag_example :
    (s' : State (List Entry)) × (m : Node) × (tag_tree_lookup list_tree bump (pos 1) plain_sample
      ≡ done (some 3, s'))
    × (get 3 s'.heap ≡ some m)
    × (read_rows 2 m.contents ≡ map row (lint_node ∷ array_node ∷ []))
    × (m.type ≡ array (length m.contents % u16) (word 2))
    × (s'.tree ≡ entry (pos 1) 3 ∷ plain_sample.tree)
    × IsSound list_tree s'
    × IsReady s'
unfolding find_id get nodes_at listing meta_entry encode top
tag_tree_lookup-metatag_example =
    tag_tree_lookup-metatag list_tree bump plain_sample 3 plain_sample-IsReady plain_sample-IsSound
      refl refl refl refl refl (omega arith) (omega arith)
