-- ===== src/Tests/Trees.antt =====
-- The theorems on the tree of tags and on `plc_tag_create` at the sample state.
use plcstub.Base.{◌≡◌, refl, false, List, [], ◌∷◌, pos, none, some, arith, codes, replicate}
use plcstub.Bytes.{Bytes}
use plcstub.Outcome.{done, fault, null_pointer}
use plcstub.Types.{type_dup, type_size_bytes}
use plcstub.Env.Rb.{Entry, entry, list_tree}
use plcstub.Env.Heap.{get}
use plcstub.Env.Libc.{bump, top}
use plcstub.Status.{status_ok}
use plcstub.TagTree.State.{State}
use plcstub.TagTree.Ops.{next_id, alloc_node, buffer_size, tag_tree_insert, tag_tree_remove}
use plcstub.TagTree.Lookup.{IsReady}
use plcstub.TagTree.Order.{find_id}
use plcstub.TagTree.Create.Drop.{IsWithout}
use plcstub.TagTree.Create.Fresh.{IsWith}
use plcstub.TagTree.Create.Insert.{IsFresh, tag_tree_insert-IsWith}
use plcstub.TagTree.Remove.{tag_tree_remove-IsWithout}
use plcstub.Api.Create.{lint, plc_tag_create-join, create_protocol}
use plcstub.Api.Attrib.Laws.{join, last_name}
use plcstub.Api.Calls.{plc_tag_create}
use plcstub.Tests.Sample.{
  sample, new_node, lint_node, sample-IsReady, sample-IsSound, sample-MetatagFree,
}

new_alloc : alloc_node bump sample.heap (codes "tank") lint (pos 4) ≡ done (4, new_node)
unfolding alloc_node top type_dup buffer_size type_size_bytes
new_alloc = refl

new_next : next_id (some (entry (pos 3) 2)) ≡ done (pos 4)
unfolding next_id
new_next = refl

tag_tree_insert-IsWith_example :
    (s' : State (List Entry)) × (tag_tree_insert list_tree bump (codes "tank") lint sample
      ≡ done (pos 4, s'))
    × IsWith list_tree (pos 4) 4 new_node sample s'
    × IsReady s'
    × IsFresh bump sample.heap (codes "tank") lint (pos 4) 4 new_node
tag_tree_insert-IsWith_example =
    tag_tree_insert-IsWith list_tree bump (codes "tank") lint (pos 4) 4 new_node sample
      sample-IsReady sample-IsSound refl sample-MetatagFree new_next new_alloc

tag_tree_remove-IsWithout_example :
    (s' : State (List Entry)) × (tag_tree_remove list_tree bump (pos 2) sample
      ≡ done (status_ok, s'))
    × IsWithout list_tree (pos 2) sample s'
    × (get 1 s'.heap ≡ none)
    × IsReady s'
unfolding find_id get
tag_tree_remove-IsWithout_example =
    tag_tree_remove-IsWithout list_tree bump (pos 2) sample sample-IsReady sample-IsSound
      (entry (pos 2) 1) lint_node refl refl refl refl

-- protocol=ab&elem_size=4&name=tank
abbrev attribs : List (Bytes × Bytes)
attribs =
    (codes "protocol", codes "ab")
    ∷ (codes "elem_size", codes "4")
    ∷ (codes "name", codes "tank")
    ∷ []

joined : join attribs ≡ codes "protocol=ab&elem_size=4&name=tank"
joined = refl

plc_tag_create-join_example :
    (s' : State (List Entry)) × (plc_tag_create list_tree bump
        (codes "protocol=ab&elem_size=4&name=tank")
        (pos 1000)
        sample
      ≡ done (pos 4, s'))
    × IsWith list_tree (pos 4) 4 new_node sample s'
    × IsReady s'
    × (new_node.name ≡ codes "tank")
    × (new_node.type ≡ lint)
    × (new_node.contents ≡ replicate 8 0x42)
    × (new_node.locked ≡ false)
    × (new_node.cb ≡ none)
unfolding last_name
plc_tag_create-join_example =
    plc_tag_create-join list_tree bump (pos 1000) sample attribs (codes "tank") (pos 4) 4 new_node
      sample-IsReady sample-IsSound sample-MetatagFree (omega arith) refl refl refl new_next
      new_alloc

create_protocol_example :
    plc_tag_create list_tree bump (codes "protocol&name=tank") (pos 0) sample ≡ fault null_pointer
create_protocol_example = create_protocol list_tree bump (pos 0) sample (codes "name=tank")
