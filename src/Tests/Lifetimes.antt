-- ===== src/Tests/Lifetimes.antt =====
-- The theorems on the life of a tag at the sample states.
use plcstub.Base.{◌≡◌, refl, List, [], ◌∷◌, pos, codes, List}
use plcstub.Bytes.{Bytes}
use plcstub.Outcome.{done}
use plcstub.Types.{type_dup, type_size_bytes}
use plcstub.Env.Rb.{Entry, list_tree}
use plcstub.Env.Libc.{bump, top}
use plcstub.Status.{status_ok}
use plcstub.TagTree.State.{State}
use plcstub.TagTree.Ops.{next_id, alloc_node, buffer_size}
use plcstub.TagTree.Lookup.{IsReady}
use plcstub.TagTree.Order.{find_id}
use plcstub.TagTree.Same.{tags}
use plcstub.TagTree.Sound.{IsSound}
use plcstub.Api.Access.{int64, uint64, plc_tag_set, plc_tag_get}
use plcstub.Api.Attrib.Laws.{last_name}
use plcstub.Api.Calls.{plc_tag_create, plc_tag_destroy}
use plcstub.Api.Lifetime.{create-set-get, destroy-create}
use plcstub.Tests.Sample.{
  sample, sample-IsReady, sample-IsSound, sample-MetatagFree, plain_sample, plain_sample-IsReady,
  plain_sample-IsSound, new_node,
}
use native.Mathlib.Omega.{arith}

-- name=tank&elem_size=8
abbrev attribs : List (Bytes × Bytes)
attribs = (codes "name", codes "tank") ∷ (codes "elem_size", codes "8") ∷ []

create-set-get_example :
    (s₁ : State (List Entry)) × (s₂ : State (List Entry)) × (s₃ : State (List Entry))
    × (plc_tag_create list_tree bump (codes "name=tank&elem_size=8") (pos 9) sample
        ≡ done (pos 4, s₁))
    × (plc_tag_set list_tree bump int64 (pos 4) (pos 0) 123456789 s₁ ≡ done (status_ok, s₂))
    × (plc_tag_get list_tree bump (λ w e. 0) uint64 (pos 4) (pos 0) s₂ ≡ done (123456789, s₃))
unfolding last_name next_id alloc_node top type_dup buffer_size type_size_bytes
create-set-get_example =
    create-set-get list_tree bump (pos 9) sample attribs (codes "tank") (pos 4) 4 new_node
      sample-IsReady sample-IsSound (λ w e. 0) int64 uint64 123456789 sample-MetatagFree
      (omega arith) refl refl refl refl refl (omega arith) refl

destroy-create_example :
    (s₁ : State (List Entry)) × (s₂ : State (List Entry)) × (plc_tag_create list_tree bump
        (codes "name=tank&elem_size=8")
        (pos 9)
        plain_sample
      ≡ done (pos 4, s₁))
    × (plc_tag_destroy list_tree bump (pos 4) s₁ ≡ done (status_ok, s₂))
    × (tags s₂.heap s₂.tree ≡ tags plain_sample.heap plain_sample.tree)
    × IsSound list_tree s₂
    × IsReady s₂
    × (next_id (list_tree.maximum s₂.tree) ≡ done (pos 4))
unfolding last_name next_id alloc_node top type_dup buffer_size type_size_bytes find_id
destroy-create_example =
    destroy-create list_tree bump (pos 9) plain_sample attribs (codes "tank") (pos 4) 3 new_node
      plain_sample-IsReady plain_sample-IsSound refl (omega arith) refl refl refl refl refl
