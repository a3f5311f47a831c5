-- ===== src/Tests/Sessions.antt =====
-- The theorems on sequences of calls at the sample states.
use plcstub.Base.{◌%◌, map, ◌≡◌, refl, List, [], ◌∷◌, pos, some, codes, length, inl, inr}
use plcstub.Outcome.{done}
use plcstub.Env.Rb.{Ptr, Entry, entry, list_tree}
use plcstub.Env.Libc.{bump}
use plcstub.Api.Access.{int64, uint8, uint64}
use plcstub.Session.{Call, Result, create, destroy, get, set, read, register, status, session}
use plcstub.Env.Heap.{Node, get as heap_get}
use plcstub.TagTree.Metanode.{nodes_at}
use plcstub.Api.Attrib.{strtok, scan}
use plcstub.Session.Spec.{spec_session, drop_tag, new_tag, find_tag}
use plcstub.Session.Untouched.{tag_untouched}
use plcstub.Session.View.{view}
use plcstub.Session.Invariant.{IsInvariant}
use plcstub.Session.Lift.{Agrees}
use plcstub.Session.Refines.{session-Agrees}
use plcstub.Session.Calm.{scalar}
use plcstub.Session.Returns.{AreCalm}
use plcstub.Session.Clients.{clients_return}
use plcstub.TagTree.State.{State}
use plcstub.Types.{type_to_enum, type_new_simple, array, word, u16}
use plcstub.Bytes.{encode}
use plcstub.TagTree.Ops.{metatag_id, meta_name, next_id, tag_tree_lookup, tag_tree_insert}
use plcstub.TagTree.Order.{find_id}
use plcstub.Api.Create.{lint}
use plcstub.Session.Drift.{tree_size_drifts}
use plcstub.TagTree.Metatag.{meta_entry}
use plcstub.TagTree.Listing.{listing}
use plcstub.TagTree.Readback.{row, read_rows}
use plcstub.Session.Relist.{tag_tree_insert-metatag}
use plcstub.Tests.Sample.{
  sample, array_node, sample-IsReady, sample-IsSound, sample-MetatagFree, plain_sample, lint_node,
  plain_sample-IsReady, plain_sample-IsSound,
}
use plcstub.Tests.Startups.{bump-IsGenerous}
use native.Mathlib.Omega.{arith}

pub plain_sample-IsInvariant : IsInvariant list_tree plain_sample
unfolding nodes_at heap_get
plain_sample-IsInvariant = record {
  ready = plain_sample-IsReady;
  sound = plain_sample-IsSound;
  ints = omega arith;
  short = (omega arith, (omega arith, tt));
}

-- A client that makes a tag, uses it, reads the metatag and destroys the tag.
abbrev client : List Call
client =
    create (codes "name=tank") (pos 9)
    ∷ set int64 (pos 4) (pos 0) 77
    ∷ register (pos 4) (some 5)
    ∷ read (pos 4) (pos 0)
    ∷ get uint64 (pos 4) (pos 0)
    ∷ get uint8 (pos 1) (pos 0)
    ∷ destroy (pos 4)
    ∷ status (pos 4)
    ∷ []

session-Agrees_example :
    Agrees list_tree
      (session list_tree bump (λ w e. 0) client plain_sample)
      (spec_session (λ w e. 0) client (view list_tree plain_sample))
unfolding strtok scan
session-Agrees_example =
    session-Agrees list_tree bump bump-IsGenerous (λ w e. 0) client plain_sample
      plain_sample-IsInvariant ((refl, omega arith), (tt, (tt, (tt, (tt, (tt, (tt, (tt, tt))))))))

-- The tags of the sample hold no mutex, and the LINT has room; the array is no tag of calm clients.
abbrev pub lint_sample : State (List Entry)
lint_sample = record plain_sample { tree = entry (pos 2) 1 ∷ []; heap = (1, lint_node) ∷ [] }

pub lint_sample-IsInvariant : IsInvariant list_tree lint_sample
unfolding nodes_at heap_get
lint_sample-IsInvariant = record {
  ready = record { inited = refl; unlocked = refl };
  sound = record {
    ordered = omega arith;
    nonnull = omega arith;
    live = ((lint_node, refl, refl), tt);
  };
  ints = omega arith;
  short = (omega arith, tt);
}

pub lint_sample-AreCalm : AreCalm 3 (view list_tree lint_sample).tags
unfolding nodes_at heap_get type_to_enum
lint_sample-AreCalm = ((refl, scalar refl (omega arith)), omega arith, tt)

-- A client that makes a tag, writes to it, reads the metatag and destroys the tag.
abbrev calm_client : List Call
calm_client =
    create (codes "name=tank") (pos 9)
    ∷ set int64 (pos 3) (pos 0) 77
    ∷ get uint64 (pos 3) (pos 0)
    ∷ get uint8 (pos 1) (pos 0)
    ∷ destroy (pos 3)
    ∷ []

clients_return_example :
    (rs : List Result) × (s' : State (List Entry)) × (session list_tree bump
        (λ w e. 0)
        calm_client
        lint_sample
      ≡ done (rs, s'))
    × (length rs ≡ 5)
    × IsInvariant list_tree s'
    × AreCalm 8 (view list_tree s').tags
unfolding strtok scan
clients_return_example =
    clients_return list_tree bump bump-IsGenerous (λ w e. 0) 3 calm_client lint_sample
      lint_sample-IsInvariant lint_sample-AreCalm (omega arith) (omega arith)
      ((refl, omega arith), (tt, (tt, (tt, (tt, tt)))))
      (
        tt,
        ((omega arith, inl refl), ((omega arith, inl refl), ((omega arith, inr refl), (tt, tt)))),
      )

-- The sample has a metatag, which is made again.
sample-IsInvariant : IsInvariant list_tree sample
unfolding nodes_at heap_get
sample-IsInvariant = record {
  ready = sample-IsReady;
  sound = sample-IsSound;
  ints = omega arith;
  short = (omega arith, (omega arith, (omega arith, tt)));
}

tag_tree_insert-metatag_example :
    (s' : State (List Entry)) × (m : Node) × (tag_tree_insert list_tree bump meta_name
        (type_new_simple 6)
        sample
      ≡ done (pos 1, s'))
    × (nodes_at s'.heap s'.tree ≡ m ∷ lint_node ∷ array_node ∷ [])
    × (m.tag_id ≡ pos 1)
    × (m.type ≡ array (length m.contents % u16) (word 2))
    × (length m.contents ≡ 73)
    × (read_rows 2 m.contents ≡ map row (lint_node ∷ array_node ∷ []))
    × IsInvariant list_tree s'
unfolding nodes_at heap_get drop_tag listing meta_entry encode
tag_tree_insert-metatag_example =
    tag_tree_insert-metatag list_tree bump bump-IsGenerous sample sample-IsInvariant
      (type_new_simple 6) sample-MetatagFree

tree_size_drifts_example :
    (s₁ : State (List Entry)) × (s₂ : State (List Entry)) × (p : Ptr) × (tag_tree_lookup list_tree
        bump metatag_id plain_sample
      ≡ done (some p, s₁))
    × (tag_tree_insert list_tree bump (codes "tank") lint s₁ ≡ done (pos 4, s₂))
    × (nodes_at s₂.heap s₂.tree ≡ lint_node ∷ array_node ∷ new_tag (codes "tank") (pos 4) ∷ [])
    × (s₂.tree_size ≡ 2)
unfolding nodes_at heap_get find_id next_id
tree_size_drifts_example =
    tree_size_drifts list_tree bump bump-IsGenerous plain_sample plain_sample-IsInvariant
      (codes "tank") (pos 4) refl refl refl (omega arith)

-- A client of another tag.
abbrev neighbour : List Call
neighbour =
    create (codes "name=tank") (pos 9)
    ∷ set int64 (pos 3) (pos 0) 77
    ∷ get uint8 (pos 1) (pos 0)
    ∷ destroy (pos 3)
    ∷ []

tag_untouched_example :
    (rs : List Result) × (s' : State (List Entry)) × (session list_tree bump
        (λ w e. 0)
        neighbour
        lint_sample
      ≡ done (rs, s'))
    × (find_tag (pos 2) (view list_tree s').tags ≡ some lint_node)
unfolding strtok scan nodes_at heap_get find_tag
tag_untouched_example =
    tag_untouched list_tree bump bump-IsGenerous (λ w e. 0) (pos 2) lint_node 3 neighbour
      lint_sample lint_sample-IsInvariant lint_sample-AreCalm (omega arith) (omega arith)
      ((refl, omega arith), (tt, (tt, (tt, tt))))
      (tt, ((omega arith, inl refl), ((omega arith, inr refl), (tt, tt)))) refl
      (tt, (refl, (refl, (refl, tt)))) refl
