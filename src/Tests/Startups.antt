-- ===== src/Tests/Startups.antt =====
-- The start of the library with a list for a tree and an allocator that never fails.
use plcstub.Base.{◌≡◌, ◌⊎◌, ◌+◌, refl, false, List, [], ◌∷◌, inl, pos, negsuc, codes, length}
use native.Mathlib.Omega.{arith}
use plcstub.Outcome.{done}
use plcstub.Env.Rb.{Entry, list_tree}
use plcstub.Env.Libc.{bump, top}
use plcstub.TagTree.State.{State, free}
use plcstub.TagTree.Ops.{tags_inc, tag_tree_init}
use plcstub.TagTree.Lookup.{IsReady}
use plcstub.TagTree.Sound.{IsSound}
use plcstub.TagTree.Order.{Below}
use plcstub.TagTree.Metanode.{nodes_at}
use plcstub.TagTree.Startup.Scalar.{IsGenerous}
use plcstub.Api.Access.{int16, int64}
use plcstub.Api.Attrib.{strtok, scan}
use plcstub.Session.{Call, Result, value, create, destroy, get, set, read, session}
use plcstub.Session.Spec.{Spec, spec_session}
use plcstub.Session.View.{view}
use plcstub.Session.Lift.{Agrees}
use plcstub.Session.Start.{IsBlank, AreUnreached}
use plcstub.Session.Program.{start_spec, program-Agrees, program_returns, start_value}
use plcstub.TagTree.Startup.{ids, ids_from, start_nodes, tag_tree_init-start}

pub bump-IsGenerous : IsGenerous bump
bump-IsGenerous = record { gives = λ h n. (top h + 1, refl); mutex = λ p. refl }

-- The static variables as the program starts.
abbrev pub blank : State (List Entry)
blank = record {
  tree = [];
  tree_size = 0;
  tag_tree_inited = false;
  tag_tree_mtx = free;
  heap = [];
  events = [];
}

tag_tree_init-start_example :
    (s' : State (List Entry)) × (tag_tree_init list_tree bump blank ≡ done (tt, s'))
    × IsSound list_tree s'
    × IsReady s'
    × (ids s'.tree ≡ ids_from 2 10)
    × Below (pos 12) s'.tree
    × (nodes_at s'.heap s'.tree ≡ start_nodes 2 tags_inc)
    × (s'.events ≡ [])
    × (tag_tree_init list_tree bump s' ≡ done (tt, s'))
tag_tree_init-start_example =
    tag_tree_init-start list_tree bump bump-IsGenerous blank refl refl refl

blank-IsBlank : IsBlank list_tree blank
blank-IsBlank = record { empty = refl; idle = refl; unlocked = refl }

-- A client that is the first one to call: it reads a tag of tags.inc, makes one and destroys it.
abbrev first_client : List Call
first_client =
    read (pos 5) (negsuc 0)
    ∷ get int16 (pos 5) (pos 0)
    ∷ create (codes "name=tank") (pos 9)
    ∷ set int64 (pos 12) (pos 0) 77
    ∷ destroy (pos 12)
    ∷ []

program-Agrees_example :
    Agrees list_tree
      (session list_tree bump (λ w e. 0) first_client blank)
      (spec_session (λ w e. 0) first_client (start_spec []))
    ⊎ ((rs : List Result) × AreUnreached first_client rs
        × (session list_tree bump (λ w e. 0) first_client blank ≡ done (rs, blank))
        × (spec_session (λ w e. 0) first_client (start_spec []) ≡ done (rs, start_spec [])))
unfolding strtok scan
program-Agrees_example =
    program-Agrees list_tree bump bump-IsGenerous (λ w e. 0) first_client blank blank-IsBlank
      (tt, (tt, ((refl, omega arith), (tt, (tt, tt)))))

program_returns_example :
    (rs : List Result) × (s' : State (List Entry)) × (σ : Spec) × (session list_tree bump
        (λ w e. 0)
        first_client
        blank
      ≡ done (rs, s'))
    × (spec_session (λ w e. 0) first_client (start_spec []) ≡ done (rs, σ))
    × (length rs ≡ 5)
    × ((view list_tree s' ≡ σ) ⊎ (s' ≡ blank))
unfolding strtok scan
program_returns_example =
    program_returns list_tree bump bump-IsGenerous (λ w e. 0) first_client blank blank-IsBlank
      (omega arith) (tt, (tt, ((refl, omega arith), (tt, (tt, tt)))))
      (tt, ((omega arith, inl refl), (tt, ((omega arith, inl refl), (tt, tt)))))

start_value_example :
    (s' : State (List Entry)) × (session list_tree bump
        (λ w e. 0)
        (get int16 (pos 9) (pos 0) ∷ [])
        blank
      ≡ done (value 0x4207 ∷ [], s'))
start_value_example =
    start_value list_tree bump bump-IsGenerous (λ w e. 0) blank 7 blank-IsBlank (omega arith)
