-- ===== src/Tests/Starters.antt =====
-- Two threads in `tag_tree_init`: both find the flag unset, the first makes the tags, and the second
-- finds it set once it has the lock to write.
use mathlib.Core.List.{append_assoc, append-nil}
use plcstub.TagTree.Ops.{tags_inc}
use plcstub.Base.{List, ◌++◌, ◌*◌, ◌≤◌, ◌≡◌, ◌⊎◌, refl, true, [], ◌∷◌}
use plcstub.TagTree.State.{free, writer}
use plcstub.Threads.{
  Scalar, upgrading, defining, returned, Shared, rdlock, miss, leave_unseen, wrlock, lose, win,
  leave_beaten, make, leave_defining, here, there, Reach, start, later,
}
use plcstub.Threads.Weights.{total, knows}
use plcstub.Threads.Safety.{init_once}
use plcstub.Threads.Progress.{Steps, HasStarted, length_of, init_complete}

-- The first thread holds the lock and has all tags to make.
abbrev first_in : Shared
first_in = record { lock = writer; inited = true; made = [] }

first_in-Reach : Reach 2 first_in (defining tags_inc ∷ upgrading ∷ [])
first_in-Reach =
    later
      (later
        (later
          (later
            (later
              (later (later (later start (here (rdlock refl))) (there (here (rdlock refl))))
                (here (miss refl)))
              (there (here (miss refl))))
            (here leave_unseen))
          (there (here leave_unseen)))
        (here (wrlock refl)))
      (here (win refl))

-- It has made them, one after the other.
making :
    (d : Scalar) (made left : List Scalar)
    → Reach 2
        (record { lock = writer; inited = true; made = made })
        (defining (d ∷ left) ∷ upgrading ∷ [])
    → Reach 2
        (record { lock = writer; inited = true; made = made ++ d ∷ [] })
        (defining left ∷ upgrading ∷ [])
making d made left r = later r (here make)

making_all :
    (left made : List Scalar)
    → Reach 2
        (record { lock = writer; inited = true; made = made })
        (defining left ∷ upgrading ∷ [])
    → Reach 2
        (record { lock = writer; inited = true; made = made ++ left })
        (defining [] ∷ upgrading ∷ [])
making_all [] made r = rw append-nil r
making_all (d ∷ left) made r =
    rw (← append_assoc made (d ∷ []) left) (making_all left (made ++ d ∷ []) (making d made left r))

abbrev all_made : Shared
all_made = record { lock = free; inited = true; made = tags_inc }

both_out-Reach : Reach 2 all_made (returned ∷ returned ∷ [])
both_out-Reach =
    later
      (later
        (later (later (making_all tags_inc [] first_in-Reach) (here leave_defining))
          (there (here (wrlock refl))))
        (there (here (lose refl))))
      (there (here leave_beaten))

init_once_example :
    ((rest : List Scalar) × (tags_inc ++ rest ≡ tags_inc))
    × ((total knows (returned ∷ returned ∷ []) ≡ 0)
        ⊎ ((all_made.inited ≡ true) × (all_made.made ≡ tags_inc)))
init_once_example = init_once both_out-Reach

init_complete_example :
    (length_of both_out-Reach ≤ 16 * 2)
    × (Steps all_made (returned ∷ returned ∷ []) ⊎ HasStarted 2 all_made (returned ∷ returned ∷ []))
init_complete_example = init_complete both_out-Reach
