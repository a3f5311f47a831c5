-- ===== src/Threads/Safety.antt =====
-- Several threads in `tag_tree_init` of src/tagtree.c: the tags are made once, the lock excludes, and
-- every thread returns.
use mathlib.Core.List.{append-nil}
use native.Mathlib.Decide.{dec_le}
use plcstub.Base.{ℕ, ◌≡◌, ◌⊎◌, ap, ◌∙◌, inl, inr, true, Bool-cases, List, [], ◌++◌, arith}
use plcstub.TagTree.State.{RwLock, free, readers, writer}
use plcstub.Threads.{Scalar, Pc, Shared, Reach}
use plcstub.TagTree.Ops.{tags_inc}
use plcstub.Threads.Weights.{total, reads, writes, makes, knows, readers_of, writers_of}
use plcstub.Threads.Invariant.{Reach-Inv}
use plcstub.Threads.Made.{left_to_make, Reach-IsMade}

-- However the threads that run `tag_tree_init` interleave: what they have made are the first tags
-- of tags.inc, each once and in their order, and once a thread has found the flag set or has
-- returned, the flag is set and all tags of tags.inc have been made.
pub init_once :
    {n : ℕ} {m : Shared} {ps : List Pc}
    → Reach n m ps
    → ((rest : List Scalar) × (m.made ++ rest ≡ tags_inc))
      × ((total knows ps ≡ 0) ⊎ ((m.inited ≡ true) × (m.made ≡ tags_inc)))
init_once {m} {ps} r =
    let inv = Reach-Inv r in
    let made = Reach-IsMade r in
    elim (Bool-cases m.inited) [
      | inr unset ↦
          let (_, unknown) = inv.idle unset in
          ((tags_inc, ap (λ l. l ++ tags_inc) (made.empty unset)), inl unknown)
      | inl set ↦ elim (dec_le 1 (total makes ps)) [
        | yes some_make ↦ (left_to_make m.made ps made.added some_make, inl (omega arith))
        | no idle ↦
            let all = made.whole set (omega arith) in
            (([], append-nil m.made ∙ all), inr (set, all))
      ]
    ]

-- However they interleave: no thread holds the lock to write, or exactly one does and none holds it
-- to read.
pub exclusive :
    {n : ℕ} {m : Shared} {ps : List Pc}
    → Reach n m ps
    → (total writes ps ≡ 0) ⊎ ((total writes ps ≡ 1) × (total reads ps ≡ 0))
exclusive {m} {ps} r = let inv = Reach-Inv r in go m.lock inv.read_held inv.write_held
  where
    go :
        (l : RwLock)
        → total reads ps ≡ readers_of l
        → total writes ps ≡ writers_of l
        → (total writes ps ≡ 0) ⊎ ((total writes ps ≡ 1) × (total reads ps ≡ 0))
    go free a b = inl b
    go (readers k) a b = inl b
    go writer a b = inr (b, a)
