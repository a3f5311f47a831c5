-- ===== src/Parallel/Exclusion.antt =====
-- Calls of src/plcstub.c by several threads: the locks exclude.
use plcstub.Base.{ℕ, ℤ, ◌≤◌, ◌≡◌, ◌⊎◌, inl, inr, List, arith}
use plcstub.Env.Rb.{Ptr, RbTree}
use plcstub.Env.Libc.{Libc}
use plcstub.TagTree.State.{State, RwLock, free, readers, writer}
use plcstub.Threads.Weights.{readers_of, writers_of}
use plcstub.Session.{Call, Result}
use plcstub.Parallel.{Prog, Reach}
use plcstub.Parallel.Discipline.{Held, lock_count}
use plcstub.Parallel.Counts.{reads, writes, total, lock_count-le}
use plcstub.Parallel.Discipline.{holds}
use plcstub.Parallel.Invariant.{AreObeying, IsUnlocked, AllBalanced, clients, Reach-AreCounted}

readers_or_writer :
    (l : RwLock) (r w : ℕ) → r ≡ readers_of l → w ≡ writers_of l → (w ≡ 0) ⊎ ((w ≡ 1) × (r ≡ 0))
readers_or_writer free r w a b = inl b
readers_or_writer (readers n) r w a b = inl b
readers_or_writer writer r w a b = inr (b, a)

-- Threads, each with calls among which plc_tag_lock and plc_tag_unlock do not occur, begin while
-- nobody holds a lock. However they interleave, each thread obeys the discipline of the locks from
-- what it holds. A node's mutex is locked exactly while one thread holds it, and no two threads do
-- at once. No thread holds the tree's lock to write, or one does and none holds it to read.
pub exclusive_locks :
    {T : Type 0} (rb : RbTree T) (libc : Libc) (fb : ℕ → ℤ → ℕ) (css : List (List Call))
    {s₀ s : State T} {ps : List (Prog T (List Result))}
    → IsUnlocked s₀
    → AllBalanced css
    → Reach s₀ (clients rb libc fb css) s ps
    → (hs : List Held) × AreObeying hs ps
      × ((q : Ptr) → (total (holds q) hs ≡ lock_count s.heap q) × (total (holds q) hs ≤ 1))
      × ((total writes hs ≡ 0) ⊎ ((total writes hs ≡ 1) × (total reads hs ≡ 0)))
exclusive_locks rb libc fb css {s = s} u b r =
    let (hs, os, c) = Reach-AreCounted rb libc fb css u b r in
    (
      hs,
      os,
      λ q. (c.nodes q, omega (arith, c.nodes q, lock_count-le s.heap q)),
      readers_or_writer s.tag_tree_mtx _ _ c.read_held c.write_held,
    )
