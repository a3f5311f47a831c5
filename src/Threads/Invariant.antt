-- ===== src/Threads/Invariant.antt =====
-- What holds in every state that the threads of `tag_tree_init` can get to.
use plcstub.Base.{ℕ, zero, suc, ◌+◌, ◌*◌, ◌≤◌, ◌≡◌, ◌⊎◌, false, List, arith}
use plcstub.Threads.{
  Pc, entering, Shared, Move, rdlock, see, miss, leave_seen, leave_unseen, wrlock, lose, win,
  leave_beaten, make, leave_defining, Reach, start, later, at_start, all_entering,
}
use plcstub.Threads.Weights.{
  total, reads, writes, makes, knows, readers_of, writers_of, IsCounted, total-le, reader_added,
  reader_dropped, Step-Moved, Sums,
}

-- The lock counts its holders. Until the flag is set nobody makes tags or knows of them, and while
-- somebody makes them nobody knows that the library has started.
pub record Inv (m : Shared) (ps : List Pc) : Type 0 where
  pub read_held : total reads ps ≡ readers_of m.lock
  pub write_held : total writes ps ≡ writers_of m.lock
  pub idle : m.inited ≡ false → (total makes ps ≡ 0) × (total knows ps ≡ 0)
  pub counted : IsCounted m.lock
  pub known : (total knows ps ≡ 0) ⊎ (total makes ps ≡ 0)

-- The sums that the invariant reads, with one thread set apart.
pub record Weighed (ps others : List Pc) (p : Pc) : Type 0 where
  pub reading_sum : total reads ps ≡ reads p + total reads others
  pub writing_sum : total writes ps ≡ writes p + total writes others
  pub making_sum : total makes ps ≡ makes p + total makes others
  pub knowing_sum : total knows ps ≡ knows p + total knows others

pub weigh : (ps others : List Pc) (p : Pc) → Sums ps others p → Weighed ps others p
weigh ps others p s = record {
  reading_sum = s reads;
  writing_sum = s writes;
  making_sum = s makes;
  knowing_sum = s knows;
}

-- A step of a thread among the others.
Move-Inv :
    {m m' : Shared} {ps ps' : List Pc} {p p' : Pc} (others : List Pc)
    → Weighed ps others p
    → Weighed ps' others p'
    → total makes others ≤ total writes others
    → Move m p m' p'
    → Inv m ps
    → Inv m' ps'
Move-Inv {m} others b a few (rdlock h) inv = let (r, w, c) = reader_added m.lock h in ground arith
Move-Inv others b a few (see h) inv = ground arith
Move-Inv others b a few (miss h) inv = ground arith
Move-Inv {m} others b a few leave_seen inv =
    let (r, w, c) = reader_dropped m.lock (omega arith) in ground arith
Move-Inv {m} others b a few leave_unseen inv =
    let (r, w, c) = reader_dropped m.lock (omega arith) in ground arith
Move-Inv others b a few (wrlock h) inv = ground arith
Move-Inv others b a few (lose h) inv = ground arith
Move-Inv others b a few (win h) inv = ground arith
Move-Inv others b a few leave_beaten inv = ground arith
Move-Inv others b a few make inv = ground arith
Move-Inv others b a few leave_defining inv = ground arith

pub total-entering : (w : Pc → ℕ) (n : ℕ) → total w (all_entering n) ≡ n * w entering
unfolding total
total-entering w zero = omega arith
total-entering w (suc n) = grind (arith, total-entering w n)

start-Inv : (n : ℕ) → Inv at_start (all_entering n)
start-Inv n = ground (
  arith,
  total-entering reads n,
  total-entering writes n,
  total-entering makes n,
  total-entering knows n,
)

pub Reach-Inv : {n : ℕ} {m : Shared} {ps : List Pc} → Reach n m ps → Inv m ps
Reach-Inv {n} start = start-Inv n
Reach-Inv (later r st) =
    let mv = Step-Moved st in
    Move-Inv mv.others (weigh _ _ _ mv.before) (weigh _ _ _ mv.after) (total-le mv.others) mv.move
      (Reach-Inv r)
