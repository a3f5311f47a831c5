-- ===== src/Threads/Weights.antt =====
-- Sums over the threads of `tag_tree_init`, and what a step does to them.
use plcstub.Base.{ℕ, suc, ◌+◌, ◌≤◌, ◌≡◌, refl, false, List, [], ◌∷◌, ◌++◌, arith}
use plcstub.TagTree.State.{RwLock, free, readers, writer}
use plcstub.TagTree.Ops.{tags_inc}
use plcstub.Threads.{
  Scalar, Pc, reading, seen, unseen, writing, beaten, defining, returned, Shared, Move, Step, here,
  there, is_writer, add_reader, drop_reader,
}

-- A weight of every thread, summed.
unfoldable pub total : (Pc → ℕ) → List Pc → ℕ
total w [] = 0
total w (p ∷ ps) = w p + total w ps

-- Who holds the lock to read, and who to write.
abbrev pub reads : Pc → ℕ
reads reading = 1
reads seen = 1
reads unseen = 1
reads _ = 0

abbrev pub writes : Pc → ℕ
writes writing = 1
writes beaten = 1
writes (defining _) = 1
writes _ = 0

-- Who is making the tags.
abbrev pub makes : Pc → ℕ
makes (defining _) = 1
makes _ = 0

-- Who has found the flag set, or has returned.
abbrev pub knows : Pc → ℕ
knows seen = 1
knows beaten = 1
knows returned = 1
knows _ = 0

abbrev pub readers_of : RwLock → ℕ
readers_of (readers n) = n
readers_of _ = 0

abbrev pub writers_of : RwLock → ℕ
writers_of writer = 1
writers_of _ = 0

-- A lock that is held to read has a reader.
abbrev pub IsCounted : RwLock → Type 0
IsCounted (readers n) = 1 ≤ n
IsCounted _ = Unit

-- Whoever makes tags holds the lock.
makes-le : (p : Pc) → makes p ≤ writes p
makes-le p = ground arith

pub total-le : (ps : List Pc) → total makes ps ≤ total writes ps
unfolding total
total-le [] = omega arith
total-le (p ∷ ps) = omega (arith, makes-le p, total-le ps)

pub reader_added :
    (l : RwLock)
    → is_writer l ≡ false
    → (readers_of (add_reader l) ≡ suc (readers_of l))
      × (writers_of (add_reader l) ≡ writers_of l)
      × IsCounted (add_reader l)
reader_added free h = (refl, refl, omega arith)
reader_added (readers n) h = (refl, refl, omega arith)
reader_added writer h = absurd (ground arith)

pub reader_dropped :
    (l : RwLock)
    → 1 ≤ readers_of l
    → (suc (readers_of (drop_reader l)) ≡ readers_of l)
      × (writers_of (drop_reader l) ≡ writers_of l)
      × IsCounted (drop_reader l)
reader_dropped free h = absurd (omega arith)
reader_dropped (readers n) h = ground arith
reader_dropped writer h = absurd (omega arith)

-- What a thread that makes tags has made and what it has left are the lines of tags.inc.
abbrev pub Adds : List Scalar → Pc → Type 0
Adds made (defining left) = made ++ left ≡ tags_inc
Adds made _ = Unit

abbrev pub AllAdd : List Scalar → List Pc → Type 0
AllAdd made [] = Unit
AllAdd made (p ∷ ps) = Adds made p × AllAdd made ps

-- A step, as what it does to the threads: one moves, and the others stay.
pub record Moved (m m' : Shared) (ps ps' : List Pc) : Type 0 where
  pub from : Pc
  pub to : Pc
  pub move : Move m from m' to
  pub others : List Pc
  pub before : (w : Pc → ℕ) → total w ps ≡ w from + total w others
  pub after : (w : Pc → ℕ) → total w ps' ≡ w to + total w others
  pub apart : (made : List Scalar) → AllAdd made ps → Adds made from × AllAdd made others
  pub together : (made : List Scalar) → Adds made to → AllAdd made others → AllAdd made ps'

pub Step-Moved : {m m' : Shared} {ps ps' : List Pc} → Step m m' ps ps' → Moved m m' ps ps'
unfolding total
Step-Moved (here {p} {p'} {ps} mv) = record {
  from = p;
  to = p';
  move = mv;
  others = ps;
  before = λ w. refl;
  after = λ w. refl;
  apart = λ made a. a;
  together = λ made a all. (a, all);
}
Step-Moved (there {p} st) =
    let r = Step-Moved st in
    record {
      from = r.from;
      to = r.to;
      move = r.move;
      others = p ∷ r.others;
      before = λ w. omega (arith, r.before w);
      after = λ w. omega (arith, r.after w);
      apart = λ made a. let (b, bs) = r.apart made a.1 in (b, (a.0, bs));
      together = λ made b a. (a.0, r.together made b a.1);
    }

abbrev pub Sums : List Pc → List Pc → Pc → Type 0
Sums ps others p = (w : Pc → ℕ) → total w ps ≡ w p + total w others
