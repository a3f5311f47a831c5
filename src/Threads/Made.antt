-- ===== src/Threads/Made.antt =====
-- Which tags the threads of `tag_tree_init` of src/tagtree.c have made.
use mathlib.Core.List.{append_assoc, append-nil}
use plcstub.Base.{ℕ, ◌≤◌, ◌≡◌, refl, ap, sym, ◌∙◌, true, false, List, [], ◌∷◌, ◌++◌, arith}
use plcstub.TagTree.State.{RwLock}
use plcstub.TagTree.Ops.{tags_inc}
use plcstub.Threads.{
  Scalar, Pc, defining, Shared, Move, rdlock, see, miss, leave_seen, leave_unseen, wrlock, lose,
  win, leave_beaten, make, leave_defining, Reach, start, later, all_entering,
}
use plcstub.Threads.Weights.{total, writes, writers_of, makes, Adds, AllAdd, total-le, Step-Moved}
use plcstub.Threads.Invariant.{Inv, Weighed, weigh, Reach-Inv}

-- Where nobody makes tags, no thread has anything left to add.
idle-AllAdd : (made : List Scalar) (ps : List Pc) → total makes ps ≡ 0 → AllAdd made ps
unfolding total
idle-AllAdd made [] h = tt
idle-AllAdd made (p ∷ ps) h = (one p (omega arith), idle-AllAdd made ps (omega arith))
  where
    one : (p : Pc) → makes p ≡ 0 → Adds made p
    one (defining left) e = absurd (omega arith)
    one Pc.entering e = tt
    one Pc.reading e = tt
    one Pc.seen e = tt
    one Pc.unseen e = tt
    one Pc.upgrading e = tt
    one Pc.writing e = tt
    one Pc.beaten e = tt
    one Pc.returned e = tt

-- Somebody who makes tags knows what is left.
pub left_to_make :
    (made : List Scalar) (ps : List Pc)
    → AllAdd made ps
    → 1 ≤ total makes ps
    → (rest : List Scalar) × (made ++ rest ≡ tags_inc)
unfolding total
left_to_make made [] a h = absurd (omega arith)
left_to_make made (defining left ∷ ps) a h = (left, a.0)
left_to_make made (Pc.entering ∷ ps) a h = left_to_make made ps a.1 (omega arith)
left_to_make made (Pc.reading ∷ ps) a h = left_to_make made ps a.1 (omega arith)
left_to_make made (Pc.seen ∷ ps) a h = left_to_make made ps a.1 (omega arith)
left_to_make made (Pc.unseen ∷ ps) a h = left_to_make made ps a.1 (omega arith)
left_to_make made (Pc.upgrading ∷ ps) a h = left_to_make made ps a.1 (omega arith)
left_to_make made (Pc.writing ∷ ps) a h = left_to_make made ps a.1 (omega arith)
left_to_make made (Pc.beaten ∷ ps) a h = left_to_make made ps a.1 (omega arith)
left_to_make made (Pc.returned ∷ ps) a h = left_to_make made ps a.1 (omega arith)

-- No tag before the flag is set; then, when nobody makes tags any more, those of tags.inc.
pub record IsMade (m : Shared) (ps : List Pc) : Type 0 where
  pub added : AllAdd m.made ps
  pub empty : m.inited ≡ false → m.made ≡ []
  pub whole : m.inited ≡ true → total makes ps ≡ 0 → m.made ≡ tags_inc

writers_of-le : (l : RwLock) → writers_of l ≤ 1
writers_of-le l = ground arith

-- Steps on the lock, and tests of the flag.
unmoved :
    (m : Shared) (lock : RwLock) (ps : List Pc) {ps' : List Pc}
    → AllAdd m.made ps'
    → (m.inited ≡ false → m.made ≡ [])
    → (m.inited ≡ true → total makes ps ≡ 0 → m.made ≡ tags_inc)
    → total makes ps' ≡ total makes ps
    → IsMade (record m { lock = lock }) ps'
unmoved m lock ps added empty whole same = record {
  added = added;
  empty = empty;
  whole = λ i z. whole i (omega arith);
}

-- A step of a thread among the others.
Move-IsMade :
    {m m' : Shared} {ps ps' : List Pc} {p p' : Pc} (others : List Pc)
    → Weighed ps others p
    → Weighed ps' others p'
    → Move m p m' p'
    → Inv m ps
    → total makes others ≤ total writes others
    → Adds m.made p
    → AllAdd m.made others
    → ((made : List Scalar) → Adds made p' → AllAdd made others → AllAdd made ps')
    → (m.inited ≡ false → m.made ≡ [])
    → (m.inited ≡ true → total makes ps ≡ 0 → m.made ≡ tags_inc)
    → IsMade m' ps'
Move-IsMade {m} others b a (rdlock h) inv few ad all join empty whole = record {
  added = join m.made tt all;
  empty = empty;
  whole = λ i z. whole i (omega arith);
}
Move-IsMade {m} others b a (see h) inv few ad all join empty whole = record {
  added = join m.made tt all;
  empty = empty;
  whole = λ i z. whole i (omega arith);
}
Move-IsMade {m} others b a (miss h) inv few ad all join empty whole = record {
  added = join m.made tt all;
  empty = empty;
  whole = λ i z. whole i (omega arith);
}
Move-IsMade {m} others b a leave_seen inv few ad all join empty whole = record {
  added = join m.made tt all;
  empty = empty;
  whole = λ i z. whole i (omega arith);
}
Move-IsMade {m} others b a leave_unseen inv few ad all join empty whole = record {
  added = join m.made tt all;
  empty = empty;
  whole = λ i z. whole i (omega arith);
}
Move-IsMade {m} others b a (wrlock h) inv few ad all join empty whole = record {
  added = join m.made tt all;
  empty = empty;
  whole = λ i z. whole i (omega arith);
}
Move-IsMade {m} others b a (lose h) inv few ad all join empty whole = record {
  added = join m.made tt all;
  empty = empty;
  whole = λ i z. whole i (omega arith);
}
Move-IsMade {m} others b a (win h) inv few ad all join empty whole = record {
  added = join m.made (ap (λ l. l ++ tags_inc) (empty h)) all;
  empty = λ e. absurd (cc);
  whole = λ i z. absurd (omega arith);
}
Move-IsMade {m} others b a leave_beaten inv few ad all join empty whole = record {
  added = join m.made tt all;
  empty = empty;
  whole = λ i z. whole i (omega arith);
}
Move-IsMade {m} others b a (make {d} {left}) inv few ad all join empty whole = record {
  added =
      join (m.made ++ d ∷ []) (append_assoc m.made (d ∷ []) left ∙ ad)
        (idle-AllAdd (m.made ++ d ∷ []) others (omega (arith, writers_of-le m.lock)));
  empty = λ e. absurd (omega (arith, inv.idle e));
  whole = λ i z. absurd (omega arith);
}
Move-IsMade {m} others b a leave_defining inv few ad all join empty whole = record {
  added = join m.made tt all;
  empty = empty;
  whole = λ i z. sym (append-nil m.made) ∙ ad;
}

entering-AllAdd : (made : List Scalar) (n : ℕ) → AllAdd made (all_entering n)
entering-AllAdd made ℕ.zero = tt
entering-AllAdd made (ℕ.suc n) = (tt, entering-AllAdd made n)

pub Reach-IsMade : {n : ℕ} {m : Shared} {ps : List Pc} → Reach n m ps → IsMade m ps
Reach-IsMade {n} start = record {
  added = entering-AllAdd [] n;
  empty = λ e. refl;
  whole = λ i z. absurd (cc);
}
Reach-IsMade (later {m} r st) =
    let mv = Step-Moved st in
    let made = Reach-IsMade r in
    let (a, all) = mv.apart m.made made.added in
    Move-IsMade mv.others (weigh _ _ _ mv.before) (weigh _ _ _ mv.after) mv.move (Reach-Inv r)
      (total-le mv.others) a all mv.together made.empty made.whole
