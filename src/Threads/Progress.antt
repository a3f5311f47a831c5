-- ===== src/Threads/Progress.antt =====
-- Several threads in `tag_tree_init` of src/tagtree.c: none waits for ever, and how they end.
use native.Mathlib.Decide.{dec_le}
use plcstub.Base.{
  ℕ, suc, ◌+◌, ◌*◌, ◌≤◌, ◌<◌, ◌≡◌, ◌⊎◌, refl, inl, inr, Bool-cases, List, [], ◌∷◌, length, arith,
  true,
}
use plcstub.TagTree.Ops.{tags_inc}
use plcstub.TagTree.State.{RwLock, free, readers, writer}
use plcstub.Threads.{
  Pc, entering, reading, seen, unseen, upgrading, writing, beaten, defining, returned, Shared, Move,
  rdlock, see, miss, leave_seen, leave_unseen, wrlock, lose, win, leave_beaten, make,
  leave_defining, Step, here, there, Reach, start, later,
}
use plcstub.Threads.Weights.{
  total, reads, writes, knows, readers_of, writers_of, IsCounted, Step-Moved,
}
use plcstub.Threads.Invariant.{total-entering, Reach-Inv}
use plcstub.Threads.Safety.{init_once}

-- A thread that has not returned yet.
abbrev pub runs : Pc → ℕ
runs returned = 0
runs _ = 1

-- Some thread can take a step.
abbrev pub Steps : Shared → List Pc → Type 0
Steps m ps = (m' : Shared) × (ps' : List Pc) × Step m m' ps ps'

abbrev Moves : Shared → Pc → Type 0
Moves m p = (m' : Shared) × (p' : Pc) × Move m p m' p'

-- Whoever holds the lock can go on.
holder-Moves : (m : Shared) (p : Pc) → 1 ≤ reads p + writes p → Moves m p
holder-Moves m reading h = elim (Bool-cases m.inited) [
  | inl set ↦ (_, _, see set)
  | inr unset ↦ (_, _, miss unset)
]
holder-Moves m seen h = (_, _, leave_seen)
holder-Moves m unseen h = (_, _, leave_unseen)
holder-Moves m writing h = elim (Bool-cases m.inited) [
  | inl set ↦ (_, _, lose set)
  | inr unset ↦ (_, _, win unset)
]
holder-Moves m beaten h = (_, _, leave_beaten)
holder-Moves m (defining []) h = (_, _, leave_defining)
holder-Moves m (defining (d ∷ k)) h = (_, _, make)
holder-Moves m entering h = absurd (omega arith)
holder-Moves m upgrading h = absurd (omega arith)
holder-Moves m returned h = absurd (omega arith)

-- Where the lock is free, whoever waits for it can go on.
waiter-Moves :
    (m : Shared) (p : Pc) → m.lock ≡ free → runs p ≡ 1 → reads p + writes p ≡ 0 → Moves m p
waiter-Moves m entering l h w = (_, _, rdlock (rw l refl))
waiter-Moves m upgrading l h w = (_, _, wrlock l)
waiter-Moves m reading l h w = absurd (omega arith)
waiter-Moves m seen l h w = absurd (omega arith)
waiter-Moves m unseen l h w = absurd (omega arith)
waiter-Moves m writing l h w = absurd (omega arith)
waiter-Moves m beaten l h w = absurd (omega arith)
waiter-Moves m (defining k) l h w = absurd (omega arith)
waiter-Moves m returned l h w = absurd (omega arith)

first_step : {m : Shared} {p : Pc} {ps : List Pc} → Moves m p → Steps m (p ∷ ps)
first_step (m', p', mv) = (m', p' ∷ _, here mv)

later_step : {m : Shared} {p : Pc} {ps : List Pc} → Steps m ps → Steps m (p ∷ ps)
later_step {p} (m', ps', st) = (m', p ∷ ps', there st)

-- Either a holder of the lock can go on, or there is none.
holder_step :
    (m : Shared) (ps : List Pc) → Steps m ps ⊎ ((total reads ps ≡ 0) × (total writes ps ≡ 0))
unfolding total
holder_step m [] = inr (refl, refl)
holder_step m (p ∷ ps) = elim (dec_le 1 (reads p + writes p)) [
  | yes holds ↦ inl (first_step (holder-Moves m p holds))
  | no idle ↦ elim (holder_step m ps) [
    | inl st ↦ inl (later_step st)
    | inr (r, w) ↦ inr (omega arith, omega arith)
  ]
]

runs-cases : (p : Pc) → (runs p ≡ 0) ⊎ (runs p ≡ 1)
runs-cases p = ground arith

-- On a free lock a thread that has not returned can go on.
waiter_step :
    (m : Shared) (ps : List Pc)
    → m.lock ≡ free
    → total reads ps ≡ 0
    → total writes ps ≡ 0
    → Steps m ps ⊎ (total runs ps ≡ 0)
unfolding total
waiter_step m [] l r w = inr refl
waiter_step m (p ∷ ps) l r w = elim (runs-cases p) [
  | inr live ↦ inl (first_step (waiter-Moves m p l live (omega arith)))
  | inl over ↦ elim (waiter_step m ps l (omega arith) (omega arith)) [
    | inl st ↦ inl (later_step st)
    | inr none_left ↦ inr (omega arith)
  ]
]

pub free_of_counts : (l : RwLock) → IsCounted l → readers_of l ≡ 0 → writers_of l ≡ 0 → l ≡ free
free_of_counts free c r w = refl
free_of_counts (readers n) c r w = absurd (omega arith)
free_of_counts writer c r w = absurd (omega arith)

-- However the threads that run `tag_tree_init` interleave, either all have returned or one of them
-- can take a step: they do not block each other for ever.
pub no_deadlock :
    {n : ℕ} {m : Shared} {ps : List Pc} → Reach n m ps → Steps m ps ⊎ (total runs ps ≡ 0)
no_deadlock {m} {ps} reach =
    let inv = Reach-Inv reach in
    elim (holder_step m ps) [
      | inl st ↦ inl st
      | inr (r, w) ↦
          let l = free_of_counts m.lock inv.counted (omega arith) (omega arith) in
          waiter_step m ps l r w
    ]

-- How many steps a thread has left at most.
abbrev pub steps_left : Pc → ℕ
steps_left entering = 16
steps_left reading = 15
steps_left unseen = 14
steps_left upgrading = 13
steps_left writing = 12
steps_left (defining k) = length k + 1
steps_left seen = 1
steps_left beaten = 1
steps_left returned = 0

Move-less : {m m' : Shared} {p p' : Pc} → Move m p m' p' → steps_left p' < steps_left p
Move-less (rdlock h) = omega arith
Move-less (see h) = omega arith
Move-less (miss h) = omega arith
Move-less leave_seen = omega arith
Move-less leave_unseen = omega arith
Move-less (wrlock h) = omega arith
Move-less (lose h) = omega arith
Move-less (win h) = omega arith
Move-less leave_beaten = omega arith
Move-less make = omega arith
Move-less leave_defining = omega arith

-- The steps of a run.
pub length_of : {n : ℕ} {m : Shared} {ps : List Pc} → Reach n m ps → ℕ
length_of start = 0
length_of (later r st) = suc (length_of r)

pub length_of-bound :
    {n : ℕ} {m : Shared} {ps : List Pc} (r : Reach n m ps)
    → length_of r + total steps_left ps ≤ 16 * n
unfolding length_of
length_of-bound {n} start = omega (arith, total-entering steps_left n)
length_of-bound (later r st) =
    let mv = Step-Moved st in
    omega (arith, length_of-bound r, mv.before steps_left, mv.after steps_left, Move-less mv.move)

abbrev each : Pc → ℕ
each p = 1

-- No thread comes or goes.
total-each : {n : ℕ} {m : Shared} {ps : List Pc} → Reach n m ps → total each ps ≡ n
total-each {n} start = omega (arith, total-entering each n)
total-each (later r st) =
    let mv = Step-Moved st in omega (arith, total-each r, mv.before each, mv.after each)

-- Who has returned holds no lock, and knows that the library has started.
returned_all :
    (ps : List Pc)
    → total runs ps ≡ 0
    → (total reads ps ≡ 0) × (total writes ps ≡ 0) × (total knows ps ≡ total each ps)
unfolding total
returned_all [] h = (refl, refl, refl)
returned_all (p ∷ ps) h =
    let (r, w, k) = returned_all ps (omega arith) in
    let (r', w', k') = one p (omega arith) in (omega arith, omega arith, omega arith)
  where
    one : (p : Pc) → runs p ≡ 0 → (reads p ≡ 0) × (writes p ≡ 0) × (knows p ≡ 1)
    one p e = ground arith

-- All have returned, the lock is free, and if there is a thread, the tags of tags.inc have been made,
-- each once and in their order.
abbrev pub HasStarted : ℕ → Shared → List Pc → Type 0
HasStarted n m ps =
    (total runs ps ≡ 0) × (m.lock ≡ free) × ((n ≡ 0) ⊎ ((m.inited ≡ true) × (m.made ≡ tags_inc)))

-- However `n` threads that run `tag_tree_init` interleave: they have taken at most 16 n steps, and
-- one of them can take another one, unless all have returned, the lock is free and, if there is a
-- thread at all, the flag is set and the tags of tags.inc have been made, each once and in their
-- order.
pub init_complete :
    {n : ℕ} {m : Shared} {ps : List Pc} (r : Reach n m ps)
    → (length_of r ≤ 16 * n) × (Steps m ps ⊎ HasStarted n m ps)
init_complete {n} {m} {ps} r = (
  omega (arith, length_of-bound r),
  elim (no_deadlock r) [
    | inl st ↦ inl st
    | inr over ↦
        let inv = Reach-Inv r in
        let (rd, wr, known) = returned_all ps over in
        inr (
          over,
          free_of_counts m.lock inv.counted (omega arith) (omega arith),
          elim (init_once r).1 [
            | inl nobody ↦ inl (omega (arith, total-each r))
            | inr made ↦ inr made
          ],
        )
  ],
)
