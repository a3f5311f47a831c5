-- ===== src/Threads.antt =====
-- `tag_tree_init` of src/tagtree.c as several threads run it, a step at a time. What a thread does
-- is cut at every operation on the lock `tag_tree_mtx`, at every test of the flag `tag_tree_inited`
-- and after every tag.
pub mod Weights
pub mod Invariant
pub mod Made
pub mod Safety
pub mod Progress
use plcstub.Base.{
  ℕ, zero, suc, ◌-◌, ◌≡◌, Bool, true, false, List, [], ◌∷◌, ◌++◌, ltb, if◌then◌else◌,
}
use plcstub.Bytes.{Bytes}
use plcstub.TagTree.State.{RwLock, free, readers, writer}
use plcstub.TagTree.Ops.{tags_inc}

-- A line of tags.inc: the name, the type and the value.
abbrev pub Scalar : Type 0
Scalar = Bytes × ℕ × ℕ

-- Where a thread stands in the function.
pub data Pc : Type 0 where
  entering : Pc  -- before RW_RDLOCK
  reading : Pc  -- before the first test
  seen : Pc  -- the first test held: before RW_UNLOCK and return
  unseen : Pc  -- it did not: before RW_UNLOCK
  upgrading : Pc  -- before RW_WRLOCK
  writing : Pc  -- before the second test
  beaten : Pc  -- the second test held: before RW_UNLOCK and return
  defining : (left : List Scalar) → Pc  -- `left` of tags.inc still to make; then RW_UNLOCK
  returned : Pc

-- What the threads share: the lock, the flag, and the tags that have been made, by the lines that
-- they were made from, in place of the tree that holds them.
pub record Shared : Type 0 where
  pub lock : RwLock
  pub inited : Bool
  pub made : List Scalar

-- The lock after another reader, and after one less.
abbrev pub add_reader : RwLock → RwLock
add_reader free = readers 1
add_reader (readers n) = readers (suc n)
add_reader writer = writer

abbrev pub drop_reader : RwLock → RwLock
drop_reader free = free
drop_reader (readers n) = if ltb 1 n then readers (n - 1) else free
drop_reader writer = writer

abbrev pub is_writer : RwLock → Bool
is_writer writer = true
is_writer _ = false

-- One step of one thread. A thread that has to wait for the lock has no step.
pub data Move (m : Shared) : Pc → Shared → Pc → Type 0 where
  rdlock :
      is_writer m.lock ≡ false → Move m entering (record m { lock = add_reader m.lock }) reading
  see : m.inited ≡ true → Move m reading m seen
  miss : m.inited ≡ false → Move m reading m unseen
  leave_seen : Move m seen (record m { lock = drop_reader m.lock }) returned
  leave_unseen : Move m unseen (record m { lock = drop_reader m.lock }) upgrading
  wrlock : m.lock ≡ free → Move m upgrading (record m { lock = writer }) writing
  lose : m.inited ≡ true → Move m writing m beaten
  win : m.inited ≡ false → Move m writing (record m { inited = true }) (defining tags_inc)
  leave_beaten : Move m beaten (record m { lock = free }) returned
  make :
      {d : Scalar} {left : List Scalar}
      → Move m (defining (d ∷ left)) (record m { made = m.made ++ d ∷ [] }) (defining left)
  leave_defining : Move m (defining []) (record m { lock = free }) returned

-- One of the threads takes a step.
pub data Step (m m' : Shared) : List Pc → List Pc → Type 0 where
  here : {p p' : Pc} {ps : List Pc} → Move m p m' p' → Step m m' (p ∷ ps) (p' ∷ ps)
  there : {p : Pc} {ps ps' : List Pc} → Step m m' ps ps' → Step m m' (p ∷ ps) (p ∷ ps')

abbrev pub at_start : Shared
at_start = record { lock = free; inited = false; made = [] }

abbrev pub all_entering : ℕ → List Pc
all_entering zero = []
all_entering (suc n) = entering ∷ all_entering n

-- What `n` threads can get to.
pub data Reach (n : ℕ) : Shared → List Pc → Type 0 where
  start : Reach n at_start (all_entering n)
  later : {m m' : Shared} {ps ps' : List Pc} → Reach n m ps → Step m m' ps ps' → Reach n m' ps'
