-- ===== src/Parallel/Discipline.antt =====
-- The discipline of the locks: which locks a thread holds where it stands in its program. A thread
-- asks for the tree's lock only while it holds no lock, and for a node's mutex only while it holds
-- no other node's.
use plcstub.Base.{ℕ, ◌≡◌, sym, true, false, Option, none, some, ◌==◌, if◌then◌else◌, Bool}
use mathlib.Core.Path.{subst}
use plcstub.Outcome.{Outcome, done, exit, blocked, fault}
use plcstub.Env.Rb.{Ptr}
use plcstub.Env.Heap.{Node, Heap, get}
use plcstub.TagTree.State.{State, M}
use plcstub.Parallel.{Prog, ret, rdlock, wrlock, rwunlock, lock, unlock, free_node, atom, ◌>>=◌}

pub data Held : Type 0 where
  nothing reading writing : Held
  holding both : Ptr → Held

-- What is held after RW_UNLOCK, MTX_LOCK and MTX_UNLOCK; `none` where the discipline forbids it.
abbrev pub after_rwunlock : Held → Option Held
after_rwunlock nothing = none
after_rwunlock reading = some nothing
after_rwunlock writing = some nothing
after_rwunlock (holding p) = none
after_rwunlock (both p) = some (holding p)

abbrev pub after_lock : Ptr → Held → Option Held
after_lock p nothing = some (holding p)
after_lock p reading = none
after_lock p writing = some (both p)
after_lock p (holding q) = none
after_lock p (both q) = none

abbrev pub after_unlock : Ptr → Held → Option Held
after_unlock p nothing = none
after_unlock p reading = none
after_unlock p writing = none
after_unlock p (holding q) = if p == q then some nothing else none
after_unlock p (both q) = if p == q then some writing else none

abbrev pub lock_bit : Bool → ℕ
lock_bit true = 1
lock_bit false = 0

-- One where a node's mutex is held.
unfoldable pub lock_count : Heap → Ptr → ℕ
unfolding get
lock_count h q = elim (get q h) [ none ↦ 0 | some n ↦ lock_bit n.locked ]

-- Who holds the mutex of the node at `q`.
abbrev pub holds : Ptr → Held → ℕ
holds q (holding p) = lock_bit (p == q)
holds q (both p) = lock_bit (p == q)
holds q _ = 0

module _ {T : Type 0} where
  -- A thread that holds `h` has left alone the locks, and each node whose mutex it does not hold.
  pub record Spared (h : Held) (s s' : State T) : Type 0 where
    pub tree : s'.tag_tree_mtx ≡ s.tag_tree_mtx
    pub nodes : (q : Ptr) → lock_count s'.heap q ≡ lock_count s.heap q
    pub kept : (q : Ptr) (n : Node) → get q s.heap ≡ some n → holds q h ≡ 0 → get q s'.heap ≡ some n

  -- An outcome that is not of waiting, with what a thread that holds `h` leaves alone.
  abbrev pub Leaves : {B : Type 0} → Held → State T → Outcome (B × State T) → Type 0
  Leaves h s (done (b, s')) = Spared h s s'
  Leaves h s exit = Unit
  Leaves h s blocked = ⊥
  Leaves h s (fault e) = Unit

  -- An action between operations on locks: it does not wait, leaves the locks alone, and of the
  -- nodes that are there changes only those whose mutex the thread holds.
  pub record Spares {B : Type 0} (h : Held) (m : M T B) : Type 0 where
    pub at : (s : State T) → Leaves h s (m s)

  -- The program obeys the discipline from where its thread holds `h`, and returns `a` with `Q a`
  -- held.
  abbrev pub Obeys : {A : Type 0} → (A → Held) → Held → Prog T A → Type 0
  Obeys Q h (ret a) = h ≡ Q a
  Obeys Q h (rdlock k) = (h ≡ nothing) × Obeys Q reading k
  Obeys Q h (wrlock k) = (h ≡ nothing) × Obeys Q writing k
  Obeys Q h (rwunlock k) = (h' : Held) × (after_rwunlock h ≡ some h') × Obeys Q h' k
  Obeys Q h (lock p k) = (h' : Held) × (after_lock p h ≡ some h') × Obeys Q h' k
  Obeys Q h (unlock p k) = (h' : Held) × (after_unlock p h ≡ some h') × Obeys Q h' k
  Obeys Q h (free_node p k) = (h' : Held) × (after_unlock p h ≡ some h') × Obeys Q h' k
  Obeys Q h (atom {B} m k) = Spares h m × ((b : B) → Obeys Q h (k b))

  module _ {A B : Type 0} (Q : A → Held) (R : B → Held) (f : A → Prog T B)
      (next : (a : A) → Obeys R (Q a) (f a)) where
    pub Obeys-bind : (h : Held) (p : Prog T A) → Obeys Q h p → Obeys R h (p >>= f)
    Obeys-bind h (ret a) o = subst (λ k. Obeys R k (f a)) (sym o) (next a)
    Obeys-bind h (rdlock k) o = (o.0, Obeys-bind reading k o.1)
    Obeys-bind h (wrlock k) o = (o.0, Obeys-bind writing k o.1)
    Obeys-bind h (rwunlock k) (h', e, o) = (h', e, Obeys-bind h' k o)
    Obeys-bind h (lock p k) (h', e, o) = (h', e, Obeys-bind h' k o)
    Obeys-bind h (unlock p k) (h', e, o) = (h', e, Obeys-bind h' k o)
    Obeys-bind h (free_node p k) (h', e, o) = (h', e, Obeys-bind h' k o)
    Obeys-bind h (atom m k) (kept, o) = (kept, λ b. Obeys-bind h (k b) (o b))
