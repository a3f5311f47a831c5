-- ===== src/Parallel.antt =====
-- Calls of src/plcstub.c by several threads at once. A call is a program that is cut at every
-- operation on a lock of include/lock_utils.h; what stands between two of them is an action on the
-- state, which happens at once. A thread makes the calls of Session, one after the other.
pub mod Actions
pub mod Tree
pub mod Calls
pub mod Alone
pub mod Discipline
pub mod Waits
pub mod Keeps
pub mod Fresh
pub mod Obeys
pub mod Counts
pub mod Moves
pub mod Invariant
pub mod Standing
pub mod Progress
pub mod Exclusion
pub mod Guard
pub mod Finite
pub mod Runs
pub mod Serial
pub mod Single
pub mod Deadlock
use plcstub.Base.{◌≡◌, List, [], ◌∷◌}
use plcstub.Outcome
use plcstub.Outcome.{Outcome, done, blocked}
use plcstub.Env.Rb.{Ptr}
use plcstub.Env.Heap.{delete}
use plcstub.TagTree.State as State
use plcstub.TagTree.State.{State, M, rw_rdlock, rw_wrlock, rw_unlock, mtx_lock, mtx_unlock, modify}

-- What a thread still has to do: RW_RDLOCK, RW_WRLOCK and RW_UNLOCK on the tree, MTX_LOCK and
-- MTX_UNLOCK on a node, `free` of a node whose mutex is held, and the actions between.
pub data Prog (T : Type 0) (A : Type 0) : Type 1 where
  ret : A → Prog T A
  rdlock wrlock rwunlock : Prog T A → Prog T A
  lock unlock free_node : Ptr → Prog T A → Prog T A
  atom : {B : Type 0} → M T B → (B → Prog T A) → Prog T A

infixl 5 ◌>>=◌ ◌>>◌
abbrev pub ◌>>=◌ : {T A B : Type 0} → Prog T A → (A → Prog T B) → Prog T B
ret a >>= f = f a
rdlock k >>= f = rdlock (k >>= f)
wrlock k >>= f = wrlock (k >>= f)
rwunlock k >>= f = rwunlock (k >>= f)
lock p k >>= f = lock p (k >>= f)
unlock p k >>= f = unlock p (k >>= f)
free_node p k >>= f = free_node p (k >>= f)
atom m k >>= f = atom m (λ b. k b >>= f)

abbrev pub ◌>>◌ : {T B : Type 0} → Prog T (Unit {0}) → Prog T B → Prog T B
m >> n = m >>= λ _. n

module _ {T : Type 0} where
  -- `free` of a node whose mutex is held; what is unlocked after it is a copy.
  abbrev pub delete_node : Ptr → M T (Unit {0})
  delete_node p = modify (λ s. record s { heap = delete p s.heap })

  -- The next step of a thread. A thread that has returned does nothing.
  unfoldable pub exec : {A : Type 0} → Prog T A → State T → Outcome (Prog T A × State T)
  exec (ret a) s = blocked
  exec (rdlock k) s = Outcome.◌>>=◌ (rw_rdlock s) λ (_, s'). done (k, s')
  exec (wrlock k) s = Outcome.◌>>=◌ (rw_wrlock s) λ (_, s'). done (k, s')
  exec (rwunlock k) s = Outcome.◌>>=◌ (rw_unlock s) λ (_, s'). done (k, s')
  exec (lock p k) s = Outcome.◌>>=◌ (mtx_lock p s) λ (_, s'). done (k, s')
  exec (unlock p k) s = Outcome.◌>>=◌ (mtx_unlock p s) λ (_, s'). done (k, s')
  exec (free_node p k) s = Outcome.◌>>=◌ (delete_node p s) λ (_, s'). done (k, s')
  exec (atom m k) s = Outcome.◌>>=◌ (m s) λ (b, s'). done (k b, s')

  -- The program run by itself, to its end.
  unfoldable pub run : {A : Type 0} → Prog T A → M T A
  run (ret a) = State.pure a
  run (rdlock k) = State.◌>>◌ rw_rdlock (run k)
  run (wrlock k) = State.◌>>◌ rw_wrlock (run k)
  run (rwunlock k) = State.◌>>◌ rw_unlock (run k)
  run (lock p k) = State.◌>>◌ (mtx_lock p) (run k)
  run (unlock p k) = State.◌>>◌ (mtx_unlock p) (run k)
  run (free_node p k) = State.◌>>◌ (delete_node p) (run k)
  run (atom m k) = State.◌>>=◌ m λ b. run (k b)

  -- Of the threads, one makes a step.
  pub data Step {A : Type 0} : State T → List (Prog T A) → State T → List (Prog T A) → Type 1 where
    here :
        {s s' : State T} {p p' : Prog T A} {ps : List (Prog T A)}
        → exec p s ≡ done (p', s')
        → Step s (p ∷ ps) s' (p' ∷ ps)
    there :
        {s s' : State T} {p : Prog T A} {ps ps' : List (Prog T A)}
        → Step s ps s' ps'
        → Step s (p ∷ ps) s' (p ∷ ps')

  pub data Reach {A : Type 0} (s₀ : State T) (ps₀ : List (Prog T A))
      : State T → List (Prog T A) → Type 1 where
    start : Reach s₀ ps₀ s₀ ps₀
    later :
        {s s' : State T} {ps ps' : List (Prog T A)}
        → Reach s₀ ps₀ s ps
        → Step s ps s' ps'
        → Reach s₀ ps₀ s' ps'
