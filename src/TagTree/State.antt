-- ===== src/TagTree/State.antt =====
-- The state of the library, and the locks of include/lock_utils.h. A call of `pthread` that fails
-- does not occur here: what it would report is a blocked call or a fault.
use plcstub.Base.{ℕ, suc, ◌-◌, Bool, true, false, none, some, List, ℤ, ltb, if◌then◌else◌}
use plcstub.Outcome.{Outcome, done, exit, blocked, fault, dangling, not_locked}
use plcstub.Env.Rb.{Ptr}
use plcstub.Env.Heap.{Node, Heap, get, put}

-- The rwlock: free, held by a number of readers, or held by a writer.
pub data RwLock : Type 0 where
  free : RwLock
  readers : ℕ → RwLock
  writer : RwLock

-- A call of a tag's callback: the function, its arguments, and whether the caller holds the tag's
-- mutex at that time.
pub record Event : Type 0 where
  pub callback : ℕ
  pub tag_id : ℤ
  pub event : ℤ
  pub status : ℤ
  pub mutex_held : Bool

-- The static variables of tagtree.c, the nodes, and the callbacks called so far. `T` is the type of
-- tree heads.
pub record State (T : Type 0) : Type 0 where
  pub tree : T
  pub tree_size : ℕ
  pub tag_tree_inited : Bool
  pub tag_tree_mtx : RwLock
  pub heap : Heap
  pub events : List Event

abbrev pub M : Type 0 → Type 0 → Type 0
M T A = State T → Outcome (A × State T)

module _ {T : Type 0} where
  abbrev pub pure : {A : Type 0} → A → M T A
  pure a s = done (a, s)

  abbrev pub bind_outcome :
      {A B : Type 0} → Outcome (A × State T) → (A → M T B) → Outcome (B × State T)
  bind_outcome (done (a, s)) f = f a s
  bind_outcome exit f = exit
  bind_outcome blocked f = blocked
  bind_outcome (fault e) f = fault e

  infixl 5 ◌>>=◌ ◌>>◌
  abbrev pub ◌>>=◌ : {A B : Type 0} → M T A → (A → M T B) → M T B
  ◌>>=◌ m f s = bind_outcome (m s) f

  abbrev pub ◌>>◌ : {B : Type 0} → M T (Unit {0}) → M T B → M T B
  m >> n = m >>= λ _. n

  -- A step that does not touch the state.
  abbrev pub lift_outcome : {A : Type 0} → State T → Outcome A → Outcome (A × State T)
  lift_outcome s (done a) = done (a, s)
  lift_outcome s exit = exit
  lift_outcome s blocked = blocked
  lift_outcome s (fault e) = fault e

  abbrev pub lift : {A : Type 0} → Outcome A → M T A
  lift m s = lift_outcome s m

  abbrev pub gets : {A : Type 0} → (State T → A) → M T A
  gets f s = done (f s, s)

  abbrev pub modify : (State T → State T) → M T (Unit {0})
  modify f s = done (tt, f s)

  -- The node at an address.
  unfoldable pub deref : Ptr → M T Node
  deref p s = elim (get p s.heap) [ none ↦ fault dangling | some n ↦ done (n, s) ]

  -- A write to a node, for which the address has been read before.
  unfoldable pub write : Ptr → Node → M T (Unit {0})
  write p n s = done (tt, record s { heap = put p n s.heap })

  -- MTX_LOCK, MTX_UNLOCK on a node's mutex
  unfoldable pub mtx_lock : Ptr → M T (Unit {0})
  unfolding deref write
  mtx_lock p = do
    n ← deref p
    if n.locked then (λ s. blocked) else write p (record n { locked = true })

  unfoldable pub mtx_unlock : Ptr → M T (Unit {0})
  unfolding deref write
  mtx_unlock p = do
    n ← deref p
    if n.locked then write p (record n { locked = false }) else (λ s. fault not_locked)

  abbrev pub set_rw : RwLock → M T (Unit {0})
  set_rw l = modify (λ s. record s { tag_tree_mtx = l })

  abbrev pub rd_lock_from : RwLock → M T (Unit {0})
  rd_lock_from free = set_rw (readers 1)
  rd_lock_from (readers n) = set_rw (readers (suc n))
  rd_lock_from writer = λ s. blocked

  abbrev pub wr_lock_from : RwLock → M T (Unit {0})
  wr_lock_from free = set_rw writer
  wr_lock_from (readers n) = λ s. blocked
  wr_lock_from writer = λ s. blocked

  abbrev pub rw_unlock_from : RwLock → M T (Unit {0})
  rw_unlock_from free = λ s. fault not_locked
  rw_unlock_from (readers n) = set_rw (if ltb 1 n then readers (n - 1) else free)
  rw_unlock_from writer = set_rw free

  -- RW_RDLOCK, RW_WRLOCK, RW_UNLOCK on `tag_tree_mtx`
  unfoldable pub rw_rdlock : M T (Unit {0})
  rw_rdlock = do l ← gets (λ s. s.tag_tree_mtx); rd_lock_from l

  unfoldable pub rw_wrlock : M T (Unit {0})
  rw_wrlock = do l ← gets (λ s. s.tag_tree_mtx); wr_lock_from l

  unfoldable pub rw_unlock : M T (Unit {0})
  rw_unlock = do l ← gets (λ s. s.tag_tree_mtx); rw_unlock_from l
