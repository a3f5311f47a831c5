-- ===== src/Parallel/Standing.antt =====
-- How a thread stands that obeys the discipline: it goes on, has returned, or waits for a lock.
use plcstub.Base.{
  ℕ, ◌≡◌, ◌⊎◌, refl, inl, inr, Bool, true, false, Option, none, some, arith, if◌then◌else◌,
}
use plcstub.Outcome
use plcstub.Outcome.{Outcome, done, exit, blocked, fault, dangling, not_locked}
use plcstub.Env.Rb.{Ptr}
use plcstub.Env.Heap.{Node, get}
use plcstub.TagTree.State.{
  State, M, bind_outcome, RwLock, free, readers, writer, deref, write, mtx_lock, mtx_unlock,
  rw_rdlock, rw_wrlock, rw_unlock, rd_lock_from, wr_lock_from, rw_unlock_from,
}
use plcstub.Parallel.{Prog, ret, rdlock, wrlock, rwunlock, lock, unlock, free_node, atom, exec}
use plcstub.Parallel.Discipline.{
  Held, nothing, reading, writing, holding, both, after_lock, lock_count, Leaves, Obeys,
}
use plcstub.Parallel.Waits.{Ends}
use plcstub.Parallel.Obeys.{to}

abbrev pub mutexes : Held → ℕ
mutexes (holding p) = 1
mutexes (both p) = 1
mutexes _ = 0

-- Whoever asks for a node's mutex holds none.
locker_holds : (p : Ptr) (h h' : Held) → after_lock p h ≡ some h' → mutexes h ≡ 0
locker_holds p nothing h' e = refl
locker_holds p writing h' e = refl
locker_holds p reading h' e = absurd (ground arith)
locker_holds p (holding q) h' e = absurd (ground arith)
locker_holds p (both q) h' e = absurd (ground arith)

module _ {T A : Type 0} where
  abbrev pub IsReturned : Prog T A → Type 0
  IsReturned (ret a) = Unit
  IsReturned _ = ⊥

  -- How a thread stands that holds `h`. Whoever waits for a node's mutex holds no other one.
  pub data Standing (s : State T) (h : Held) (p : Prog T A) : Type 0 where
    returned : IsReturned p → h ≡ nothing → Standing s h p
    goes_on : Ends (exec p s) → Standing s h p
    waits_tree : h ≡ nothing → (s.tag_tree_mtx ≡ free → ⊥) → Standing s h p
    waits_node : (q : Ptr) → mutexes h ≡ 0 → lock_count s.heap q ≡ 1 → Standing s h p

  module _ (s : State T) (k : Prog T A) where
    abbrev go_on : Outcome (Unit {0} × State T) → Outcome (Prog T A × State T)
    go_on o = Outcome.◌>>=◌ o λ (_, s'). done (k, s')

    -- The operations on the tree's lock
    rdlock_stands :
        (l : RwLock)
        → s.tag_tree_mtx ≡ l
        → Ends (go_on (rd_lock_from l s)) ⊎ (s.tag_tree_mtx ≡ free → ⊥)
    rdlock_stands free e = inl tt
    rdlock_stands (readers n) e = inl tt
    rdlock_stands writer e = inr λ f. ground (arith, e, f)

    wrlock_stands :
        (l : RwLock)
        → s.tag_tree_mtx ≡ l
        → Ends (go_on (wr_lock_from l s)) ⊎ (s.tag_tree_mtx ≡ free → ⊥)
    wrlock_stands free e = inl tt
    wrlock_stands (readers n) e = inr λ f. ground (arith, e, f)
    wrlock_stands writer e = inr λ f. ground (arith, e, f)

    rwunlock-Ends : (l : RwLock) → Ends (go_on (rw_unlock_from l s))
    rwunlock-Ends free = tt
    rwunlock-Ends (readers n) = tt
    rwunlock-Ends writer = tt

    -- Those on a node's mutex
    abbrev on_node : Option Node → (Node → M T (Unit {0})) → Outcome (Prog T A × State T)
    on_node o f = go_on (bind_outcome (elim o [ none ↦ fault dangling | some n ↦ done (n, s) ]) f)

    lock_stands :
        (p : Ptr) (o : Option Node)
        → get p s.heap ≡ o
        → Ends (
            on_node o
              λ n. if n.locked then (λ s. blocked) else write p (record n { locked = true }))
          ⊎ (lock_count s.heap p ≡ 1)
    unfolding write lock_count
    lock_stands p none e = inl tt
    lock_stands p (some n) e = tested n.locked refl
      where
        tested :
            (b : Bool)
            → n.locked ≡ b
            → Ends (
                on_node
                  (some n)
                  λ n. if b then (λ s. blocked) else write p (record n { locked = true }))
              ⊎ (lock_count s.heap p ≡ 1)
        tested true was = inr (ground (arith, e, was))
        tested false was = inl tt

    unlock-Ends :
        (p : Ptr) (o : Option Node)
        → Ends (
            on_node o λ n.
              if n.locked then write p (record n { locked = false }) else (λ s. fault not_locked))
    unfolding write
    unlock-Ends p none = tt
    unlock-Ends p (some n) = tested n.locked
      where
        tested :
            (b : Bool)
            → Ends (
                on_node
                  (some n)
                  λ n. if b then write p (record n { locked = false }) else (λ s. fault not_locked))
        tested true = tt
        tested false = tt

  atom-Ends :
      {B : Type 0} (h : Held) (s : State T) (k : B → Prog T A) (o : Outcome (B × State T))
      → Leaves h s o
      → Ends {A = Prog T A × State T} (Outcome.◌>>=◌ o λ (b, s'). done (k b, s'))
  atom-Ends h s k (done b) l = tt
  atom-Ends h s k exit l = tt
  atom-Ends h s k blocked l = absurd l
  atom-Ends h s k (fault e) l = tt

  pub stands : (s : State T) (h : Held) (p : Prog T A) → Obeys (to nothing) h p → Standing s h p
  unfolding exec rw_rdlock rw_wrlock rw_unlock mtx_lock mtx_unlock deref
  stands s h (ret a) o = returned tt o
  stands s h (rdlock k) (idle, o) = elim (rdlock_stands s k s.tag_tree_mtx refl) [
    | inl e ↦ goes_on e
    | inr busy ↦ waits_tree idle busy
  ]
  stands s h (wrlock k) (idle, o) = elim (wrlock_stands s k s.tag_tree_mtx refl) [
    | inl e ↦ goes_on e
    | inr busy ↦ waits_tree idle busy
  ]
  stands s h (rwunlock k) o = goes_on (rwunlock-Ends s k s.tag_tree_mtx)
  stands s h (lock p k) (h', e, o) = elim (lock_stands s k p (get p s.heap) refl) [
    | inl ends ↦ goes_on ends
    | inr taken ↦ waits_node p (locker_holds p h h' e) taken
  ]
  stands s h (unlock p k) o = goes_on (unlock-Ends s k p (get p s.heap))
  stands s h (free_node p k) o = goes_on tt
  stands s h (atom m k) (kept, o) = goes_on (atom-Ends h s k (m s) (kept.at s))
