-- ===== src/Parallel/Moves.antt =====
-- A step of one thread that obeys the discipline: it still does, and the locks count who holds them.
use plcstub.Base.{
  ℕ, ◌+◌, ◌≡◌, refl, sym, ap, Bool, true, false, Option, none, some, arith, ◌==◌, if◌then◌else◌,
}
use mathlib.Core.Path.{subst}
use plcstub.Outcome
use plcstub.Outcome.{Outcome, done, exit, blocked, fault, dangling, not_locked}
use plcstub.Env.Rb.{Ptr}
use plcstub.Env.Heap.{Node, get}
use plcstub.TagTree.State.{
  State, M, bind_outcome, RwLock, free, readers, writer, deref, write, mtx_lock, mtx_unlock,
  rw_rdlock, rw_wrlock, rw_unlock, rd_lock_from, wr_lock_from, rw_unlock_from,
}
use plcstub.Threads.{is_writer, add_reader, drop_reader}
use plcstub.Threads.Weights.{readers_of, writers_of}
use plcstub.Parallel.{Prog, ret, rdlock, wrlock, rwunlock, lock, unlock, free_node, atom, exec}
use plcstub.Parallel.Discipline.{
  Held, nothing, reading, writing, holding, both, after_rwunlock, lock_bit, lock_count, Leaves,
  Obeys,
}
use plcstub.Parallel.Counts.{
  after_lock_lem, after_unlock_lem, reads, writes, AreCounted, with_one, lock_count-le,
  lock_count-set, lock_count-delete, count_rdlock, count_runlock, count_wrlock, count_wunlock,
  count_Spared, count_node,
}
use plcstub.Parallel.Discipline.{holds}

module _ {T A : Type 0} (Q : A → Held) (t : (Held → ℕ) → ℕ) where
  -- Behind a step of one thread: it obeys from what it holds now, and the locks know.
  abbrev pub After : Outcome (Prog T A × State T) → Type 0
  After (done (p, s)) = (h : Held) × Obeys Q h p × AreCounted s (with_one h t)
  After _ = Unit

  module _ (s : State T) (k : Prog T A) where
    relocked :
        (f : RwLock → RwLock) (h : Held) (l : RwLock)
        → s.tag_tree_mtx ≡ l
        → AreCounted (record s { tag_tree_mtx = f s.tag_tree_mtx }) (with_one h t)
        → AreCounted (record s { tag_tree_mtx = f l }) (with_one h t)
    relocked f h l e c =
        subst (λ l. AreCounted (record s { tag_tree_mtx = f l }) (with_one h t)) e c

    rdlock-After :
        Obeys Q reading k
        → AreCounted s (with_one nothing t)
        → (l : RwLock) → s.tag_tree_mtx ≡ l
        → After (Outcome.◌>>=◌ (rd_lock_from l s) λ (_, s'). done (k, s'))
    rdlock-After o c free e =
        (reading, o, relocked add_reader reading free e (count_rdlock s t c (ap is_writer e)))
    rdlock-After o c (readers n) e = (
      reading,
      o,
      relocked add_reader reading (readers n) e (count_rdlock s t c (ap is_writer e)),
    )
    rdlock-After o c writer e = tt

    wrlock-After :
        Obeys Q writing k
        → AreCounted s (with_one nothing t)
        → (l : RwLock) → s.tag_tree_mtx ≡ l
        → After (Outcome.◌>>=◌ (wr_lock_from l s) λ (_, s'). done (k, s'))
    wrlock-After o c free e = (writing, o, count_wrlock s t c e)
    wrlock-After o c (readers n) e = tt
    wrlock-After o c writer e = tt

    -- RW_UNLOCK of a reader
    runlock-After :
        Obeys Q nothing k
        → AreCounted s (with_one reading t)
        → (l : RwLock) → s.tag_tree_mtx ≡ l
        → After (Outcome.◌>>=◌ (rw_unlock_from l s) λ (_, s'). done (k, s'))
    runlock-After o c free e = tt
    runlock-After o c (readers n) e =
        (nothing, o, relocked drop_reader nothing (readers n) e (count_runlock s t c))
    runlock-After o c writer e = (nothing, o, absurd (omega (arith, c.read_held, ap readers_of e)))

    -- RW_UNLOCK of a writer
    wunlock-After :
        (h h' : Held)
        → writes h ≡ 1
        → reads h ≡ 0
        → writes h' ≡ 0
        → reads h' ≡ 0
        → ((q : Ptr) → holds q h' ≡ holds q h)
        → Obeys Q h' k
        → AreCounted s (with_one h t)
        → (l : RwLock) → s.tag_tree_mtx ≡ l
        → After (Outcome.◌>>=◌ (rw_unlock_from l s) λ (_, s'). done (k, s'))
    wunlock-After h h' a b a' b' same o c free e = tt
    wunlock-After h h' a b a' b' same o c (readers n) e =
        absurd (omega (arith, c.write_held, ap writers_of e, a))
    wunlock-After h h' a b a' b' same o c writer e =
        (h', o, count_wunlock s t h h' a b a' b' same c)

    rwunlock-After :
        (h h' : Held)
        → after_rwunlock h ≡ some h'
        → Obeys Q h' k
        → AreCounted s (with_one h t)
        → After (exec (rwunlock k) s)
    unfolding exec rw_unlock
    rwunlock-After nothing h' e o c = absurd (ground arith)
    rwunlock-After reading h' e o c =
        let left : nothing ≡ h' = ground arith in
        runlock-After (subst (λ h. Obeys Q h k) (sym left) o) c s.tag_tree_mtx refl
    rwunlock-After writing h' e o c =
        let left : nothing ≡ h' = ground arith in
        wunlock-After writing nothing refl refl refl refl (λ q. refl)
          (subst (λ h. Obeys Q h k) (sym left) o) c s.tag_tree_mtx refl
    rwunlock-After (holding p) h' e o c = absurd (ground arith)
    rwunlock-After (both p) h' e o c =
        let left : holding p ≡ h' = ground arith in
        wunlock-After (both p) (holding p) refl refl refl refl (λ q. refl)
          (subst (λ h. Obeys Q h k) (sym left) o) c s.tag_tree_mtx refl

    -- What an operation on the mutex of the node found at `p` comes to.
    abbrev on_node : Option Node → (Node → M T (Unit {0})) → Outcome (Prog T A × State T)
    on_node o f =
        Outcome.◌>>=◌ (bind_outcome (elim o [ none ↦ fault dangling | some n ↦ done (n, s) ]) f)
          λ (_, s'). done (k, s')

    module _ (p : Ptr) (h h' : Held) (r : reads h' ≡ reads h) (w : writes h' ≡ writes h)
        (o : Obeys Q h' k) (c : AreCounted s (with_one h t)) where
      -- The mutex is set to `to`; it was `from`.
      set-After :
          (n : Node) (from to : Bool)
          → get p s.heap ≡ some n
          → n.locked ≡ from
          → ((q : Ptr)
              → holds q h' + (if q == p then lock_bit from else 0)
                ≡ holds q h + (if q == p then lock_bit to else 0))
          → After (Outcome.◌>>=◌ (write p (record n { locked = to }) s) λ (_, s'). done (k, s'))
      unfolding write lock_count
      set-After n from to at was moved = (
        h',
        o,
        count_node s _ t p (lock_bit from) (lock_bit to) h h' refl
            (λ q. lock_count-set s.heap p q _) (ground (arith, at, was)) r w moved c,
      )

      module _ (moved : (q : Ptr) → holds q h' ≡ holds q h + (if q == p then 1 else 0)) where
        lock-After :
            (m : Option Node)
            → get p s.heap ≡ m
            → After (
                on_node m
                  λ n. if n.locked then (λ s. blocked) else write p (record n { locked = true }))
        lock-After none e = tt
        lock-After (some n) e = tested n.locked refl
          where
            tested :
                (b : Bool)
                → n.locked ≡ b
                → After (
                    on_node
                      (some n)
                      λ n. if b then (λ s. blocked) else write p (record n { locked = true }))
            tested true was = tt
            tested false was = set-After n false true e was (λ q. ground (arith, moved q))

      module _ (moved : (q : Ptr) → holds q h' + (if q == p then 1 else 0) ≡ holds q h) where
        unlock-After :
            (m : Option Node)
            → get p s.heap ≡ m
            → After (
                on_node m λ n.
                  if n.locked
                  then write p (record n { locked = false })
                  else (λ s. fault not_locked))
        unlock-After none e = tt
        unlock-After (some n) e = tested n.locked refl
          where
            tested :
                (b : Bool)
                → n.locked ≡ b
                → After (
                    on_node (some n) λ n.
                      if b then write p (record n { locked = false }) else (λ s. fault not_locked))
            tested true was = set-After n true false e was (λ q. ground (arith, moved q))
            tested false was = tt

        free-After : After (exec (free_node p k) s)
        unfolding exec
        free-After = (
          h',
          o,
          count_node s _ t p 1 0 h h' refl (λ q. lock_count-delete s.heap p q)
              (ground (arith, moved p, c.nodes p, lock_count-le s.heap p)) r w
              (λ q. ground (arith, moved q)) c,
        )

  atom-After :
      {B : Type 0} (h : Held) (k : B → Prog T A)
      → ((b : B) → Obeys Q h (k b))
      → (s : State T) → AreCounted s (with_one h t)
      → (o : Outcome (B × State T)) → Leaves h s o
      → After (Outcome.◌>>=◌ o λ (b, s'). done (k b, s'))
  atom-After h k ok s c (done (b, s')) l = (h, ok b, count_Spared s s' (with_one h t) l c)
  atom-After h k ok s c exit l = tt
  atom-After h k ok s c blocked l = tt
  atom-After h k ok s c (fault e) l = tt

  pub exec-After :
      (h : Held) (p : Prog T A) (s : State T)
      → Obeys Q h p
      → AreCounted s (with_one h t)
      → After (exec p s)
  unfolding exec rw_rdlock rw_wrlock mtx_lock mtx_unlock deref
  exec-After h (ret a) s o c = tt
  exec-After h (rdlock k) s (idle, o) c =
      rdlock-After s k o (subst (λ h. AreCounted s (with_one h t)) idle c) s.tag_tree_mtx refl
  exec-After h (wrlock k) s (idle, o) c =
      wrlock-After s k o (subst (λ h. AreCounted s (with_one h t)) idle c) s.tag_tree_mtx refl
  exec-After h (rwunlock k) s (h', e, o) c = rwunlock-After s k h h' e o c
  exec-After h (lock p k) s (h', e, o) c =
      let (r, w, moved) = after_lock_lem p h h' e in
      lock-After s k p h h' r w o c moved (get p s.heap) refl
  exec-After h (unlock p k) s (h', e, o) c =
      let (r, w, moved) = after_unlock_lem p h h' e in
      unlock-After s k p h h' r w o c moved (get p s.heap) refl
  exec-After h (free_node p k) s (h', e, o) c =
      let (r, w, moved) = after_unlock_lem p h h' e in free-After s k p h h' r w o c moved
  exec-After h (atom m k) s (kept, o) c = atom-After h k o s c (m s) (kept.at s)
