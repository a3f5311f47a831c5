-- ===== src/Parallel/Guard.antt =====
-- Calls of src/plcstub.c by several threads: the mutex of a tag guards its node.
use mathlib.Core.Path.{subst}
use plcstub.Base.{
  ℕ, ℤ, ◌≡◌, ◌⊎◌, refl, ◌∙◌, inl, inr, Bool, true, false, Bool-cases, Option, none, some, List, [],
  ◌∷◌, arith, ◌==◌, ==_iff, if◌then◌else◌,
}
use plcstub.Outcome
use plcstub.Outcome.{Outcome, done, exit, blocked, fault, dangling, not_locked}
use plcstub.Env.Rb.{Ptr, RbTree}
use plcstub.Env.Heap.{Node, Heap, get, get-put, get-delete}
use plcstub.Env.Libc.{Libc}
use plcstub.TagTree.State.{
  State, M, bind_outcome, RwLock, free, readers, writer, deref, write, mtx_lock, mtx_unlock,
  rw_rdlock, rw_wrlock, rw_unlock, rd_lock_from, wr_lock_from, rw_unlock_from,
}
use plcstub.Session.{Call, Result}
use plcstub.Parallel.{
  Prog, ret, rdlock, wrlock, rwunlock, lock, unlock, free_node, atom, exec, Step, here, there,
  Reach,
}
use plcstub.Parallel.Discipline.{
  Held, nothing, reading, writing, holding, both, after_unlock, holds, lock_count, Leaves, Obeys,
}
use plcstub.Parallel.Keeps.{apart}
use plcstub.Parallel.Obeys.{to}
use plcstub.Parallel.Counts.{total}
use plcstub.Parallel.Invariant.{AreObeying, IsUnlocked, AllBalanced, clients, Reach-AreCounted}

-- Whoever releases a node's mutex holds it.
unlocker_holds : (p : Ptr) (h h' : Held) → after_unlock p h ≡ some h' → holds p h ≡ 1
unlocker_holds p nothing h' e = absurd (ground arith)
unlocker_holds p reading h' e = absurd (ground arith)
unlocker_holds p writing h' e = absurd (ground arith)
unlocker_holds p (holding r) h' e = ground arith
unlocker_holds p (both r) h' e = ground arith

holds-cases : (q : Ptr) (h : Held) → (holds q h ≡ 0) ⊎ (holds q h ≡ 1)
holds-cases q h = ground arith

module _ {T A : Type 0} (q : Ptr) (n : Node) where
  -- The node is still there, as it was.
  abbrev Untouched : Outcome (Prog T A × State T) → Type 0
  Untouched (done (p, s)) = get q s.heap ≡ some n
  Untouched _ = Unit

  module _ (s : State T) (k : Prog T A) (at : get q s.heap ≡ some n) where
    abbrev go_on : Outcome (Unit {0} × State T) → Outcome (Prog T A × State T)
    go_on o = Outcome.◌>>=◌ o λ (_, s'). done (k, s')

    rdlock-Untouched : (l : RwLock) → Untouched (go_on (rd_lock_from l s))
    rdlock-Untouched free = at
    rdlock-Untouched (readers m) = at
    rdlock-Untouched writer = tt

    wrlock-Untouched : (l : RwLock) → Untouched (go_on (wr_lock_from l s))
    wrlock-Untouched free = at
    wrlock-Untouched (readers m) = tt
    wrlock-Untouched writer = tt

    rwunlock-Untouched : (l : RwLock) → Untouched (go_on (rw_unlock_from l s))
    rwunlock-Untouched free = tt
    rwunlock-Untouched (readers m) = at
    rwunlock-Untouched writer = at

    -- A write to another node
    write-Untouched : (p : Ptr) (m : Node) → (q == p) ≡ false → Untouched (go_on (write p m s))
    unfolding write
    write-Untouched p m other = get-put p q m s.heap ∙ rw other at

    abbrev on_node : Option Node → (Node → M T (Unit {0})) → Outcome (Prog T A × State T)
    on_node o f = go_on (bind_outcome (elim o [ none ↦ fault dangling | some n ↦ done (n, s) ]) f)

    lock-Untouched :
        (p : Ptr) (o : Option Node)
        → n.locked ≡ true
        → get p s.heap ≡ o
        → Untouched (
            on_node o
              λ m. if m.locked then (λ s. blocked) else write p (record m { locked = true }))
    lock-Untouched p none taken e = tt
    lock-Untouched p (some m) taken e = tested m.locked refl
      where
        tested :
            (b : Bool)
            → m.locked ≡ b
            → Untouched (
                on_node
                  (some m)
                  λ m. if b then (λ s. blocked) else write p (record m { locked = true }))
        tested true was = tt
        tested false was = write-Untouched p _ (elim (Bool-cases (q == p)) [
          | inr other ↦ other
          | inl equal ↦ absurd (ground (arith, (==_iff q p).0 equal, at, e, was, taken))
        ])

    unlock-Untouched :
        (p : Ptr) (o : Option Node)
        → (q == p) ≡ false
        → Untouched (
            on_node o λ m.
              if m.locked then write p (record m { locked = false }) else (λ s. fault not_locked))
    unlock-Untouched p none other = tt
    unlock-Untouched p (some m) other = tested m.locked
      where
        tested :
            (b : Bool)
            → Untouched (
                on_node
                  (some m)
                  λ m. if b then write p (record m { locked = false }) else (λ s. fault not_locked))
        tested true = write-Untouched p _ other
        tested false = tt

  atom-Untouched :
      {B : Type 0} (h : Held) (s : State T) (k : B → Prog T A) (o : Outcome (B × State T))
      → get q s.heap ≡ some n
      → holds q h ≡ 0
      → Leaves h s o
      → Untouched (Outcome.◌>>=◌ o λ (b, s'). done (k b, s'))
  atom-Untouched h s k (done (b, s')) at idle l = l.kept q n at idle
  atom-Untouched h s k exit at idle l = tt
  atom-Untouched h s k blocked at idle l = tt
  atom-Untouched h s k (fault e) at idle l = tt

  exec-Untouched :
      (h : Held) (p : Prog T A) (s : State T)
      → Obeys (to nothing) h p
      → get q s.heap ≡ some n
      → n.locked ≡ true
      → holds q h ≡ 0
      → Untouched (exec p s)
  unfolding exec rw_rdlock rw_wrlock rw_unlock mtx_lock mtx_unlock deref
  exec-Untouched h (ret a) s o at taken idle = tt
  exec-Untouched h (rdlock k) s o at taken idle = rdlock-Untouched s k at s.tag_tree_mtx
  exec-Untouched h (wrlock k) s o at taken idle = wrlock-Untouched s k at s.tag_tree_mtx
  exec-Untouched h (rwunlock k) s o at taken idle = rwunlock-Untouched s k at s.tag_tree_mtx
  exec-Untouched h (lock p k) s o at taken idle = lock-Untouched s k at p (get p s.heap) taken refl
  exec-Untouched h (unlock p k) s (h', e, o) at taken idle =
      unlock-Untouched s k at p (get p s.heap) (apart h p q (unlocker_holds p h h' e) idle)
  exec-Untouched h (free_node p k) s (h', e, o) at taken idle =
      get-delete p q s.heap ∙ rw (apart h p q (unlocker_holds p h h' e) idle) at
  exec-Untouched h (atom m k) s (kept, o) at taken idle =
      atom-Untouched h s k (m s) at idle (kept.at s)

module _ {T A : Type 0} where
  -- What the thread holds that makes the step.
  abbrev pub mover :
      List Held → {s s' : State T} {ps ps' : List (Prog T A)} → Step s ps s' ps' → Held
  mover [] st = nothing
  mover (h ∷ hs) (here e) = h
  mover (h ∷ hs) (there st) = mover hs st

  Step-Untouched :
      (q : Ptr) (n : Node) (hs : List Held) {s s' : State T} {ps ps' : List (Prog T A)}
      (st : Step s ps s' ps')
      → AreObeying hs ps
      → get q s.heap ≡ some n
      → n.locked ≡ true
      → holds q (mover hs st) ≡ 0
      → get q s'.heap ≡ some n
  Step-Untouched q n (h ∷ hs) {s} (here {p} e) (o, os) at taken idle =
      subst (Untouched q n) e (exec-Untouched q n h p s o at taken idle)
  Step-Untouched q n (h ∷ hs) (there st) (o, os) at taken idle =
      Step-Untouched q n hs st os at taken idle
  Step-Untouched q n [] (here e) o at taken idle = absurd o
  Step-Untouched q n [] (there st) o at taken idle = absurd o

count_locked :
    (h : Heap) (q : Ptr) (n : Node) → get q h ≡ some n → n.locked ≡ true → lock_count h q ≡ 1
unfolding lock_count
count_locked h q n at taken = ground (arith, at, taken)

-- Threads, each with calls among which plc_tag_lock and plc_tag_unlock do not occur, begin while
-- nobody holds a lock. However they interleave, where the mutex of a node is locked, exactly one
-- thread holds it; and a step by any other thread leaves the node as it is: its name, type, bytes,
-- callback and mutex.
pub mutex_guards :
    {T : Type 0} (rb : RbTree T) (libc : Libc) (fb : ℕ → ℤ → ℕ) (css : List (List Call))
    {s₀ s s' : State T} {ps ps' : List (Prog T (List Result))}
    → IsUnlocked s₀
    → AllBalanced css
    → Reach s₀ (clients rb libc fb css) s ps
    → (st : Step s ps s' ps')
    → (hs : List Held) × AreObeying hs ps
      × ((q : Ptr) (n : Node)
          → get q s.heap ≡ some n
          → n.locked ≡ true
          → (total (holds q) hs ≡ 1) × ((holds q (mover hs st) ≡ 1) ⊎ (get q s'.heap ≡ some n)))
mutex_guards rb libc fb css {s = s} u b r st =
    let (hs, os, c) = Reach-AreCounted rb libc fb css u b r in
    (
      hs,
      os,
      λ q n at taken. (
        c.nodes q ∙ count_locked s.heap q n at taken,
        elim (holds-cases q (mover hs st)) [
          | inr owns ↦ inl owns
          | inl idle ↦ inr (Step-Untouched q n hs st os at taken idle)
        ],
      ),
    )
