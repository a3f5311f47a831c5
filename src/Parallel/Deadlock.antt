-- ===== src/Parallel/Deadlock.antt =====
-- plc_tag_lock and plc_tag_destroy of src/plcstub.c by two threads: the one looks the tag up again in
-- order to unlock it, and the other waits for the tag's mutex while it holds the tree's lock.
pub mod Lookup
use mathlib.Core.Path.{subst}
use plcstub.Base.{
  Bool, ℕ, ℤ, ◌≡◌, ◌⊎◌, refl, sym, ap, inl, inr, true, false, Option, none, some, List, [], ◌∷◌,
  arith, ◌==ℤ◌, if◌then◌else◌,
}
use plcstub.Outcome
use plcstub.Outcome.{Outcome, done, exit, blocked, fault}
use plcstub.Env.Rb.{Ptr, RbTree, Entry, entry}
use plcstub.Env.Heap.{Node, Heap, get, put, get-put}
use plcstub.Env.Libc.{Libc}
use plcstub.TagTree.State.{
  State, Event, RwLock, free, readers, writer, deref, write, mtx_lock, rw_rdlock, rw_wrlock,
  rw_unlock,
}
use plcstub.TagTree.Ops.{metatag_id, rb_find, rb_remove}
use plcstub.Status.{status_ok, err_not_found}
use plcstub.Api.RoundTrip.{IsTag}
use plcstub.Session.{Call, Result, int, destroy}
use plcstub.Session as Names
use plcstub.Parallel.{
  Prog, ret, rdlock, wrlock, rwunlock, lock, unlock, atom, ◌>>=◌, ◌>>◌, exec, Reach, start,
}
use plcstub.Parallel.Calls.{client, as_int, call_prog, with_tag_prog}
use plcstub.Parallel.Tree.{
  tree_lookup_prog, tree_init_prog, tree_remove_prog, metanode_create_prog, node_destroy_prog,
}
use plcstub.Parallel.Runs.{Runs, stay, go, Runs->>=, Runs-trans, Reach-first, Reach-second}
use plcstub.Parallel.Waits.{Ends}
use plcstub.Parallel.Progress.{SomeGoes, AreReturned}
use plcstub.Parallel.Deadlock.Lookup.{take_prog, at, lookup-Runs, remove-Runs}

-- The threads get to where none goes on though not all have returned.
abbrev pub CanDeadlock : {T A : Type 0} → State T → List (Prog T A) → Type 1
CanDeadlock {T} {A} s ps₀ =
    (s' : State T) × (ps : List (Prog T A)) × Reach s ps₀ s' ps
    × (SomeGoes s' ps ⊎ AreReturned ps → ⊥)

blocked-Ends :
    {A : Type 0} {B : Type 1} (o : Outcome A) (f : A → Outcome B)
    → o ≡ blocked
    → Ends (Outcome.◌>>=◌ o f)
    → ⊥
blocked-Ends (done a) f e h = absurd (cc)
blocked-Ends exit f e h = absurd (cc)
blocked-Ends blocked f e h = h
blocked-Ends (fault x) f e h = absurd (cc)

module _ {T : Type 0} (rb : RbTree T) (libc : Libc) (fb : ℕ → ℤ → ℕ) (id : ℤ)
    (cs ds : List Call) where
  -- The threads, and what they have left where they stand.
  abbrev locker : Prog T (List Result)
  locker = client rb libc fb (Names.lock id ∷ Names.unlock id ∷ cs)

  abbrev destroyer : Prog T (List Result)
  destroyer = client rb libc fb (destroy id ∷ ds)

  abbrev locker_left : Prog T (List Result)
  locker_left = do rs ← client rb libc fb (Names.unlock id ∷ cs); ret (int status_ok ∷ rs)

  abbrev destroyer_left : Entry → Prog T (List Result)
  destroyer_left x = do
    r ← as_int rb libc fb (take_prog rb libc (some x))
    rs ← client rb libc fb ds
    ret (r ∷ rs)

  module _ (t : T) (size : ℕ) (es : List Event) (x : Entry) (n : Node) (h : Heap)
      (f : rb.find t (entry id 0) ≡ some x) (there_is : get x.node h ≡ some n)
      (open_node : n.locked ≡ false) (other : (id ==ℤ metatag_id) ≡ false) where
    abbrev held : Heap
    held = put x.node (record n { locked = true }) h

    abbrev state : RwLock → Heap → State T
    state l h = at rb libc t size es id x l h

    locks : (l : RwLock) → mtx_lock x.node (state l h) ≡ done (tt, state l held)
    unfolding mtx_lock deref write
    locks l = ground (arith, there_is, open_node)

    waits : (l : RwLock) → mtx_lock x.node (state l held) ≡ blocked
    unfolding mtx_lock deref write
    waits l = ground (arith, get-put x.node x.node (record n { locked = true }) h)

    locker-Runs : Runs locker (state free h) locker_left (state free held)
    unfolding client call_prog with_tag_prog exec
    locker-Runs =
        Runs-trans
          (Runs->>= _ (Runs->>= _ (Runs->>= _ (lookup-Runs rb libc t size es id x h other f))))
          (go (ap (λ o. Outcome.◌>>=◌ o λ (_, s'). done (locker_left, s')) (locks free)) stay)

    destroyer-Runs : Runs destroyer (state free held) (destroyer_left x) (state writer held)
    unfolding client call_prog tree_remove_prog
    destroyer-Runs =
        Runs->>= _
          (Runs->>= _ (remove-Runs rb libc t size es id x (id ==ℤ metatag_id) held other f))

    reached :
        Reach
          (state free h)
          (locker ∷ destroyer ∷ [])
          (state writer held)
          (locker_left ∷ destroyer_left x ∷ [])
    reached = Reach-second destroyer-Runs (Reach-first locker-Runs start)

    stuck :
        SomeGoes (state writer held) (locker_left ∷ destroyer_left x ∷ [])
          ⊎ AreReturned (locker_left ∷ destroyer_left x ∷ [])
        → ⊥
    unfolding client call_prog with_tag_prog tree_lookup_prog tree_init_prog exec rw_rdlock
    stuck (inl (inl e)) = absurd e
    stuck (inl (inr (inl e))) = blocked-Ends _ _ (waits writer) e
    stuck (inl (inr (inr e))) = absurd e
    stuck (inr (r, rs)) = absurd r

    deadlocks : CanDeadlock (state free h) (locker ∷ destroyer ∷ [])
    deadlocks = (state writer held, locker_left ∷ destroyer_left x ∷ [], reached, stuck)

-- On a started library, for a tag other than the metatag whose mutex is free: one thread calls
-- plc_tag_lock and then plc_tag_unlock on it, and another one plc_tag_destroy, whatever they do
-- afterwards. There is a run of the two in which both wait for ever.
pub lock_destroy_deadlock :
    {T : Type 0} (rb : RbTree T) (libc : Libc) (fb : ℕ → ℤ → ℕ) (s : State T) (id : ℤ) (x : Entry)
    (n : Node) (cs ds : List Call)
    → IsTag rb s id x n
    → (id ==ℤ metatag_id) ≡ false
    → CanDeadlock s (
        client rb libc fb (Names.lock id ∷ Names.unlock id ∷ cs)
        ∷ client rb libc fb (destroy id ∷ ds)
        ∷ [])
lock_destroy_deadlock {T} rb libc fb s id x n cs ds tag other =
    let on : true ≡ s.tag_tree_inited = sym tag.ready.inited in
    let open_lock : free ≡ s.tag_tree_mtx = sym tag.ready.unlocked in
    let same : ◌≡◌ {A = State T} (at rb libc s.tree s.tree_size s.events id x free s.heap) s =
      λ i. record s { tag_tree_inited = on i; tag_tree_mtx = open_lock i } in
    subst (λ s. CanDeadlock s (locker rb libc fb id cs ds ∷ destroyer rb libc fb id cs ds ∷ []))
      same
      (deadlocks rb libc fb id cs ds s.tree s.tree_size s.events x n s.heap tag.found tag.at
        tag.free other)
