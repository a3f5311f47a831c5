-- ===== src/Tests/Parallels.antt =====
-- Two threads that call the library on the sample state, and the theorems about threads there.
use plcstub.Base.{some, true, ◌≤◌, ◌≡◌, ◌⊎◌, refl, List, [], ◌∷◌, map, pos, codes, length, inl, inr}
use plcstub.Outcome.{done}
use plcstub.Env.Rb.{Ptr, Entry, entry, list_tree, list_find, tagcmp}
use plcstub.Env.Libc.{bump}
use plcstub.TagTree.State.{State, readers, rw_rdlock, rw_unlock, deref, mtx_lock, write}
use plcstub.Api.Access.{uint8}
use plcstub.Env.Heap as Heap
use plcstub.TagTree.Ops.{rb_find}
use plcstub.Session.{Call, Result, create, destroy, lock, unlock, get, set}
use plcstub.Env.Heap.{Node}
use plcstub.Parallel.{Step, Prog, Reach, ret, start, later, here, there, exec}
use plcstub.Parallel.Calls.{client, call_prog, with_tag_prog, get_prog, set_prog, set_locked_prog}
use plcstub.Parallel.Tree.{tree_lookup_prog, tree_init_prog, tree_remove_prog}
use plcstub.Parallel.Discipline.{Held, nothing, lock_count, Obeys}
use plcstub.Parallel.Counts.{reads, writes, total}
use plcstub.Parallel.Discipline.{holds}
use plcstub.Parallel.Obeys.{to}
use plcstub.Parallel.Obeys.Calls.{call_prog-Obeys}
use plcstub.Parallel.Invariant.{AreObeying, IsUnlocked, AllBalanced, clients}
use plcstub.Parallel.Exclusion.{exclusive_locks}
use plcstub.Parallel.Finite.{Completes, clients_complete}
use plcstub.Parallel.Guard.{mover, mutex_guards}
use plcstub.Parallel.Serial.{spec_serial, clients_serve}
use plcstub.Parallel.Single.{client_served}
use plcstub.Session.Spec.{spec_session}
use plcstub.Session.View.{view}
use plcstub.Session.Invariant.{IsInvariant}
use plcstub.Api.Attrib.{strtok, scan}
use plcstub.Tests.Startups.{bump-IsGenerous}
use plcstub.Tests.Sessions.{lint_sample, lint_sample-IsInvariant, lint_sample-AreCalm}
use native.Mathlib.Omega.{arith}
use plcstub.Parallel.Deadlock.{CanDeadlock, lock_destroy_deadlock}
use plcstub.Tests.Sample.{sample, sample_unlocked, lint_node, lint-IsTag}
use plcstub.Tests.Accesses.{no_floats}

abbrev setter : List Call
setter = set uint8 (pos 2) (pos 0) 7 ∷ get uint8 (pos 2) (pos 0) ∷ []

abbrev remover : List Call
remover = destroy (pos 2) ∷ []

abbrev both_calls : List (List Call)
both_calls = setter ∷ remover ∷ []

sample-IsUnlocked : IsUnlocked sample
sample-IsUnlocked = record { tree = refl; nodes = sample_unlocked }

both_calls-AllBalanced : AllBalanced both_calls
both_calls-AllBalanced = ((tt, (tt, tt)), ((tt, tt), tt))

-- Both have the tree's lock to read.
abbrev two_readers : State (List Entry)
two_readers = record sample { tag_tree_mtx = readers 2 }

both_read :
    (ps : List (Prog (List Entry) (List Result))) × Reach sample
      (clients list_tree bump no_floats both_calls)
      two_readers
      ps
unfolding client call_prog tree_lookup_prog tree_init_prog with_tag_prog tree_remove_prog set_prog
    exec rw_rdlock
both_read = (_, later (later start (here refl)) (there (here refl)))

call_prog-Obeys_example :
    Obeys (to nothing) nothing (call_prog list_tree bump no_floats (destroy (pos 2)))
call_prog-Obeys_example = call_prog-Obeys list_tree bump no_floats (destroy (pos 2)) tt

clients_complete_example : Completes sample (clients list_tree bump no_floats both_calls)
clients_complete_example =
    clients_complete list_tree bump no_floats both_calls sample sample-IsUnlocked
      both_calls-AllBalanced

exclusive_locks_example :
    (hs : List Held) × AreObeying hs both_read.0
    × ((q : Ptr) → (total (holds q) hs ≡ lock_count two_readers.heap q) × (total (holds q) hs ≤ 1))
    × ((total writes hs ≡ 0) ⊎ ((total writes hs ≡ 1) × (total reads hs ≡ 0)))
exclusive_locks_example =
    exclusive_locks list_tree bump no_floats both_calls sample-IsUnlocked both_calls-AllBalanced
      both_read.1

lock_destroy_deadlock_example : CanDeadlock sample (
    client list_tree bump no_floats (lock (pos 2) ∷ unlock (pos 2) ∷ [])
    ∷ client list_tree bump no_floats (destroy (pos 2) ∷ [])
    ∷ [])
lock_destroy_deadlock_example =
    lock_destroy_deadlock list_tree bump no_floats sample (pos 2) (entry (pos 2) 1) lint_node [] []
      lint-IsTag refl

-- One thread makes a tag and uses it; the other one reads the metatag and destroys a tag.
abbrev maker : List Call
maker =
    create (codes "name=tank") (pos 9)
    ∷ set uint8 (pos 3) (pos 0) 77
    ∷ get uint8 (pos 3) (pos 0)
    ∷ []

abbrev lister : List Call
lister = get uint8 (pos 1) (pos 0) ∷ destroy (pos 2) ∷ []

clients_serve_example :
    (rss : List (List Result)) × (s' : State (List Entry)) × Reach lint_sample
      (clients list_tree bump no_floats (maker ∷ lister ∷ []))
      s'
      (map ret rss)
    × (spec_serial no_floats (maker ∷ lister ∷ []) (view list_tree lint_sample)
        ≡ done (rss, view list_tree s'))
    × (map length rss ≡ 3 ∷ 2 ∷ [])
    × IsInvariant list_tree s'
unfolding strtok scan
clients_serve_example =
    clients_serve list_tree bump bump-IsGenerous no_floats 3 (maker ∷ lister ∷ []) lint_sample
      lint_sample-IsInvariant lint_sample-AreCalm (omega arith) (omega arith)
      (((refl, omega arith), (tt, (tt, tt))), ((tt, (tt, tt)), tt))
      (
        (tt, ((omega arith, inl refl), ((omega arith, inl refl), tt))),
        (((omega arith, inr refl), (tt, tt)), tt),
      )

-- A thread has the tree's lock to read, to see whether the library has started.
lister_starts :
    (ps : List (Prog (List Entry) (List Result))) × Reach lint_sample
      (client list_tree bump no_floats lister ∷ [])
      (record lint_sample { tag_tree_mtx = readers 1 })
      ps
unfolding client call_prog tree_lookup_prog tree_init_prog get_prog exec rw_rdlock
lister_starts = (_, later start (here refl))

client_served_example :
    (rs : List Result) × (s' : State (List Entry)) × Reach
      (record lint_sample { tag_tree_mtx = readers 1 })
      lister_starts.0
      s'
      (ret rs ∷ [])
    × (spec_session no_floats lister (view list_tree lint_sample) ≡ done (rs, view list_tree s'))
    × (length rs ≡ 2)
    × IsInvariant list_tree s'
client_served_example =
    client_served list_tree bump bump-IsGenerous no_floats 3 lister lint_sample
      (record lint_sample { tag_tree_mtx = readers 1 }) lister_starts.0 lint_sample-IsInvariant
      lint_sample-AreCalm (omega arith) (omega arith) (tt, (tt, tt))
      ((omega arith, inr refl), (tt, tt)) lister_starts.1

-- The first thread holds the mutex of the tag, and the second one goes on.
setter_holds :
    (s : State (List Entry)) × (ps : List (Prog (List Entry) (List Result))) × Reach sample
      (clients list_tree bump no_floats both_calls)
      s
      ps
unfolding client call_prog tree_lookup_prog tree_init_prog with_tag_prog tree_remove_prog set_prog
    set_locked_prog exec rw_rdlock rw_unlock mtx_lock deref write rb_find list_find tagcmp Heap.get
    Heap.put Heap.delete
setter_holds = (
  _,
  _,
  later
      (later
        (later (later (later (later (later start (here refl)) (here refl)) (here refl)) (here refl))
          (here refl))
        (here refl))
      (here refl),
)

remover_starts :
    (s : State (List Entry)) × (ps : List (Prog (List Entry) (List Result))) × Step setter_holds.0
      setter_holds.1 s ps
unfolding setter_holds client call_prog tree_remove_prog tree_init_prog exec rw_rdlock
remover_starts = (_, _, there (here refl))

mutex_guards_example :
    (hs : List Held) × AreObeying hs setter_holds.1
    × ((q : Ptr) (n : Node)
        → Heap.get q setter_holds.0.heap ≡ some n
        → n.locked ≡ true
        → (total (holds q) hs ≡ 1)
          × ((holds q (mover hs remover_starts.2) ≡ 1)
              ⊎ (Heap.get q remover_starts.0.heap ≡ some n)))
mutex_guards_example =
    mutex_guards list_tree bump no_floats both_calls sample-IsUnlocked both_calls-AllBalanced
      setter_holds.2 remover_starts.2
