-- ===== src/Parallel/Progress.antt =====
-- Calls of src/plcstub.c by several threads: the locks do not deadlock while no thread calls
-- plc_tag_lock.
use plcstub.Base.{ℕ, ℤ, ◌+◌, ◌≡◌, ◌⊎◌, refl, sym, ap, ◌∙◌, inl, inr, List, [], ◌∷◌, arith}
use plcstub.Env.Rb.{Ptr, RbTree}
use plcstub.Env.Libc.{Libc}
use plcstub.TagTree.State.{State, free}
use plcstub.Threads.Progress.{free_of_counts}
use plcstub.Session.{Call, Result}
use plcstub.Parallel.{Prog, exec, Reach}
use plcstub.Parallel.Discipline.{Held, lock_count}
use plcstub.Parallel.Waits.{Ends}
use plcstub.Parallel.Counts.{reads, writes, total, AreCounted}
use plcstub.Parallel.Discipline.{holds}
use plcstub.Parallel.Standing.{
  mutexes, IsReturned, Standing, returned, goes_on, waits_tree, waits_node, stands,
}
use plcstub.Parallel.Invariant.{AreObeying, IsUnlocked, AllBalanced, clients, Reach-AreCounted}

holds-mutexes : (q : Ptr) (h : Held) → mutexes h ≡ 0 → holds q h ≡ 0
holds-mutexes q h e = ground (arith, e)

total-holds : (q : Ptr) (hs : List Held) → total mutexes hs ≡ 0 → total (holds q) hs ≡ 0
unfolding total
total-holds q [] e = refl
total-holds q (h ∷ hs) e =
    omega (arith, holds-mutexes q h (omega arith), total-holds q hs (omega arith))

total-add : (hs : List Held) → total (λ h. reads h + writes h) hs ≡ total reads hs + total writes hs
unfolding total
total-add [] = refl
total-add (h ∷ hs) = omega (arith, total-add hs)

module _ {T A : Type 0} where
  abbrev pub SomeGoes : State T → List (Prog T A) → Type 0
  SomeGoes s [] = ⊥
  SomeGoes s (p ∷ ps) = Ends (exec p s) ⊎ SomeGoes s ps

  abbrev pub AreReturned : List (Prog T A) → Type 0
  AreReturned [] = Unit
  AreReturned (p ∷ ps) = IsReturned p × AreReturned ps

  -- Of some threads one goes on, unless none has the weight `w`.
  first_step :
      (s : State T) (w : Held → ℕ)
      → ((h : Held) (p : Prog T A) → Standing s h p → Ends (exec p s) ⊎ (w h ≡ 0))
      → (hs : List Held) (ps : List (Prog T A)) → AreObeying hs ps
      → SomeGoes s ps ⊎ (total w hs ≡ 0)
  unfolding total
  first_step s w one [] [] o = inr refl
  first_step s w one [] (p ∷ ps) o = absurd o
  first_step s w one (h ∷ hs) [] o = absurd o
  first_step s w one (h ∷ hs) (p ∷ ps) (o, os) = elim (one h p (stands s h p o)) [
    | inl e ↦ inl (inl e)
    | inr z ↦ elim (first_step s w one hs ps os) [
      | inl later ↦ inl (inr later)
      | inr zs ↦ inr (omega arith)
    ]
  ]

  mutex_step :
      (s : State T) (h : Held) (p : Prog T A) → Standing s h p → Ends (exec p s) ⊎ (mutexes h ≡ 0)
  mutex_step s h p (returned r i) = inr (ap mutexes i)
  mutex_step s h p (goes_on e) = inl e
  mutex_step s h p (waits_tree i busy) = inr (ap mutexes i)
  mutex_step s h p (waits_node q m taken) = inr m

  -- Where no mutex is held, whoever holds the tree's lock goes on.
  tree_step :
      (s : State T)
      → ((q : Ptr) → lock_count s.heap q ≡ 0)
      → (h : Held) (p : Prog T A) → Standing s h p
      → Ends (exec p s) ⊎ (reads h + writes h ≡ 0)
  tree_step s open_nodes h p (returned r i) = inr (ap (λ h. reads h + writes h) i)
  tree_step s open_nodes h p (goes_on e) = inl e
  tree_step s open_nodes h p (waits_tree i busy) = inr (ap (λ h. reads h + writes h) i)
  tree_step s open_nodes h p (waits_node q m taken) = absurd (omega (arith, open_nodes q))

  -- Where no lock is held at all, everybody goes on.
  any_step :
      (s : State T)
      → ((q : Ptr) → lock_count s.heap q ≡ 0)
      → s.tag_tree_mtx ≡ free
      → (hs : List Held) (ps : List (Prog T A)) → AreObeying hs ps
      → SomeGoes s ps ⊎ AreReturned ps
  any_step s nodes tree [] [] o = inr tt
  any_step s nodes tree [] (p ∷ ps) o = absurd o
  any_step s nodes tree (h ∷ hs) [] o = absurd o
  any_step s nodes tree (h ∷ hs) (p ∷ ps) (o, os) = elim (stands s h p o) [
    | goes_on e ↦ inl (inl e)
    | waits_tree i busy ↦ absurd (busy tree)
    | waits_node q m taken ↦ absurd (omega (arith, nodes q))
    | returned r i ↦ elim (any_step s nodes tree hs ps os) [
      | inl later ↦ inl (inr later)
      | inr rs ↦ inr (r, rs)
    ]
  ]

  -- Threads that obey the discipline, with locks that say who holds them.
  obeying_step :
      (s : State T) (hs : List Held) (ps : List (Prog T A))
      → AreObeying hs ps
      → AreCounted s (λ w. total w hs)
      → SomeGoes s ps ⊎ AreReturned ps
  obeying_step s hs ps o c = elim (first_step s mutexes (mutex_step s) hs ps o) [
    | inl goes ↦ inl goes
    | inr m ↦
        let nodes : (q : Ptr) → lock_count s.heap q ≡ 0 =
          λ q. sym (c.nodes q) ∙ total-holds q hs m in
        elim (first_step s (λ h. reads h + writes h) (tree_step s nodes) hs ps o) [
          | inl goes ↦ inl goes
          | inr z ↦
              let e = total-add hs in
              let tree =
                free_of_counts s.tag_tree_mtx c.counted (omega (arith, c.read_held))
                  (omega (arith, c.write_held)) in
              any_step s nodes tree hs ps o
        ]
  ]

-- Threads, each with calls among which plc_tag_lock and plc_tag_unlock do not occur, begin while
-- nobody holds a lock. However they interleave, either all have returned or one of them has a next
-- step that does not wait for a lock: they do not block each other for ever.
pub no_deadlock :
    {T : Type 0} (rb : RbTree T) (libc : Libc) (fb : ℕ → ℤ → ℕ) (css : List (List Call))
    {s₀ s : State T} {ps : List (Prog T (List Result))}
    → IsUnlocked s₀
    → AllBalanced css
    → Reach s₀ (clients rb libc fb css) s ps
    → SomeGoes s ps ⊎ AreReturned ps
no_deadlock rb libc fb css {s = s} {ps} u b r =
    let (hs, os, c) = Reach-AreCounted rb libc fb css u b r in obeying_step s hs ps os c
