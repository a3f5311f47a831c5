-- ===== src/Parallel/Finite.antt =====
-- Calls of src/plcstub.c by several threads: every run comes to an end.
use mathlib.Core.Path.{subst}
use plcstub.Base.{ℕ, ℤ, ◌≡◌, ◌⊎◌, refl, inl, inr, List, [], ◌∷◌}
use plcstub.Outcome
use plcstub.Outcome.{Outcome, done, exit, blocked, fault}
use plcstub.Env.Rb.{RbTree}
use plcstub.Env.Libc.{Libc}
use plcstub.TagTree.State.{State, mtx_lock, mtx_unlock, rw_rdlock, rw_wrlock, rw_unlock}
use plcstub.Session.{Call}
use plcstub.Parallel.{
  Prog, ret, rdlock, wrlock, rwunlock, lock, unlock, free_node, atom, exec, Step, here, there,
  Reach, start, later,
}
use plcstub.Parallel.Invariant.{IsUnlocked, AllBalanced, clients}
use plcstub.Parallel.Progress.{SomeGoes, AreReturned, no_deadlock}

module _ {T A : Type 0} where
  -- Threads that have only finitely many steps ahead, whatever the state.
  data IsFinite : List (Prog T A) → Type 1 where
    finite :
        {ps : List (Prog T A)}
        → ((s s' : State T) (ps' : List (Prog T A)) → Step s ps s' ps' → IsFinite ps')
        → IsFinite ps

  -- With any other threads that have.
  abbrev AddsFinite : Prog T A → Type 1
  AddsFinite p = (ps : List (Prog T A)) → IsFinite ps → IsFinite (p ∷ ps)

  -- What a step of a thread leaves of its program
  abbrev Leads : (Prog T A → Type 1) → Outcome (Prog T A × State T) → Type 1
  Leads P (done (p, s)) = P p
  Leads P _ = Unit {1}

  Leads-then :
      (P : Prog T A → Type 1) {B : Type 0} (k : B → Prog T A)
      → ((b : B) → P (k b))
      → (o : Outcome (B × State T)) → Leads P (Outcome.◌>>=◌ o λ (b, s'). done (k b, s'))
  Leads-then P k h (done (b, s)) = h b
  Leads-then P k h exit = tt
  Leads-then P k h blocked = tt
  Leads-then P k h (fault e) = tt

  add_finite : (p : Prog T A) → ((s : State T) → Leads AddsFinite (exec p s)) → AddsFinite p
  add_finite p next ps (finite f) =
      finite λ s s' ps' st. moved (λ ps' s s' st. add_finite p next ps' (f s s' ps' st)) st
    where
      moved :
          ((ps' : List (Prog T A)) (s s' : State T) → Step s ps s' ps' → IsFinite (p ∷ ps'))
          → {s s' : State T} {ps' : List (Prog T A)} → Step s (p ∷ ps) s' ps'
          → IsFinite ps'
      moved others {s} (here e) = subst (Leads AddsFinite) e (next s) ps (finite f)
      moved others {s} {s'} (there st) = others _ s s' st

  adds : (p : Prog T A) → AddsFinite p
  unfolding exec
  adds (ret a) = add_finite _ λ s. tt
  adds (rdlock k) = add_finite _ λ s. Leads-then AddsFinite _ (λ _. adds k) (rw_rdlock s)
  adds (wrlock k) = add_finite _ λ s. Leads-then AddsFinite _ (λ _. adds k) (rw_wrlock s)
  adds (rwunlock k) = add_finite _ λ s. Leads-then AddsFinite _ (λ _. adds k) (rw_unlock s)
  adds (lock p k) = add_finite _ λ s. Leads-then AddsFinite _ (λ _. adds k) (mtx_lock p s)
  adds (unlock p k) = add_finite _ λ s. Leads-then AddsFinite _ (λ _. adds k) (mtx_unlock p s)
  adds (free_node p k) = add_finite _ λ s. adds k
  adds (atom m k) = add_finite _ λ s. Leads-then AddsFinite _ (λ b. adds (k b)) (m s)

  all-IsFinite : (ps : List (Prog T A)) → IsFinite ps
  all-IsFinite [] = finite λ s s' ps' st. absurd (nobody refl st)
    where
      nobody : {s s' : State T} {ps ps' : List (Prog T A)} → ps ≡ [] → Step s ps s' ps' → ⊥
      nobody e (here st) = absurd (cc)
      nobody e (there st) = absurd (cc)
  all-IsFinite (p ∷ ps) = adds p ps (all-IsFinite ps)

  -- Every run from here that goes on as long as a thread can ends with all threads returned, but for
  -- a step that ends the process or has undefined behaviour.
  pub data Completes : State T → List (Prog T A) → Type 1 where
    over : {s : State T} {ps : List (Prog T A)} → AreReturned ps → Completes s ps
    goes :
        {s : State T} {ps : List (Prog T A)}
        → SomeGoes s ps
        → ((s' : State T) (ps' : List (Prog T A)) → Step s ps s' ps' → Completes s' ps')
        → Completes s ps

  completes :
      (s₀ : State T) (ps₀ : List (Prog T A))
      → ((s : State T) (ps : List (Prog T A)) → Reach s₀ ps₀ s ps → SomeGoes s ps ⊎ AreReturned ps)
      → (s : State T) (ps : List (Prog T A)) → IsFinite ps
      → Reach s₀ ps₀ s ps
      → Completes s ps
  completes s₀ ps₀ live s ps (finite f) r = elim (live s ps r) [
    | inl go ↦ goes go λ s' ps' st. completes s₀ ps₀ live s' ps' (f s s' ps' st) (later r st)
    | inr rs ↦ over rs
  ]

-- Threads, each with calls among which plc_tag_lock and plc_tag_unlock do not occur, begin while
-- nobody holds a lock. However they interleave: every run that goes on as long as a thread can take
-- a step comes to an end, where all have returned, unless a step ends the process or runs into
-- undefined behaviour before.
pub clients_complete :
    {T : Type 0} (rb : RbTree T) (libc : Libc) (fb : ℕ → ℤ → ℕ) (css : List (List Call))
    (s : State T)
    → IsUnlocked s
    → AllBalanced css
    → Completes s (clients rb libc fb css)
clients_complete rb libc fb css s u b =
    completes s (clients rb libc fb css) (λ _ _ r. no_deadlock rb libc fb css u b r) s _
      (all-IsFinite _) start
