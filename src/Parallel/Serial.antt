-- ===== src/Parallel/Serial.antt =====
-- Threads of src/plcstub.c one after the other: a run of their programs, a step at a time, against the
-- specification of the calls.
use mathlib.Core.Path.{subst}
use plcstub.Base.{ℕ, ◌+◌, ◌^◌, ◌≤◌, ℤ, ◌≡◌, refl, List, [], ◌∷◌, map, length, arith}
use plcstub.Outcome
use plcstub.Outcome.{Outcome, done, exit, blocked, fault}
use plcstub.Env.Rb.{RbTree}
use plcstub.Env.Libc.{Libc}
use plcstub.TagTree.State as Monad
use plcstub.TagTree.State.{
  State, M, bind_outcome, mtx_lock, mtx_unlock, rw_rdlock, rw_wrlock, rw_unlock,
}
use plcstub.TagTree.Startup.Scalar.{IsGenerous}
use plcstub.Session.{Call, Result, session}
use plcstub.Session.Spec.{Spec, spec_session}
use plcstub.Session.View.{view}
use plcstub.Session.Invariant.{IsInvariant}
use plcstub.Session.Refines.{AreProper, session-Agrees}
use plcstub.Session.Returns.{AreCalm}
use plcstub.Session.Steps.{AreCalmCalls}
use plcstub.Session.Clients.{clients_return}
use plcstub.Session.Program.{specified_of_Agrees}
use plcstub.Parallel.{
  Prog, ret, rdlock, wrlock, rwunlock, lock, unlock, free_node, atom, delete_node, exec, run, Reach,
  start, later, there,
}
use plcstub.Parallel.Calls.{client}
use plcstub.Parallel.Runs.{Runs, stay, go, Reach-first}
use plcstub.Parallel.Invariant.{clients}
use plcstub.Parallel.Alone.Calls.{run-client}

module _ {T A : Type 0} where
  -- The program steps to the end that the outcome says.
  abbrev pub StepsTo : Prog T A → State T → Outcome (A × State T) → Type 1
  StepsTo p s (done (a, s')) = Runs p s (ret a) s'
  StepsTo p s _ = Unit {1}

  then_steps :
      {C : Type 0} (p : Prog T A) (s : State T) (o : Outcome (C × State T)) (k : C → Prog T A)
      → exec p s ≡ Outcome.◌>>=◌ o (λ (c, s'). done (k c, s'))
      → ((c : C) (s' : State T) → StepsTo (k c) s' (run (k c) s'))
      → StepsTo p s (bind_outcome o (λ c. run (k c)))
  then_steps p s (done (c, s')) k e h = more (run (k c) s') (h c s')
    where
      more : (o : Outcome (A × State T)) → StepsTo (k c) s' o → StepsTo p s o
      more (done (a, s'')) r = go e r
      more exit r = tt
      more blocked r = tt
      more (fault x) r = tt
  then_steps p s exit k e h = tt
  then_steps p s blocked k e h = tt
  then_steps p s (fault x) k e h = tt

  run-StepsTo : (p : Prog T A) (s : State T) → StepsTo p s (run p s)
  unfolding run exec
  run-StepsTo (ret a) s = stay
  run-StepsTo (rdlock k) s = then_steps _ s (rw_rdlock s) (λ _. k) refl λ _. run-StepsTo k
  run-StepsTo (wrlock k) s = then_steps _ s (rw_wrlock s) (λ _. k) refl λ _. run-StepsTo k
  run-StepsTo (rwunlock k) s = then_steps _ s (rw_unlock s) (λ _. k) refl λ _. run-StepsTo k
  run-StepsTo (lock p k) s = then_steps _ s (mtx_lock p s) (λ _. k) refl λ _. run-StepsTo k
  run-StepsTo (unlock p k) s = then_steps _ s (mtx_unlock p s) (λ _. k) refl λ _. run-StepsTo k
  run-StepsTo (free_node p k) s = then_steps _ s (delete_node p s) (λ _. k) refl λ _. run-StepsTo k
  run-StepsTo (atom m k) s = then_steps _ s (m s) k refl λ b. run-StepsTo (k b)

  Reach-there :
      {s : State T} {ps : List (Prog T A)} (p : Prog T A) {s' : State T} {ps' : List (Prog T A)}
      → Reach s ps s' ps'
      → Reach s (p ∷ ps) s' (p ∷ ps')
  Reach-there p start = start
  Reach-there p (later r st) = later (Reach-there p r) (there st)

  Reach-trans :
      {s₀ s : State T} {ps₀ ps : List (Prog T A)}
      → Reach s₀ ps₀ s ps
      → {s' : State T} {ps' : List (Prog T A)} → Reach s ps s' ps'
      → Reach s₀ ps₀ s' ps'
  Reach-trans r start = r
  Reach-trans r (later r' st) = later (Reach-trans r r') st

module _ {T : Type 0} (rb : RbTree T) (libc : Libc) (fb : ℕ → ℤ → ℕ) where
  -- The calls of each thread, one thread after the other.
  unfoldable pub serial : List (List Call) → M T (List (List Result))
  serial [] = Monad.pure []
  serial (cs ∷ css) =
      Monad.◌>>=◌ (session rb libc fb cs)
        λ rs. Monad.◌>>=◌ (serial css) λ rss. Monad.pure (rs ∷ rss)

  pub client-StepsTo :
      (cs : List Call) (s : State T) → StepsTo (client rb libc fb cs) s (session rb libc fb cs s)
  client-StepsTo cs s =
      subst (λ m. StepsTo (client rb libc fb cs) s (m s)) (run-client rb libc fb cs)
        (run-StepsTo (client rb libc fb cs) s)

  -- The threads get to where all have returned that.
  abbrev Interleaves : List (List Call) → State T → Outcome (List (List Result) × State T) → Type 1
  Interleaves css s (done (rss, s')) = Reach s (clients rb libc fb css) s' (map ret rss)
  Interleaves css s _ = Unit {1}

  serial-Interleaves : (css : List (List Call)) (s : State T) → Interleaves css s (serial css s)
  unfolding serial
  serial-Interleaves [] s = start
  serial-Interleaves (cs ∷ css) s =
      first (session rb libc fb cs s) (client-StepsTo cs s) (serial-Interleaves css)
    where
      first :
          (o : Outcome (List Result × State T))
          → StepsTo (client rb libc fb cs) s o
          → ((s' : State T) → Interleaves css s' (serial css s'))
          → Interleaves
              (cs ∷ css)
              s
              (bind_outcome o λ rs. Monad.◌>>=◌ (serial css) λ rss. Monad.pure (rs ∷ rss))
      first (done (rs, s')) r rest = others (serial css s') (rest s')
        where
          others :
              (o : Outcome (List (List Result) × State T))
              → Interleaves css s' o
              → Interleaves (cs ∷ css) s (bind_outcome o λ rss. Monad.pure (rs ∷ rss))
          others (done (rss, s'')) q = Reach-trans (Reach-first r start) (Reach-there (ret rs) q)
          others exit q = tt
          others blocked q = tt
          others (fault x) q = tt
      first exit r rest = tt
      first blocked r rest = tt
      first (fault x) r rest = tt

  -- A serial schedule is one of the interleavings.
  serial-Reach :
      (css : List (List Call)) (rss : List (List Result)) (s s' : State T)
      → serial css s ≡ done (rss, s')
      → Reach s (clients rb libc fb css) s' (map ret rss)
  serial-Reach css rss s s' e = subst (Interleaves css s) e (serial-Interleaves css s)

-- The specified calls of each thread, one thread after the other.
unfoldable pub spec_serial :
    (ℕ → ℤ → ℕ) → List (List Call) → Spec → Outcome (List (List Result) × Spec)
spec_serial fb [] σ = done ([], σ)
spec_serial fb (cs ∷ css) σ =
    Outcome.◌>>=◌ (spec_session fb cs σ)
      λ (rs, σ'). Outcome.◌>>=◌ (spec_serial fb css σ') λ (rss, σ''). done (rs ∷ rss, σ'')

-- How many calls the threads make.
abbrev pub calls_of : List (List Call) → ℕ
calls_of [] = 0
calls_of (cs ∷ css) = length cs + calls_of css

-- No thread names a tag "@tags" or with 2^16 bytes; and all are calm.
abbrev pub AllProper : List (List Call) → Type 0
AllProper [] = Unit
AllProper (cs ∷ css) = AreProper cs × AllProper css

abbrev pub AllCalm : List (List Call) → Type 0
AllCalm [] = Unit
AllCalm (cs ∷ css) = AreCalmCalls cs × AllCalm css

module _ {T : Type 0} (rb : RbTree T) (libc : Libc) (generous : IsGenerous libc)
    (fb : ℕ → ℤ → ℕ) where
  -- One thread after the other returns what the specification says.
  serial-specified :
      (m : ℕ) (css : List (List Call)) (s : State T)
      → IsInvariant rb s
      → AreCalm m (view rb s).tags
      → 2 ≤ m
      → m + calls_of css ≤ 2 ^ 31
      → AllProper css
      → AllCalm css
      → (rss : List (List Result)) × (s' : State T) × (serial rb libc fb css s ≡ done (rss, s'))
        × (spec_serial fb css (view rb s) ≡ done (rss, view rb s'))
        × (map length rss ≡ map length css)
        × IsInvariant rb s'
  unfolding serial spec_serial
  serial-specified m [] s inv c two small proper calm = ([], s, refl, refl, refl, inv)
  serial-specified m (cs ∷ css) s inv c two small proper calm =
      let (rs, s₁, ends, same, inv₁, c₁) =
        clients_return rb libc generous fb m cs s inv c two (omega arith) proper.0 calm.0 in
      let specified =
        specified_of_Agrees rb libc generous fb rs s₁
          (session-Agrees rb libc generous fb cs s inv proper.0) ends in
      let (rss, s₂, ends', specified', sames, inv₂) =
        serial-specified (m + length cs) css s₁ inv₁ c₁ (omega arith) (omega arith) proper.1
          calm.1 in
      (
        rs ∷ rss,
        s₂,
        rw (ends, ends') refl,
        rw (specified, specified') refl,
        (λ i. same i ∷ sames i),
        inv₂,
      )

  -- On a started library between its calls, given memory whenever it asks, where nobody holds a
  -- tag's mutex, no tag's name has 2^16 bytes, and the buffers have room (the metatag's is as long
  -- as its type says, and any other tag is no array and has eight bytes at least): several threads
  -- make sequences of calls that hold no mutex, use no negative offset, read and write the metatag
  -- byte by byte, name no tag "@tags" or with 2^16 bytes, have no attribute "protocol" without '='
  -- and leave an ID for every call. There is a run of the threads, a step at a time, in which all
  -- of them return, each with a result for every call of its own. The results are those that the
  -- specification has for the calls of one thread after the other, and the state at the end stands
  -- for the tags and events that it has then.
  pub clients_serve :
      (m : ℕ) (css : List (List Call)) (s : State T)
      → IsInvariant rb s
      → AreCalm m (view rb s).tags
      → 2 ≤ m
      → m + calls_of css ≤ 2 ^ 31
      → AllProper css
      → AllCalm css
      → (rss : List (List Result)) × (s' : State T) × Reach s
          (clients rb libc fb css)
          s'
          (map ret rss)
        × (spec_serial fb css (view rb s) ≡ done (rss, view rb s'))
        × (map length rss ≡ map length css)
        × IsInvariant rb s'
  clients_serve m css s inv c two small proper calm =
      let (rss, s', ends, specified, same, inv') =
        serial-specified m css s inv c two small proper calm in
      (rss, s', serial-Reach rb libc fb css rss s s' ends, specified, same, inv')
