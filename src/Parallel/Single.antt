-- ===== src/Parallel/Single.antt =====
-- One thread of src/plcstub.c alone: each of its runs, a step at a time, against the specification of
-- the calls.
use mathlib.Core.Path.{subst}
use plcstub.Base.{ℕ, ◌+◌, ◌^◌, ◌≤◌, ℤ, ◌≡◌, refl, sym, ap, ◌∙◌, List, [], ◌∷◌, length}
use plcstub.Outcome.{Outcome, done}
use plcstub.Env.Rb.{RbTree}
use plcstub.Env.Libc.{Libc}
use plcstub.TagTree.State.{State}
use plcstub.TagTree.Startup.Scalar.{IsGenerous}
use plcstub.Session.{Call, Result}
use plcstub.Session.Spec.{spec_session}
use plcstub.Session.View.{view}
use plcstub.Session.Invariant.{IsInvariant}
use plcstub.Session.Refines.{AreProper, session-Agrees}
use plcstub.Session.Returns.{AreCalm}
use plcstub.Session.Steps.{AreCalmCalls}
use plcstub.Session.Clients.{clients_return}
use plcstub.Session.Program.{specified_of_Agrees}
use plcstub.Parallel.{Prog, ret, exec, Step, here, there, Reach, start, later}
use plcstub.Parallel.Calls.{client}
use plcstub.Parallel.Runs.{Runs, stay, go, Reach-first}
use plcstub.Parallel.Serial.{StepsTo, client-StepsTo}

module _ {T A : Type 0} where
  -- From where the outcome of a step says, the program runs to its end.
  abbrev RestRuns : Outcome (Prog T A × State T) → Prog T A → State T → Type 1
  RestRuns (done (p, s)) q s' = Runs p s q s'
  RestRuns _ q s' = Unit {1}

  ret-stops : (a : A) (s : State T) {o : Prog T A × State T} → exec (ret a) s ≡ done o → ⊥
  unfolding exec
  ret-stops a s e = cc

  -- A thread's step is determined.
  Runs-rest :
      {p q : Prog T A} {s s' : State T} (a : A) (p' : Prog T A) (s₁ : State T)
      → Runs p s q s'
      → q ≡ ret a
      → exec p s ≡ done (p', s₁)
      → Runs p' s₁ q s'
  Runs-rest {s} a p' s₁ stay h e = absurd (ret-stops a s (rw h at e))
  Runs-rest {q} {s'} a p' s₁ (go e' r) h e = subst (λ o. RestRuns o q s') (sym e' ∙ e) r

  -- The only thread is still the only one, and still on its way to the same end.
  OnWay : List (Prog T A) → State T → A → State T → Type 1
  OnWay ps s a s' = (p : Prog T A) × (ps ≡ p ∷ []) × Runs p s (ret a) s'

  no-Step : {s s₁ : State T} {ps ps₁ : List (Prog T A)} → Step s ps s₁ ps₁ → ps ≡ [] → ⊥
  no-Step (here e) h = cc
  no-Step (there st) h = cc

  Step-OnWay :
      {s s₁ : State T} {ps ps₁ : List (Prog T A)} (a : A) (s' : State T)
      → Step s ps s₁ ps₁
      → OnWay ps s a s'
      → OnWay ps₁ s₁ a s'
  unfolding OnWay
  Step-OnWay {s} {s₁} a s' (here {p} {p'} {ps} e) (q, one, r) =
      let same : p ≡ q = cc in
      let alone : ps ≡ [] = cc in
      (
        p',
        ap (λ l. p' ∷ l) alone,
        Runs-rest a p' s₁ (subst (λ x. Runs x s (ret a) s') (sym same) r) refl e,
      )
  Step-OnWay a s' (there {ps} st) (q, one, r) =
      let alone : ps ≡ [] = cc in absurd (no-Step st alone)

  Reach-OnWay :
      {s₀ : State T} {ps₀ : List (Prog T A)} {s₁ : State T} {ps₁ : List (Prog T A)} (a : A)
      (s' : State T)
      → Reach s₀ ps₀ s₁ ps₁
      → OnWay ps₀ s₀ a s'
      → OnWay ps₁ s₁ a s'
  Reach-OnWay a s' start w = w
  Reach-OnWay a s' (later r st) w = Step-OnWay a s' st (Reach-OnWay a s' r w)

module _ {T : Type 0} (rb : RbTree T) (libc : Libc) (generous : IsGenerous libc)
    (fb : ℕ → ℤ → ℕ) where
  -- On a started library between its calls, given memory whenever it asks, where nobody holds a
  -- tag's mutex, no tag's name has 2^16 bytes, and the buffers have room (the metatag's is as long
  -- as its type says, and any other tag is no array and has eight bytes at least): one thread makes
  -- a sequence of calls that hold no mutex, use no negative offset, read and write the metatag byte
  -- by byte, name no tag "@tags" or with 2^16 bytes, have no attribute "protocol" without '=' and
  -- leave an ID for every call. Wherever it stands after some of its steps, it can go on until it
  -- has returned, with a result for every call. The results are those of the specification,
  -- whatever steps have led there, and the state at the end stands for the tags and events that the
  -- specification ends with.
  pub client_served :
      (m : ℕ) (cs : List Call) (s s₁ : State T) (ps : List (Prog T (List Result)))
      → IsInvariant rb s
      → AreCalm m (view rb s).tags
      → 2 ≤ m
      → m + length cs ≤ 2 ^ 31
      → AreProper cs
      → AreCalmCalls cs
      → Reach s (client rb libc fb cs ∷ []) s₁ ps
      → (rs : List Result) × (s' : State T) × Reach s₁ ps s' (ret rs ∷ [])
        × (spec_session fb cs (view rb s) ≡ done (rs, view rb s'))
        × (length rs ≡ length cs)
        × IsInvariant rb s'
  unfolding OnWay
  client_served m cs s s₁ ps inv c two small proper calm reach =
      let (rs, s', ends, same, inv', _) =
        clients_return rb libc generous fb m cs s inv c two small proper calm in
      let runs = subst (StepsTo (client rb libc fb cs) s) ends (client-StepsTo rb libc fb cs s) in
      let (p, one, rest) = Reach-OnWay rs s' reach (client rb libc fb cs, refl, runs) in
      (
        rs,
        s',
        rw one (Reach-first rest start),
        specified_of_Agrees rb libc generous fb rs s'
            (session-Agrees rb libc generous fb cs s inv proper) ends,
        same,
        inv',
      )
