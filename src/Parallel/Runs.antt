-- ===== src/Parallel/Runs.antt =====
-- Runs of one thread of src/plcstub.c, alone and among others.
use plcstub.Base.{◌≡◌, ap, List, ◌∷◌}
use plcstub.Outcome
use plcstub.Outcome.{Outcome, done, exit, blocked, fault}
use plcstub.TagTree.State.{State, mtx_lock, mtx_unlock, rw_rdlock, rw_wrlock, rw_unlock}
use plcstub.Parallel.{
  Prog, ret, rdlock, wrlock, rwunlock, lock, unlock, free_node, atom, ◌>>=◌, delete_node, exec,
  Reach, here, there, later,
}

module _ {T : Type 0} where
  -- A thread runs for a while, by itself.
  pub data Runs {A : Type 0} : Prog T A → State T → Prog T A → State T → Type 1 where
    stay : {p : Prog T A} {s : State T} → Runs p s p s
    go :
        {p p' p'' : Prog T A} {s s' s'' : State T}
        → exec p s ≡ done (p', s')
        → Runs p' s' p'' s''
        → Runs p s p'' s''

  module _ {A B : Type 0} (f : A → Prog T B) where
    abbrev bind_rest : Prog T A × State T → Outcome (Prog T B × State T)
    bind_rest (p, s) = done (p >>= f, s)

    then_done :
        {C : Type 0} (o : Outcome (C × State T)) (k : C → Prog T A) {p' : Prog T A} {s' : State T}
        → Outcome.◌>>=◌ {B = Prog T A × State T} o (λ (c, s'). done (k c, s')) ≡ done (p', s')
        → Outcome.◌>>=◌ {B = Prog T B × State T} o (λ (c, s'). done (k c >>= f, s'))
          ≡ done (p' >>= f, s')
    then_done (done (c, s)) k e = ap (λ o. Outcome.◌>>=◌ o bind_rest) e
    then_done exit k e = absurd (cc)
    then_done blocked k e = absurd (cc)
    then_done (fault x) k e = absurd (cc)

    exec->>= :
        (p : Prog T A) (s : State T) {p' : Prog T A} {s' : State T}
        → exec p s ≡ done (p', s')
        → exec (p >>= f) s ≡ done (p' >>= f, s')
    unfolding exec
    exec->>= (ret a) s e = absurd (cc)
    exec->>= (rdlock k) s e = then_done (rw_rdlock s) (λ _. k) e
    exec->>= (wrlock k) s e = then_done (rw_wrlock s) (λ _. k) e
    exec->>= (rwunlock k) s e = then_done (rw_unlock s) (λ _. k) e
    exec->>= (lock p k) s e = then_done (mtx_lock p s) (λ _. k) e
    exec->>= (unlock p k) s e = then_done (mtx_unlock p s) (λ _. k) e
    exec->>= (free_node p k) s e = then_done (delete_node p s) (λ _. k) e
    exec->>= (atom m k) s e = then_done (m s) k e

    pub Runs->>= :
        {p p' : Prog T A} {s s' : State T} → Runs p s p' s' → Runs (p >>= f) s (p' >>= f) s'
    Runs->>= stay = stay
    Runs->>= (go {p} {s = s} e r) = go (exec->>= p s e) (Runs->>= r)

  module _ {A : Type 0} where
    pub Runs-trans :
        {p p' p'' : Prog T A} {s s' s'' : State T}
        → Runs p s p' s'
        → Runs p' s' p'' s''
        → Runs p s p'' s''
    Runs-trans stay r' = r'
    Runs-trans (go e r) r' = go e (Runs-trans r r')

    pub Reach-first :
        {s₀ : State T} {ps₀ : List (Prog T A)} {p p' : Prog T A} {s s' : State T}
        {ps : List (Prog T A)}
        → Runs p s p' s'
        → Reach s₀ ps₀ s (p ∷ ps)
        → Reach s₀ ps₀ s' (p' ∷ ps)
    Reach-first stay b = b
    Reach-first (go e r) b = Reach-first r (later b (here e))

    pub Reach-second :
        {s₀ : State T} {ps₀ : List (Prog T A)} {q p p' : Prog T A} {s s' : State T}
        {ps : List (Prog T A)}
        → Runs p s p' s'
        → Reach s₀ ps₀ s (q ∷ p ∷ ps)
        → Reach s₀ ps₀ s' (q ∷ p' ∷ ps)
    Reach-second stay b = b
    Reach-second (go e r) b = Reach-second r (later b (there (here e)))
