-- ===== src/Session/Clients.antt =====
-- Sequences of calls by calm clients: every call returns.
use plcstub.Base.{ℕ, suc, ◌+◌, ◌^◌, ◌≤◌, ◌≡◌, refl, ap, List, [], ◌∷◌, arith, ℤ, length}
use plcstub.Outcome.{Outcome, done}
use plcstub.Env.Heap.{Node}
use plcstub.Session.{Call, Result, session}
use plcstub.Env.Rb.{RbTree}
use plcstub.Env.Libc.{Libc}
use plcstub.TagTree.State.{State}
use plcstub.TagTree.Startup.Scalar.{IsGenerous}
use plcstub.Session.View.{view}
use plcstub.Session.Invariant.{IsInvariant}
use plcstub.Session.Lift.{Agrees, returns_in, exits_too, blocks_too, faults_too}
use plcstub.Session.Refines.{AreProper, session-Agrees}
use plcstub.Session.Spec.{Spec, spec_session}
use plcstub.Session.Returns.{AreCalm}
use plcstub.Session.Steps.{AreCalmCalls, spec-Returns}

AreCalm-same : (m k : ℕ) (ns : List Node) → m ≡ k → AreCalm m ns → AreCalm k ns
AreCalm-same m k ns e c = rw (← e) c

spec_session-Returns :
    (m : ℕ) (fb : ℕ → ℤ → ℕ) (cs : List Call) (σ : Spec)
    → 2 ≤ m
    → AreCalm m σ.tags
    → m + length cs ≤ 2 ^ 31
    → AreCalmCalls cs
    → (rs : List Result) × (σ' : Spec) × (spec_session fb cs σ ≡ done (rs, σ'))
      × (length rs ≡ length cs)
      × AreCalm (m + length cs) σ'.tags
unfolding spec_session
spec_session-Returns m fb [] σ two c small calm =
    ([], σ, refl, refl, AreCalm-same m (m + 0) σ.tags (omega arith) c)
spec_session-Returns m fb (x ∷ cs) σ two c small calm =
    let (r, σ₁, runs, c₁) = spec-Returns m two fb x σ c (omega arith) calm.0 in
    let (rs, σ₂, rest, same, c₂) =
      spec_session-Returns (m + 1) fb cs σ₁ (omega arith) c₁ (omega arith) calm.1 in
    (
      r ∷ rs,
      σ₂,
      rw (runs, rest),
      ap suc same,
      AreCalm-same (m + 1 + length cs) (m + suc (length cs)) σ₂.tags (omega arith) c₂,
    )

module _ {T : Type 0} (rb : RbTree T) (libc : Libc) (generous : IsGenerous libc)
    (fb : ℕ → ℤ → ℕ) where
  -- Where the code agrees with a specification that returns, it returns.
  pub returns_of_Agrees :
      {o : Outcome (List Result × State T)} {o' : Outcome (List Result × Spec)} (rs : List Result)
      (σ : Spec)
      → Agrees rb o o'
      → o' ≡ done (rs, σ)
      → (s' : State T) × (o ≡ done (rs, s')) × (view rb s' ≡ σ) × IsInvariant rb s'
  returns_of_Agrees rs σ (returns_in rs' s' ends specified inv) e =
      (s', ground arith, ground arith, inv)
  returns_of_Agrees rs σ (exits_too ends specified) e = absurd (ground arith)
  returns_of_Agrees rs σ (blocks_too ends specified) e = absurd (ground arith)
  returns_of_Agrees rs σ (faults_too f ends specified) e = absurd (ground arith)

  -- On a started library, called by one thread and given memory whenever it asks, where nobody
  -- holds a tag's mutex, no tag's name has 2^16 bytes, and the buffers have room (the metatag's is
  -- as long as its type says, and any other tag is no array and has eight bytes at least): every
  -- sequence of calls that holds no mutex, uses no negative offset, reads and writes the metatag
  -- byte by byte, names no tag "@tags" or with 2^16 bytes, has no attribute "protocol" without '='
  -- and leaves an ID for every call, returns. Each call gives a result, and afterwards the tree is
  -- sound and the tags are again like that.
  pub clients_return :
      (m : ℕ) (cs : List Call) (s : State T)
      → IsInvariant rb s
      → AreCalm m (view rb s).tags
      → 2 ≤ m
      → m + length cs ≤ 2 ^ 31
      → AreProper cs
      → AreCalmCalls cs
      → (rs : List Result) × (s' : State T) × (session rb libc fb cs s ≡ done (rs, s'))
        × (length rs ≡ length cs)
        × IsInvariant rb s'
        × AreCalm (m + length cs) (view rb s').tags
  clients_return m cs s inv c two small proper calm =
      let (rs, σ, specified, same, c') =
        spec_session-Returns m fb cs (view rb s) two c small calm in
      let (s', ends, viewed, inv') =
        returns_of_Agrees rs σ (session-Agrees rb libc generous fb cs s inv proper) specified in
      (rs, s', ends, same, inv', rw (ap (λ (τ : Spec). τ.tags) viewed) c')
