-- ===== src/Session/Program.antt =====
-- What the program does from its start, against the specification.
use plcstub.Base.{
  ℕ, zero, suc, ◌+◌, ◌^◌, ◌≤◌, ◌<◌, ◌≡◌, ◌⊎◌, refl, ap, ◌∙◌, inl, inr, List, [], ◌∷◌, arith, ℤ, pos,
  length,
}
use plcstub.Outcome.{Outcome, done}
use plcstub.Env.Rb.{RbTree}
use plcstub.Env.Libc.{Libc}
use plcstub.TagTree.State.{State, Event}
use plcstub.TagTree.Ops.{tags_inc, buffer_size}
use plcstub.TagTree.Startup.{start_nodes}
use plcstub.TagTree.Startup.Scalar.{IsGenerous}
use plcstub.Api.Access.{int16, getter_cb, scale_offset}
use plcstub.Types.{type_to_enum, type_new_simple, type_size_bytes}
use plcstub.Bytes.{load, decode, splice}
use plcstub.Session.{Call, Result, value, get, session}
use plcstub.Session.Spec.{
  Spec, spec_session, spec, on_tag, listed, find_tag, replace_tag, get_action,
}
use plcstub.Session.View.{view}
use plcstub.Session.Lift.{Agrees, returns_in, exits_too, blocks_too, faults_too}
use plcstub.Session.Refines.{AreProper, session-Agrees}
use plcstub.Session.Returns.{AreCalm}
use plcstub.Session.Steps.{AreCalmCalls}
use plcstub.Session.Clients.{returns_of_Agrees, clients_return}
use plcstub.Session.Start.{
  start-AreCalm, IsBlank, IsStarted, init-IsStarted, AreUnreached, session_starts,
}

-- The tags of the specification as the program starts.
abbrev pub start_spec : List Event → Spec
start_spec es = record { tags = start_nodes 2 tags_inc; events = es }

module _ {T : Type 0} (rb : RbTree T) (libc : Libc) (generous : IsGenerous libc)
    (fb : ℕ → ℤ → ℕ) where
  pub specified_of_Agrees :
      {o : Outcome (List Result × State T)} {o' : Outcome (List Result × Spec)} (rs : List Result)
      (s' : State T)
      → Agrees rb o o'
      → o ≡ done (rs, s')
      → o' ≡ done (rs, view rb s')
  specified_of_Agrees rs s' (returns_in rs' s₁ ends specified inv) e = ground arith
  specified_of_Agrees rs s' (exits_too ends specified) e = absurd (ground arith)
  specified_of_Agrees rs s' (blocks_too ends specified) e = absurd (ground arith)
  specified_of_Agrees rs s' (faults_too f ends specified) e = absurd (ground arith)

  Agrees-started :
      (cs : List Call) (s s' : State T)
      → IsStarted rb libc generous s s'
      → AreProper cs
      → Agrees rb (session rb libc fb cs s') (spec_session fb cs (start_spec s.events))
  Agrees-started cs s s' st proper =
      rw (← st.viewed) (session-Agrees rb libc generous fb cs s' st.invariant proper)

  -- From the state in which the program starts, called by one thread and given memory whenever it
  -- asks, where no name is "@tags" or has 2^16 bytes: every sequence of calls ends as the
  -- specification says that it does from the ten tags of tags.inc. Or no call of it reaches the
  -- tree: each is a plc_tag_create whose string of attributes is refused or names no tag, or a
  -- plc_tag_read or plc_tag_write with a negative timeout, and returns PLCTAG_ERR_BAD_PARAM, or is
  -- a plc_tag_destroy of the metatag's ID and returns PLCTAG_STATUS_OK; then the program's state
  -- stays as it was, and the specification has the same results and leaves its ten tags as they
  -- were.
  pub program-Agrees :
      (cs : List Call) (s : State T)
      → IsBlank rb s
      → AreProper cs
      → Agrees rb (session rb libc fb cs s) (spec_session fb cs (start_spec s.events))
        ⊎ ((rs : List Result) × AreUnreached cs rs
            × (session rb libc fb cs s ≡ done (rs, s))
            × (spec_session fb cs (start_spec s.events) ≡ done (rs, start_spec s.events)))
  program-Agrees cs s blank proper =
      let (s', st) = init-IsStarted rb libc generous s blank in
      let agrees = Agrees-started cs s s' st proper in
      elim (session_starts rb libc generous fb s s' st cs) [
        | inl alike ↦ inl (rw alike agrees)
        | inr (rs, unreached, e, e') ↦ inr (
          rs,
          unreached,
          e,
          specified_of_Agrees rs s' agrees e' ∙ ap (λ σ. done (rs, σ)) st.viewed,
        )
      ]

  -- From the state in which the program starts, called by one thread and given memory whenever it
  -- asks: every sequence of at most 2^31 - 12 calls that holds no mutex, uses no negative offset,
  -- reads and writes the metatag byte by byte, names no tag "@tags" or with 2^16 bytes and has no
  -- attribute "protocol" without '=', returns. The results are those that the specification has from
  -- the ten tags of tags.inc, one for each call.
  pub program_returns :
      (cs : List Call) (s : State T)
      → IsBlank rb s
      → 12 + length cs ≤ 2 ^ 31
      → AreProper cs
      → AreCalmCalls cs
      → (rs : List Result) × (s' : State T) × (σ : Spec) × (session rb libc fb cs s ≡ done (rs, s'))
        × (spec_session fb cs (start_spec s.events) ≡ done (rs, σ))
        × (length rs ≡ length cs)
        × ((view rb s' ≡ σ) ⊎ (s' ≡ s))
  program_returns cs s blank small proper calm =
      let (s', st) = init-IsStarted rb libc generous s blank in
      let tags-AreCalm : AreCalm 12 (view rb s').tags =
        rw (ap (λ (σ : Spec). σ.tags) st.viewed) start-AreCalm in
      let (rs, s₁, ends, same, inv, _) =
        clients_return rb libc generous fb 12 cs s' st.invariant tags-AreCalm (omega arith) small
          proper calm in
      let specified = specified_of_Agrees rs s₁ (Agrees-started cs s s' st proper) ends in
      elim (session_starts rb libc generous fb s s' st cs) [
        | inl alike ↦ (rs, s₁, view rb s₁, alike ∙ ends, specified, same, inl refl)
        | inr (rs', _, e, e') ↦
            let results : rs' ≡ rs = ground arith in
            (rs, s, view rb s₁, rw (← results) e, specified, same, inr refl)
      ]

  spec_start :
      (es : List Event) (k : ℕ)
      → k < 10
      → spec_session fb (get int16 (pos (2 + k)) (pos 0) ∷ []) (start_spec es)
        ≡ done (value (0x4200 + k) ∷ [], start_spec es)
  unfolding spec_session spec on_tag listed find_tag replace_tag get_action type_to_enum
      type_new_simple type_size_bytes buffer_size splice getter_cb load decode scale_offset
  spec_start es zero lt = refl
  spec_start es (suc zero) lt = refl
  spec_start es (suc (suc zero)) lt = refl
  spec_start es (suc (suc (suc zero))) lt = refl
  spec_start es (suc (suc (suc (suc zero)))) lt = refl
  spec_start es (suc (suc (suc (suc (suc zero))))) lt = refl
  spec_start es (suc (suc (suc (suc (suc (suc zero)))))) lt = refl
  spec_start es (suc (suc (suc (suc (suc (suc (suc zero))))))) lt = refl
  spec_start es (suc (suc (suc (suc (suc (suc (suc (suc zero)))))))) lt = refl
  spec_start es (suc (suc (suc (suc (suc (suc (suc (suc (suc zero))))))))) lt = refl
  spec_start es (suc (suc (suc (suc (suc (suc (suc (suc (suc (suc k)))))))))) lt =
      absurd (omega arith)

  -- From the state in which the program starts, and where no allocation fails: reading the tag
  -- DUMMY_AQUA_DATA_k, which tags.inc defines as an INT with the value k, returns 0x4200 + k.
  -- Only the first of the two bytes that are read was written.
  pub start_value :
      (s : State T) (k : ℕ)
      → IsBlank rb s
      → k < 10
      → (s' : State T) × (session rb libc fb (get int16 (pos (2 + k)) (pos 0) ∷ []) s
          ≡ done (value (0x4200 + k) ∷ [], s'))
  start_value s k blank lt =
      let e = spec_start s.events k lt in
      elim (program-Agrees (get int16 (pos (2 + k)) (pos 0) ∷ []) s blank (tt, tt)) [
        | inl agrees ↦
            let (s', ends, _, _) =
              returns_of_Agrees rb libc generous fb _ (start_spec s.events) agrees e in
            (s', ends)
        | inr (rs, _, ends, specified) ↦
            let same : rs ≡ value (0x4200 + k) ∷ [] = ground arith in (s, rw (← same) ends)
      ]
