-- ===== src/Session/Refines.antt =====
-- The calls of src/plcstub.c do what the specification says, one by one and in any sequence.
use plcstub.Base.{
  ℕ, ◌<◌, ◌≡◌, refl, true, false, none, some, Bool-cases, inl, inr, List, [], ◌∷◌, ℤ, pos, ltb_ℤ,
  length, eq_bytes, is_some, ◌+◌,
}
use plcstub.Types.{u16, type_new_simple}
use plcstub.Bytes.{Bytes}
use plcstub.Outcome
use plcstub.Outcome.{Outcome, done, exit, blocked, fault, Fault}
use plcstub.Env.Rb.{Ptr, RbTree}
use plcstub.Env.Heap.{Node, get as node_at}
use plcstub.Env.Libc.{Libc}
use plcstub.Status.{err_bad_param, err_not_found}
use plcstub.TagTree.State.{State, pure, bind_outcome}
use plcstub.TagTree.Ops.{meta_name, tag_tree_lookup}
use plcstub.TagTree.Startup.Scalar.{IsGenerous}
use plcstub.Api.Access.{
  cast, plc_tag_get, plc_tag_set, plcstub_get_impl, plcstub_set_impl, read_started, read_completed,
  write_started, write_completed,
}
use plcstub.Api.Attrib.{Scan, bad_param, attributes, strtok, scan}
use plcstub.Api.Calls.{
  plc_tag_create, plc_tag_destroy, plc_tag_lock, plc_tag_unlock, plc_tag_read, plc_tag_write,
  plc_tag_register_callback, plc_tag_unregister_callback, plc_tag_status, with_tag, notify_both,
}
use plcstub.Session.{
  Call, Result, int, value, create, destroy, lock, unlock, status, unregister, get, set, read,
  write, register, call, session,
}
use plcstub.Session.Spec.{
  Spec, Action, on_tag, spec, spec_session, get_action, set_action, lock_action, unlock_action,
  status_action, notify_action, register_action,
}
use plcstub.Session.View.{view}
use plcstub.Session.Node.{
  Matches, status-Matches, lock-Matches, unlock-Matches, register-Matches, get-Matches, set-Matches,
  both-Matches,
}
use plcstub.Session.Invariant.{IsInvariant}
use plcstub.Session.Lift.{Agrees, returns_in, exits_too, blocks_too, faults_too, on_tag-Agrees}
use plcstub.Session.Lookup.{missing, present, looked}
use plcstub.Session.Change.{remove-Agrees}
use plcstub.Session.Add.{add-Agrees}

-- A name that `plc_tag_create` would take is not "@tags" and is shorter than 2^16 bytes.
abbrev pub NamesTag : Outcome Scan → Type 0
NamesTag (done (attributes (some name))) = (eq_bytes name meta_name ≡ false) × (length name < u16)
NamesTag _ = Unit

abbrev pub IsProper : Call → Type 0
IsProper (create attrib timeout) = NamesTag (scan (strtok [] attrib) none)
IsProper _ = Unit

abbrev pub AreProper : List Call → Type 0
AreProper [] = Unit
AreProper (c ∷ cs) = IsProper c × AreProper cs

module _ {T : Type 0} (rb : RbTree T) (libc : Libc) (generous : IsGenerous libc)
    (fb : ℕ → ℤ → ℕ) where
  module _ (s : State T) (inv : IsInvariant rb s) where
    -- A call that begins with a lookup.
    node-Agrees :
        (id : ℤ) (absent : Result) (act : Action) (o : Outcome (Result × State T))
        → (tag_tree_lookup rb libc id s ≡ done (none, s) → o ≡ done (absent, s))
        → ((s₁ : State T) (p : Ptr) (n : Node)
            → tag_tree_lookup rb libc id s ≡ done (some p, s₁)
            → node_at p s₁.heap ≡ some n
            → Matches s₁ p n o (act n s₁.events))
        → Agrees rb o (on_tag id absent act (view rb s))
    unfolding on_tag
    node-Agrees id absent act o none_case some_case = elim (looked rb libc generous s inv id) [
      | missing l same gone ↦ returns_in absent s (none_case l) (rw (on_tag, same, gone, same)) inv
      | present s₁ e n l inv₁ f at same events ↦
          on_tag-Agrees rb s₁ inv₁ id e n f at (view rb s) absent act o same events
            (some_case s₁ e.node n l at)
    ]

    -- A call that notifies twice.
    notify-Agrees :
        (id first second : ℤ)
        → Agrees rb
            (bind_outcome
              (with_tag rb libc id (λ p. notify_both p id first second) s)
              (λ r. pure (int r)))
            (on_tag id (int err_not_found) (notify_action id first second) (view rb s))
    unfolding with_tag
    notify-Agrees id first second =
        node-Agrees id (int err_not_found) (notify_action id first second)
          (bind_outcome (with_tag rb libc id (λ p. notify_both p id first second) s)
            (λ r. pure (int r)))
          (λ l. rw l) (λ s₁ p n l at. both-Matches rb libc fb s s₁ id p n l at first second)

    -- The copy of the attribute string is made.
    copy : (attrib : Bytes) → is_some (libc.malloc s.heap (length attrib + 1)) ≡ true
    copy attrib = let (_, room) = generous.gives s.heap (length attrib + 1) in rw room

    create-Agrees :
        (attrib : Bytes) (timeout : ℤ) (o : Outcome Scan)
        → scan (strtok [] attrib) none ≡ o
        → NamesTag o
        → Agrees rb
            (call rb libc fb (create attrib timeout) s)
            (spec fb (create attrib timeout) (view rb s))
    unfolding call spec plc_tag_create type_new_simple
    create-Agrees attrib timeout (done bad_param) found proper =
        returns_in (int err_bad_param) s (rw (copy attrib, found)) (rw found) inv
    create-Agrees attrib timeout (done (attributes none)) found proper =
        returns_in (int err_bad_param) s (rw (copy attrib, found)) (rw found) inv
    create-Agrees attrib timeout (done (attributes (some name))) found proper =
        rw (copy attrib, found) (add-Agrees rb libc generous s inv name proper.0 proper.1)
    create-Agrees attrib timeout exit found proper = exits_too (rw (copy attrib, found)) (rw found)
    create-Agrees attrib timeout blocked found proper =
        blocks_too (rw (copy attrib, found)) (rw found)
    create-Agrees attrib timeout (fault f) found proper =
        faults_too f (rw (copy attrib, found)) (rw found)

    -- Each call ends as the specification says.
    call-Agrees : (c : Call) → IsProper c → Agrees rb (call rb libc fb c s) (spec fb c (view rb s))
    unfolding call spec plc_tag_destroy plc_tag_lock plc_tag_unlock plc_tag_read plc_tag_write
        plc_tag_register_callback plc_tag_unregister_callback plc_tag_status plc_tag_get plc_tag_set
        plcstub_get_impl plcstub_set_impl
    call-Agrees (create attrib timeout) proper =
        create-Agrees attrib timeout (scan (strtok [] attrib) none) refl proper
    call-Agrees (destroy id) proper = remove-Agrees rb libc s inv id
    call-Agrees (lock id) proper =
        node-Agrees id (int err_not_found) lock_action (call rb libc fb (lock id) s) (λ l. rw l)
          (λ s₁ p n l at. lock-Matches rb libc fb s s₁ id p n l at)
    call-Agrees (unlock id) proper =
        node-Agrees id (int err_not_found) unlock_action (call rb libc fb (unlock id) s) (λ l. rw l)
          (λ s₁ p n l at. unlock-Matches rb libc fb s s₁ id p n l at)
    call-Agrees (status id) proper =
        node-Agrees id (int err_not_found) status_action (call rb libc fb (status id) s) (λ l. rw l)
          (λ s₁ p n l at. status-Matches rb libc fb s s₁ id p n l at)
    call-Agrees (unregister id) proper =
        node-Agrees id (int err_not_found) (register_action none)
          (call rb libc fb (unregister id) s) (λ l. rw l)
          (λ s₁ p n l at. register-Matches rb libc fb s s₁ id p n l at none)
    call-Agrees (get a id offset) proper =
        node-Agrees id (value (cast fb a err_not_found)) (get_action fb a id offset)
          (call rb libc fb (get a id offset) s) (λ l. rw l)
          (λ s₁ p n l at. get-Matches rb libc fb s s₁ id p n l at a offset)
    call-Agrees (set a id offset v) proper =
        node-Agrees id (int err_not_found) (set_action a id offset v)
          (call rb libc fb (set a id offset v) s) (λ l. rw l)
          (λ s₁ p n l at. set-Matches rb libc fb s s₁ id p n l at a offset v)
    call-Agrees (read id timeout) proper = elim (Bool-cases (ltb_ℤ timeout (pos 0))) [
      | inl early ↦ returns_in (int err_bad_param) s (rw early) (rw early) inv
      | inr late ↦ rw late (notify-Agrees id read_started read_completed)
    ]
    call-Agrees (write id timeout) proper = elim (Bool-cases (ltb_ℤ timeout (pos 0))) [
      | inl early ↦ returns_in (int err_bad_param) s (rw early) (rw early) inv
      | inr late ↦ rw late (notify-Agrees id write_started write_completed)
    ]
    call-Agrees (register id cb) proper =
        node-Agrees id (int err_not_found) (register_action cb) (call rb libc fb (register id cb) s)
          (λ l. rw l) (λ s₁ p n l at. register-Matches rb libc fb s s₁ id p n l at cb)

  prepend :
      (r : Result) {o : Outcome (List Result × State T)} {o' : Outcome (List Result × Spec)}
      → Agrees rb o o'
      → Agrees rb
          (bind_outcome o (λ rs. pure (r ∷ rs)))
          (Outcome.◌>>=◌ o' (λ (rs, σ). done (r ∷ rs, σ)))
  prepend r (returns_in rs s' ends specified inv) =
      returns_in (r ∷ rs) s' (rw ends) (rw specified) inv
  prepend r (exits_too ends specified) = exits_too (rw ends) (rw specified)
  prepend r (blocks_too ends specified) = blocks_too (rw ends) (rw specified)
  prepend r (faults_too f ends specified) = faults_too f (rw ends) (rw specified)

  -- On a started library, called by one thread and given memory whenever it asks, where no name is
  -- "@tags" or has 2^16 bytes: every sequence of calls ends as the specification of the tags says.
  -- It returns the same results, in a state that stands for the specified tags and events and in
  -- which the tree is sound, or it waits for ever or runs into the same undefined behaviour.
  pub session-Agrees :
      (cs : List Call) (s : State T)
      → IsInvariant rb s
      → AreProper cs
      → Agrees rb (session rb libc fb cs s) (spec_session fb cs (view rb s))
  unfolding session spec_session
  session-Agrees [] s inv proper = returns_in [] s refl refl inv
  session-Agrees (c ∷ cs) s inv proper =
      then-Agrees (call-Agrees s inv c proper.0) (λ s' inv'. session-Agrees cs s' inv' proper.1)
    where
      then-Agrees :
          Agrees rb (call rb libc fb c s) (spec fb c (view rb s))
          → ((s' : State T)
              → IsInvariant rb s'
              → Agrees rb (session rb libc fb cs s') (spec_session fb cs (view rb s')))
          → Agrees rb (session rb libc fb (c ∷ cs) s) (spec_session fb (c ∷ cs) (view rb s))
      then-Agrees (returns_in r s' ends specified inv') rest =
          rw (ends, specified) (prepend r (rest s' inv'))
      then-Agrees (exits_too ends specified) rest = exits_too (rw ends) (rw specified)
      then-Agrees (blocks_too ends specified) rest = blocks_too (rw ends) (rw specified)
      then-Agrees (faults_too f ends specified) rest = faults_too f (rw ends) (rw specified)
