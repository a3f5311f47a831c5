-- ===== src/Session/Node.antt =====
-- What the calls do to the node that their lookup finds, against the actions.
use plcstub.Base.{
  ℕ, ◌≡◌, refl, ◌∙◌, false, Option, some, Option-cases, Bool-cases, inl, inr, List, arith, ℤ, pos,
  negsuc, if◌then◌else◌, ◌==◌, ==-refl,
}
use plcstub.Outcome.{Outcome, done, blocked, fault, Fault, not_locked, out_of_bounds}
use plcstub.Bytes.{load, store}
use plcstub.Env.Rb.{Ptr, RbTree}
use plcstub.Env.Heap.{Node, Heap, get, put, get-put}
use plcstub.Env.Libc.{Libc}
use plcstub.Status.{status_ok, err_bad_param}
use plcstub.TagTree.State.{State, Event, pure, bind_outcome, mtx_lock, mtx_unlock}
use plcstub.TagTree.Ops.{tag_tree_lookup}
use plcstub.Api.Access.{
  Accessor, width, cast, plc_tag_get, plc_tag_set, plcstub_get_impl, plcstub_set_impl, getter_cb,
  setter_cb, read_started, read_completed, write_started, write_completed,
}
use plcstub.Api.Access.Locked.{
  resolve, held, released, rewritten, get_ok, set_ok, get_refused, set_refused, get_faults,
  set_faults, get_blocked, set_blocked, get-rewritten, get-released,
}
use plcstub.Api.Calls.{
  with_tag, plc_tag_lock, plc_tag_unlock, plc_tag_status, plc_tag_register_callback, notify_both,
}
use plcstub.Api.Callbacks.{with_cb}
use plcstub.Session
use plcstub.Session.{Result, int, value, call}
use plcstub.Session.Spec.{
  get_action, set_action, lock_action, unlock_action, status_action, notify_action, register_action,
  refused, both,
}

-- A call that found the node `n` at `p` in the state `s` ends as the action says: it returns the
-- same result and events and leaves the action's node at `p` and all else as it was, or it ends in
-- the same way without returning.
pub data Matches {T : Type 0} (s : State T) (p : Ptr) (n : Node) (o : Outcome (Result × State T))
    (o' : Outcome (Result × Node × List Event)) : Type 0 where
  returns :
      (r : Result) (m : Node) (es : List Event) (g : Heap)
      → o ≡ done (r, record s { heap = g; events = es })
      → o' ≡ done (r, m, es)
      → m.tag_id ≡ n.tag_id
      → m.name ≡ n.name
      → ((q : Ptr) → get q g ≡ (if q == p then some m else get q s.heap))
      → Matches s p n o o'
  blocks : o ≡ blocked → o' ≡ blocked → Matches s p n o o'
  faults : (f : Fault) → o ≡ fault f → o' ≡ fault f → Matches s p n o o'

module _ {T : Type 0} (rb : RbTree T) (libc : Libc) (fb : ℕ → ℤ → ℕ) (s s₁ : State T) (id : ℤ)
    (p : Ptr) (n : Node) (found : tag_tree_lookup rb libc id s ≡ done (some p, s₁))
    (at : get p s₁.heap ≡ some n) where
  -- The node as it was.
  unchanged :
      n.locked ≡ false
      → (q : Ptr) → get q (released p n s₁.heap) ≡ (if q == p then some n else get q s₁.heap)
  unchanged free q = get-released p q n s₁.heap at free ∙ ground arith

  pub status-Matches :
      Matches s₁ p n (call rb libc fb (Session.status id) s) (status_action n s₁.events)
  unfolding call plc_tag_status status_action
  status-Matches =
      returns (int status_ok) n s₁.events s₁.heap (rw found refl) refl refl refl (λ q. ground arith)

  pub lock-Matches : Matches s₁ p n (call rb libc fb (Session.lock id) s) (lock_action n s₁.events)
  unfolding call plc_tag_lock lock_action mtx_lock
  lock-Matches = elim (Bool-cases n.locked) [
    | inl taken ↦ blocks (rw found (ground arith)) (rw taken)
    | inr free ↦
        returns (int status_ok) (held n) s₁.events (put p (held n) s₁.heap)
          (rw found (ground arith)) (rw free) refl refl (λ q. get-put p q (held n) s₁.heap)
  ]

  pub unlock-Matches :
      Matches s₁ p n (call rb libc fb (Session.unlock id) s) (unlock_action n s₁.events)
  unfolding call plc_tag_unlock unlock_action mtx_unlock
  unlock-Matches = elim (Bool-cases n.locked) [
    | inl taken ↦
        let m : Node = record n { locked = false } in
        returns (int status_ok) m s₁.events (put p m s₁.heap) (rw found (ground arith)) (rw taken)
          refl refl (λ q. get-put p q m s₁.heap)
    | inr free ↦ faults not_locked (rw found (ground arith)) (rw free)
  ]

  pub register-Matches :
      (cb : Option ℕ)
      → Matches s₁ p n (call rb libc fb (Session.register id cb) s) (register_action cb n s₁.events)
  unfolding call plc_tag_register_callback register_action
  register-Matches cb = elim (Bool-cases n.locked) [
    | inl taken ↦ blocks (rw found (ground arith)) (rw taken)
    | inr free ↦
        let m : Node = record n { cb = cb; locked = false } in
        returns (int status_ok) (record n { cb = cb }) s₁.events (with_cb p n cb s₁.heap)
          (rw found (
            ground (
              arith,
              ==-refl p,
              get-put p p (held n) s₁.heap,
              get-put p p (held (record n { cb = cb })) (put p (held n) s₁.heap),
            )))
          (rw free) refl refl
          (λ q.
            get-put p q m (put p (held (record n { cb = cb })) (put p (held n) s₁.heap))
            ∙ ground (
              arith,
              get-put p q (held (record n { cb = cb })) (put p (held n) s₁.heap),
              get-put p q (held n) s₁.heap,
            ))
  ]

  pub get-Matches :
      (a : Accessor) (offset : ℤ)
      → Matches s₁ p n
          (call rb libc fb (Session.get a id offset) s)
          (get_action fb a id offset n s₁.events)
  unfolding call plc_tag_get plcstub_get_impl get_action getter_cb
  get-Matches a offset = elim (Bool-cases n.locked) [
    | inl taken ↦ blocks (rw (found, get_blocked s₁ p n at taken (width a) id offset)) (rw taken)
    | inr free ↦ elim (Option-cases (resolve n.type offset)) [
      | inl none_there ↦
          returns (value (cast fb a err_bad_param)) n (refused id read_started n s₁.events)
            (released p n s₁.heap)
            (rw (found, get_refused s₁ p n at free (width a) id offset none_there))
            (simp (free, none_there)) refl refl (unchanged free)
      | inr (negsuc k, r) ↦
          faults out_of_bounds
            (rw (found, get_faults s₁ p n at free (width a) id offset (negsuc k) r refl))
            (rw (free, r))
      | inr (pos off, r) ↦ elim (Option-cases (load (width a) off n.contents)) [
        | inl out ↦
            faults out_of_bounds
              (rw (found, get_faults s₁ p n at free (width a) id offset (pos off) r (rw out)))
              (rw (free, r, out))
        | inr (v, l) ↦
            returns (value v) n (both id read_started read_completed n s₁.events)
              (released p n s₁.heap)
              (rw (found, get_ok s₁ p n at free (width a) id offset off v r l)) (simp (free, r, l))
              refl refl (unchanged free)
      ]
    ]
  ]

  pub set-Matches :
      (a : Accessor) (offset : ℤ) (v : ℕ)
      → Matches s₁ p n
          (call rb libc fb (Session.set a id offset v) s)
          (set_action a id offset v n s₁.events)
  unfolding call plc_tag_set plcstub_set_impl set_action setter_cb
  set-Matches a offset v = elim (Bool-cases n.locked) [
    | inl taken ↦ blocks (rw (found, set_blocked s₁ p n at taken (width a) v id offset)) (rw taken)
    | inr free ↦ elim (Option-cases (resolve n.type offset)) [
      | inl none_there ↦
          returns (int err_bad_param) n (refused id write_started n s₁.events)
            (released p n s₁.heap)
            (rw (found, set_refused s₁ p n at free (width a) v id offset none_there))
            (simp (free, none_there)) refl refl (unchanged free)
      | inr (negsuc k, r) ↦
          faults out_of_bounds
            (rw (found, set_faults s₁ p n at free (width a) v id offset (negsuc k) r refl))
            (rw (free, r))
      | inr (pos off, r) ↦ elim (Option-cases (store (width a) off v n.contents)) [
        | inl out ↦
            faults out_of_bounds
              (rw (found, set_faults s₁ p n at free (width a) v id offset (pos off) r (rw out)))
              (rw (free, r, out))
        | inr (d, l) ↦
            returns (int status_ok) (record n { contents = d })
              (both id write_started write_completed n s₁.events) (rewritten p n d s₁.heap)
              (rw (found, set_ok s₁ p n at free (width a) v id offset off d r l))
              (simp (free, r, l)) refl refl (λ q. get-rewritten p q n d s₁.heap ∙ ground arith)
      ]
    ]
  ]

  -- `plc_tag_read` and `plc_tag_write` behind the test of the timeout.
  pub both-Matches :
      (first second : ℤ)
      → Matches s₁ p n
          (bind_outcome
            (with_tag rb libc id (λ p. notify_both p id first second) s)
            (λ r. pure (int r)))
          (notify_action id first second n s₁.events)
  unfolding with_tag notify_both notify_action
  both-Matches first second = elim (Bool-cases n.locked) [
    | inl taken ↦ blocks (rw found (ground arith)) (rw taken)
    | inr free ↦
        returns (int status_ok) n (both id first second n s₁.events) (released p n s₁.heap)
          (rw found (ground (arith, ==-refl p, get-put p p (held n) s₁.heap))) (rw free) refl refl
          (unchanged free)
  ]
