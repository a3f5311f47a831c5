-- ===== src/Session/Start.antt =====
-- Sessions from the start of the program: the first call that reaches the tree makes the tags of
-- tags.inc.
use plcstub.Base.{
  ℕ, ◌+◌, ◌^◌, ◌≡◌, ◌⊎◌, refl, true, false, none, some, Bool-cases, inl, inr, List, [], ◌∷◌, arith,
  ℤ, pos, ◌==ℤ◌, ltb_ℤ, length, is_some,
}
use plcstub.Types.{TypeT, tag_lint_code, type_to_enum, type_new_simple, type_size_bytes}
use plcstub.Bytes.{Bytes, splice}
use plcstub.Outcome.{Outcome, done, exit, blocked, fault}
use plcstub.Env.Rb.{RbTree}
use plcstub.Env.Heap.{Heap}
use plcstub.Env.Libc.{Libc}
use plcstub.Status.{status_ok, err_bad_param}
use plcstub.TagTree.State.{State, M, free}
use plcstub.TagTree.Ops.{
  metatag_id, tags_inc, tag_int_code, tag_tree_init, tag_tree_lookup, tag_tree_insert,
  tag_tree_remove, buffer_size,
}
use plcstub.TagTree.Nodes.{Below-weaken}
use plcstub.TagTree.Listing.{AreShort}
use plcstub.TagTree.Startup.{start_nodes, tag_tree_init-start}
use plcstub.TagTree.Startup.Scalar.{IsGenerous, scalar_node}
use plcstub.Api.Access.{plc_tag_get, plc_tag_set, plcstub_get_impl, plcstub_set_impl}
use plcstub.Api.Attrib.{Scan, bad_param, attributes, strtok, scan}
use plcstub.Api.Calls.{
  plc_tag_create, plc_tag_destroy, plc_tag_lock, plc_tag_unlock, plc_tag_read, plc_tag_write,
  plc_tag_register_callback, plc_tag_unregister_callback, plc_tag_status, with_tag,
}
use plcstub.Session.{
  Call, Result, int, create, destroy, lock, unlock, status, unregister, get, set, read, write,
  register, call, session,
}
use plcstub.Session.View.{view}
use plcstub.Session.Invariant.{IsInvariant}
use plcstub.Session.Calm.{scalar}
use plcstub.Session.Returns.{AreCalm, IsCalmTag}

start-AreShort : AreShort (start_nodes 2 tags_inc)
start-AreShort = (
  omega arith,
  (
    omega arith,
    (
      omega arith,
      (
        omega arith,
        (
          omega arith,
          (omega arith, (omega arith, (omega arith, (omega arith, (omega arith, tt))))),
        ),
      ),
    ),
  ),
)

calm_scalar : {name : Bytes} {id : ℤ} (val : ℕ) → IsCalmTag (scalar_node name tag_int_code val id)
unfolding type_to_enum type_new_simple splice buffer_size type_size_bytes
calm_scalar val = (refl, scalar refl (omega arith))

pub start-AreCalm : AreCalm 12 (start_nodes 2 tags_inc)
start-AreCalm = (
  calm_scalar 0,
  omega arith,
  (
    calm_scalar 1,
    omega arith,
    (
      calm_scalar 2,
      omega arith,
      (
        calm_scalar 3,
        omega arith,
        (
          calm_scalar 4,
          omega arith,
          (
            calm_scalar 5,
            omega arith,
            (
              calm_scalar 6,
              omega arith,
              (
                calm_scalar 7,
                omega arith,
                (calm_scalar 8, omega arith, (calm_scalar 9, omega arith, tt)),
              ),
            ),
          ),
        ),
      ),
    ),
  ),
)

-- The attribute string is refused, or names no tag.
abbrev pub IsNameless : Outcome Scan → Type 0
IsNameless (done bad_param) = Unit
IsNameless (done (attributes none)) = Unit
IsNameless _ = ⊥

-- A call that ends before it reaches the tree, and what it returns then.
abbrev pub Unreached : Call → Result → Type 0
Unreached (create attrib timeout) r =
    IsNameless (scan (strtok [] attrib) none) × (r ≡ int err_bad_param)
Unreached (destroy id) r = ((id ==ℤ metatag_id) ≡ true) × (r ≡ int status_ok)
Unreached (read id timeout) r = (ltb_ℤ timeout (pos 0) ≡ true) × (r ≡ int err_bad_param)
Unreached (write id timeout) r = (ltb_ℤ timeout (pos 0) ≡ true) × (r ≡ int err_bad_param)
Unreached _ r = ⊥

abbrev pub AreUnreached : List Call → List Result → Type 0
AreUnreached [] [] = Unit
AreUnreached (c ∷ cs) (r ∷ rs) = Unreached c r × AreUnreached cs rs
AreUnreached _ _ = ⊥

-- The state in which the program starts.
pub record IsBlank {T : Type 0} (rb : RbTree T) (s : State T) : Type 0 where
  pub empty : rb.elements s.tree ≡ []
  pub idle : s.tag_tree_inited ≡ false
  pub unlocked : s.tag_tree_mtx ≡ free

module _ {T : Type 0} (rb : RbTree T) (libc : Libc) (generous : IsGenerous libc) where
  gives_any : (h : Heap) (n : ℕ) → is_some (libc.malloc h n) ≡ true
  gives_any h n = let (p, e) = generous.gives h n in rw e refl

  -- What `tag_tree_init` leaves: what the sessions start from, and the specified tags.
  pub record IsStarted (s s' : State T) : Type 0 where
    pub runs : tag_tree_init rb libc s ≡ done (tt, s')
    pub again : tag_tree_init rb libc s' ≡ done (tt, s')
    pub invariant : IsInvariant rb s'
    pub viewed : view rb s' ≡ record { tags = start_nodes 2 tags_inc; events = s.events }

  pub init-IsStarted : (s : State T) → IsBlank rb s → (s' : State T) × IsStarted s s'
  init-IsStarted s blank =
      let (s', runs, sound, ready, listed, below, nodes, events, again) =
        tag_tree_init-start rb libc generous s blank.empty blank.idle blank.unlocked in
      (
        s',
        record {
          runs = runs;
          again = again;
          invariant = record {
            ready = ready;
            sound = sound;
            ints = Below-weaken (pos 12) (pos (2 ^ 31)) (rb.elements s'.tree) below (omega arith);
            short = rw nodes start-AreShort;
          };
          viewed = λ i. record { tags = nodes i; events = events i };
        },
      )

  module _ (fb : ℕ → ℤ → ℕ) (s s' : State T) (st : IsStarted s s') where
    -- What does not tell the two states apart, or ends in both before it reaches the tree, with a
    -- result that says so.
    abbrev pub StartsAlike : {A : Type 0} → M T A → (A → Type 0) → Type 0
    StartsAlike m P = (m s ≡ m s') ⊎ ((r : _) × P r × (m s ≡ done (r, s)) × (m s' ≡ done (r, s')))

    lookup_starts : (id : ℤ) → tag_tree_lookup rb libc id s ≡ tag_tree_lookup rb libc id s'
    unfolding tag_tree_lookup
    lookup_starts id = rw (st.runs, st.again) refl

    insert_starts :
        (name : Bytes) (type : TypeT)
        → tag_tree_insert rb libc name type s ≡ tag_tree_insert rb libc name type s'
    unfolding tag_tree_insert
    insert_starts name type = rw (st.runs, st.again) refl

    remove_starts : (id : ℤ) → StartsAlike (call rb libc fb (destroy id)) (Unreached (destroy id))
    unfolding call plc_tag_destroy tag_tree_remove
    remove_starts id = elim (Bool-cases (id ==ℤ metatag_id)) [
      | inl meta ↦ inr (int status_ok, (meta, refl), rw meta refl, rw meta refl)
      | inr other ↦ inl (rw (other, st.runs, st.again) refl)
    ]

    scanned_starts :
        (o : Outcome Scan) (attrib : Bytes) (timeout : ℤ)
        → scan (strtok [] attrib) none ≡ o
        → StartsAlike (call rb libc fb (create attrib timeout)) (Unreached (create attrib timeout))
    unfolding call plc_tag_create
    scanned_starts exit attrib timeout e =
        inl
          (rw (gives_any s.heap (length attrib + 1), gives_any s'.heap (length attrib + 1), e) refl)
    scanned_starts blocked attrib timeout e =
        inl
          (rw (gives_any s.heap (length attrib + 1), gives_any s'.heap (length attrib + 1), e) refl)
    scanned_starts (fault f) attrib timeout e =
        inl
          (rw (gives_any s.heap (length attrib + 1), gives_any s'.heap (length attrib + 1), e) refl)
    scanned_starts (done bad_param) attrib timeout e = inr (
      int err_bad_param,
      (rw e tt, refl),
      rw (gives_any s.heap (length attrib + 1), e) refl,
      rw (gives_any s'.heap (length attrib + 1), e) refl,
    )
    scanned_starts (done (attributes none)) attrib timeout e = inr (
      int err_bad_param,
      (rw e tt, refl),
      rw (gives_any s.heap (length attrib + 1), e) refl,
      rw (gives_any s'.heap (length attrib + 1), e) refl,
    )
    scanned_starts (done (attributes (some name))) attrib timeout e = inl (
        rw
          (
            gives_any s.heap (length attrib + 1),
            gives_any s'.heap (length attrib + 1),
            e,
            insert_starts name (type_new_simple tag_lint_code),
          )
          refl)

    call_starts : (c : Call) → StartsAlike (call rb libc fb c) (Unreached c)
    unfolding call plc_tag_lock plc_tag_unlock plc_tag_status plc_tag_unregister_callback
        plc_tag_register_callback plc_tag_get plc_tag_set plcstub_get_impl plcstub_set_impl
        plc_tag_read plc_tag_write with_tag
    call_starts (create attrib timeout) = scanned_starts _ attrib timeout refl
    call_starts (destroy id) = remove_starts id
    call_starts (lock id) = inl (rw (lookup_starts id) refl)
    call_starts (unlock id) = inl (rw (lookup_starts id) refl)
    call_starts (status id) = inl (rw (lookup_starts id) refl)
    call_starts (unregister id) = inl (rw (lookup_starts id) refl)
    call_starts (get a id offset) = inl (rw (lookup_starts id) refl)
    call_starts (set a id offset v) = inl (rw (lookup_starts id) refl)
    call_starts (read id timeout) = elim (Bool-cases (ltb_ℤ timeout (pos 0))) [
      | inl early ↦ inr (int err_bad_param, (early, refl), rw early refl, rw early refl)
      | inr late ↦ inl (rw (late, lookup_starts id) refl)
    ]
    call_starts (write id timeout) = elim (Bool-cases (ltb_ℤ timeout (pos 0))) [
      | inl early ↦ inr (int err_bad_param, (early, refl), rw early refl, rw early refl)
      | inr late ↦ inl (rw (late, lookup_starts id) refl)
    ]
    call_starts (register id cb) = inl (rw (lookup_starts id) refl)

    pub session_starts : (cs : List Call) → StartsAlike (session rb libc fb cs) (AreUnreached cs)
    unfolding session
    session_starts [] = inr ([], tt, refl, refl)
    session_starts (c ∷ cs) = elim (call_starts c) [
      | inl alike ↦ inl (rw alike refl)
      | inr (r, u, e, e') ↦ elim (session_starts cs) [
        | inl alike ↦ inl (rw (e, e', alike) refl)
        | inr (rs, us, es, es') ↦ inr (r ∷ rs, (u, us), rw (e, es) refl, rw (e', es') refl)
      ]
    ]
