-- ===== src/Api/Callbacks.antt =====
-- The callbacks of src/plcstub.c: registering them, and what `plc_tag_read` and `plc_tag_write` send.
use plcstub.Base.{
  ℕ, ◌≡◌, refl, ap, ◌∙◌, true, false, Option, none, some, List, [], ◌∷◌, ◌++◌, arith, ℤ, pos, ◌≤ℤ◌,
  ltb_ℤ, ==-refl,
}
use plcstub.Outcome.{done}
use plcstub.Env.Rb.{Ptr, Entry, RbTree}
use plcstub.Env.Heap.{Node, Heap, get, put, get-put}
use plcstub.Env.Libc.{Libc}
use plcstub.Status.{status_ok}
use plcstub.TagTree.State.{State, Event}
use plcstub.TagTree.Lookup.{lookup_found}
use plcstub.Api.Access.{read_started, read_completed, write_started, write_completed, notify}
use plcstub.Api.Access.Locked.{held, released, get-released}
use plcstub.Api.RoundTrip.{IsTag}
use plcstub.Api.Calls.{plc_tag_read, plc_tag_write, plc_tag_register_callback, notify_both}

-- A call of the callback `f` for a tag whose mutex is held.
abbrev pub event : ℕ → ℤ → ℤ → Event
event f tag ev = record {
  callback = f;
  tag_id = tag;
  event = ev;
  status = status_ok;
  mutex_held = true;
}

-- The node with another callback, after the mutex has been taken and given back.
abbrev pub with_cb : Ptr → Node → Option ℕ → Heap → Heap
with_cb p n cb h =
    put p (record n { cb = cb; locked = false })
      (put p (held (record n { cb = cb })) (put p (held n) h))

get-with_cb :
    (p : Ptr) (n : Node) (cb : Option ℕ) (h : Heap)
    → get p (with_cb p n cb h) ≡ some (record n { cb = cb; locked = false })
get-with_cb p n cb h =
    get-put p p (record n { cb = cb; locked = false })
      (put p (held (record n { cb = cb })) (put p (held n) h))
    ∙ ground (arith, ==-refl p)

-- What a sequence of events is once a callback, if there is one, has got two more.
abbrev pub sent : Option ℕ → ℤ → ℤ → ℤ → List Event → List Event
sent none tag first second es = es
sent (some f) tag first second es = (es ++ event f tag first ∷ []) ++ event f tag second ∷ []

notify-sent :
    (cb : Option ℕ) (tag first second : ℤ) (es : List Event)
    → notify cb true tag second status_ok (notify cb true tag first status_ok es)
      ≡ sent cb tag first second es
notify-sent none tag first second es = refl
notify-sent (some f) tag first second es = refl

module _ {T : Type 0} (rb : RbTree T) (libc : Libc) {s : State T} {id : ℤ} {e : Entry}
    {n : Node} where
  -- The state after a callback has been registered.
  abbrev pub after_register : IsTag rb s id e n → Option ℕ → State T
  after_register tag cb = record s { heap = with_cb e.node n cb s.heap }

  register_effect :
      (tag : IsTag rb s id e n) (cb : Option ℕ)
      → plc_tag_register_callback rb libc id cb s ≡ done (status_ok, after_register tag cb)
  unfolding plc_tag_register_callback
  register_effect tag cb = rw (lookup_found tag.ready rb libc id e tag.found) (
      ground (
        arith,
        ==-refl e.node,
        get-put e.node e.node (held n) s.heap,
        get-put e.node e.node (held (record n { cb = cb })) (put e.node (held n) s.heap),
      ))

  IsTag-after_register :
      (tag : IsTag rb s id e n) (cb : Option ℕ)
      → IsTag rb (after_register tag cb) id e (record n { cb = cb; locked = false })
  IsTag-after_register tag cb = record {
    ready = record { inited = tag.ready.inited; unlocked = tag.ready.unlocked };
    found = tag.found;
    at = get-with_cb e.node n cb s.heap;
    free = refl;
  }

module _ {T : Type 0} (rb : RbTree T) (libc : Libc) {s : State T} {id : ℤ} {e : Entry}
    {n : Node} where
  -- The state after the two notifications of a read or a write.
  abbrev pub after_both : IsTag rb s id e n → ℤ → ℤ → State T
  after_both tag first second = record s {
    heap = released e.node n s.heap;
    events = notify n.cb true id second status_ok (notify n.cb true id first status_ok s.events);
  }

  both_effect :
      (tag : IsTag rb s id e n) (first second : ℤ)
      → notify_both e.node id first second s ≡ done (status_ok, after_both tag first second)
  unfolding notify_both
  both_effect tag first second =
      ground (arith, ==-refl e.node, get-put e.node e.node (held n) s.heap)

  IsTag-after_both :
      (tag : IsTag rb s id e n) (first second : ℤ) → IsTag rb (after_both tag first second) id e n
  IsTag-after_both tag first second = record {
    ready = record { inited = tag.ready.inited; unlocked = tag.ready.unlocked };
    found = tag.found;
    at = get-released e.node e.node n s.heap tag.at tag.free ∙ tag.at;
    free = tag.free;
  }

  pub read_effect :
      (tag : IsTag rb s id e n) (timeout : ℤ)
      → pos 0 ≤ℤ timeout
      → plc_tag_read rb libc id timeout s
        ≡ done (status_ok, after_both tag read_started read_completed)
  unfolding plc_tag_read
  read_effect tag timeout t =
      let late : ltb_ℤ timeout (pos 0) ≡ false = ground arith in
      rw (late, lookup_found tag.ready rb libc id e tag.found)
        (both_effect tag read_started read_completed)

  pub write_effect :
      (tag : IsTag rb s id e n) (timeout : ℤ)
      → pos 0 ≤ℤ timeout
      → plc_tag_write rb libc id timeout s
        ≡ done (status_ok, after_both tag write_started write_completed)
  unfolding plc_tag_write
  write_effect tag timeout t =
      let late : ltb_ℤ timeout (pos 0) ≡ false = ground arith in
      rw (late, lookup_found tag.ready rb libc id e tag.found)
        (both_effect tag write_started write_completed)

module _ {T : Type 0} (rb : RbTree T) (libc : Libc) {s : State T} {id : ℤ} {e : Entry}
    {n : Node} where
  -- After `plc_tag_register_callback`, whatever callback the tag had before, `plc_tag_read` and then
  -- `plc_tag_write` with timeouts that are not negative return PLCTAG_STATUS_OK and send the new
  -- callback, in this order and while the tag's mutex is held, that a read started and completed and
  -- that a write started and completed. After registering NULL they send nothing.
  pub read_write-register :
      (cb : Option ℕ) (t t' : ℤ)
      → IsTag rb s id e n
      → pos 0 ≤ℤ t
      → pos 0 ≤ℤ t'
      → (s₁ : State T) × (s₂ : State T) × (s₃ : State T) × (plc_tag_register_callback rb libc id cb
            s
          ≡ done (status_ok, s₁))
        × (plc_tag_read rb libc id t s₁ ≡ done (status_ok, s₂))
        × (plc_tag_write rb libc id t' s₂ ≡ done (status_ok, s₃))
        × (s₃.events
            ≡ sent cb id write_started write_completed
                (sent cb id read_started read_completed s.events))
  read_write-register cb t t' tag ht ht' =
      let tag₁ = IsTag-after_register rb libc tag cb in
      let tag₂ = IsTag-after_both rb libc tag₁ read_started read_completed in
      (
        after_register rb libc tag cb,
        after_both rb libc tag₁ read_started read_completed,
        after_both rb libc tag₂ write_started write_completed,
        register_effect rb libc tag cb,
        read_effect rb libc tag₁ t ht,
        write_effect rb libc tag₂ t' ht',
        notify-sent cb id write_started write_completed _
            ∙ ap (sent cb id write_started write_completed)
                (notify-sent cb id read_started read_completed s.events),
      )
