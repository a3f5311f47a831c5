-- ===== src/Api/Locking.antt =====
-- `plc_tag_lock` and `plc_tag_unlock` of src/plcstub.c, and the calls on a locked tag.
use plcstub.Base.{ℕ, ◌≡◌, true, false, Option, some, arith, ℤ, pos, ◌≤ℤ◌, ltb_ℤ, ◌==ℤ◌, ==-refl}
use plcstub.Outcome.{done, blocked}
use plcstub.Env.Rb.{Ptr, Entry, entry, RbTree}
use plcstub.Env.Heap.{Node, get, put, get-put}
use plcstub.Env.Libc.{Libc}
use plcstub.Status.{status_ok}
use plcstub.TagTree.State.{State, mtx_lock, mtx_unlock, rw_wrlock}
use plcstub.TagTree.Ops.{metatag_id, tag_tree_remove}
use plcstub.TagTree.Lookup.{IsReady, lookup_found, init_ready}
use plcstub.Api.Access.{
  Accessor, width, plcstub_get_impl, plcstub_set_impl, plc_tag_get, plc_tag_set,
}
use plcstub.Api.Access.Locked.{held, get_blocked, set_blocked, released, get-released}
use plcstub.Api.RoundTrip.{IsTag}
use plcstub.Api.Calls.{
  plc_tag_destroy, plc_tag_get_size, plc_tag_lock, plc_tag_unlock, plc_tag_read, plc_tag_write,
  plc_tag_register_callback, plc_tag_status,
}

module _ {T : Type 0} (rb : RbTree T) (libc : Libc) {s : State T} {id : ℤ} {e : Entry}
    {n : Node} where
  -- The state in which the caller holds the tag's mutex.
  abbrev pub after_lock : IsTag rb s id e n → State T
  after_lock tag = record s { heap = put e.node (held n) s.heap }

  -- `plc_tag_lock` on a tag whose mutex is free returns PLCTAG_STATUS_OK, and `plc_tag_unlock` after
  -- it does too and leaves every node as it was before.
  pub unlock-lock :
      IsTag rb s id e n
      → (s₁ : State T) × (s₂ : State T) × (plc_tag_lock rb libc id s ≡ done (status_ok, s₁))
        × (plc_tag_unlock rb libc id s₁ ≡ done (status_ok, s₂))
        × ((q : Ptr) → get q s₂.heap ≡ get q s.heap)
  unfolding plc_tag_lock plc_tag_unlock mtx_lock mtx_unlock
  unlock-lock tag =
      let r' : IsReady (after_lock tag) = record {
        inited = tag.ready.inited;
        unlocked = tag.ready.unlocked;
      } in
      (
        after_lock tag,
        record s { heap = released e.node n s.heap },
        rw (lookup_found tag.ready rb libc id e tag.found) (ground arith),
        rw (lookup_found r' rb libc id e tag.found)
            (ground (arith, ==-refl e.node, get-put e.node e.node (held n) s.heap)),
        (λ q. get-released e.node q n s.heap tag.at tag.free),
      )

  pub remove_blocked :
      (id ==ℤ metatag_id) ≡ false
      → IsReady s
      → rb.find s.tree (entry id 0) ≡ some e
      → get e.node s.heap ≡ some n
      → n.locked ≡ true
      → tag_tree_remove rb libc id s ≡ blocked
  unfolding tag_tree_remove rw_wrlock mtx_lock
  remove_blocked other r f at taken = rw (other, init_ready r rb libc) (ground arith)

  -- The thread that holds a tag's mutex waits for ever in every other call on this tag that locks
  -- it: the accessors, `plc_tag_lock`, `plc_tag_get_size`, `plc_tag_register_callback`,
  -- `plc_tag_read` and `plc_tag_write` with a timeout that is not negative, and `plc_tag_destroy`
  -- unless the tag is the metatag. `plc_tag_status` still returns PLCTAG_STATUS_OK.
  pub locked_tag_blocks :
      (fb : ℕ → ℤ → ℕ) (a : Accessor) (offset timeout : ℤ) (v : ℕ) (cb : Option ℕ)
      → IsReady s
      → rb.find s.tree (entry id 0) ≡ some e
      → get e.node s.heap ≡ some n
      → n.locked ≡ true
      → pos 0 ≤ℤ timeout
      → (plc_tag_get rb libc fb a id offset s ≡ blocked)
        × (plc_tag_set rb libc a id offset v s ≡ blocked)
        × (plc_tag_lock rb libc id s ≡ blocked)
        × (plc_tag_get_size rb libc id s ≡ blocked)
        × (plc_tag_register_callback rb libc id cb s ≡ blocked)
        × (plc_tag_read rb libc id timeout s ≡ blocked)
        × (plc_tag_write rb libc id timeout s ≡ blocked)
        × ((id ==ℤ metatag_id) ≡ false → plc_tag_destroy rb libc id s ≡ blocked)
        × (plc_tag_status rb libc id s ≡ done (status_ok, s))
  unfolding plc_tag_get plcstub_get_impl plc_tag_set plcstub_set_impl plc_tag_lock plc_tag_get_size
      plc_tag_register_callback plc_tag_read plc_tag_write plc_tag_destroy plc_tag_status mtx_lock
  locked_tag_blocks fb a offset timeout v cb r f at taken t =
      let found = lookup_found r rb libc id e f in
      let late : ltb_ℤ timeout (pos 0) ≡ false = ground arith in
      (
        rw (found, get_blocked s e.node n at taken (width a) id offset),
        rw (found, set_blocked s e.node n at taken (width a) v id offset),
        rw found (ground arith),
        rw found (ground arith),
        rw found (ground arith),
        rw (late, found) (ground arith),
        rw (late, found) (ground arith),
        (λ other. remove_blocked other r f at taken),
        rw found,
      )
