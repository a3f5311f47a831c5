-- ===== src/Api/Access/Locked.antt =====
-- The accessors behind the lookup: what they do to the node at `p`, on every branch.
use plcstub.Base.{
  ℕ, ◌≡◌, true, false, Option, none, some, List, arith, ℤ, pos, ltb_ℤ, if◌then◌else◌, ◌==◌, ==-refl,
}
use plcstub.Outcome.{done, blocked, fault, out_of_bounds}
use plcstub.Types.{TypeT, type_to_enum, type_size_bytes}
use plcstub.Bytes.{Bytes, load, store}
use plcstub.Env.Rb.{Ptr}
use plcstub.Env.Heap.{Node, Heap, get, put, get-put}
use plcstub.Status.{status_ok, err_bad_param}
use plcstub.TagTree.State.{State, Event}
use plcstub.TagTree.Metatag.{array_len}
use plcstub.Api.Access.{
  getter_cb, setter_cb, notify, scale_offset, is_array, member_type, get_locked, set_locked,
  read_started, read_completed, write_started, write_completed, aborted,
}

-- Where an accepted offset lies in the buffer, in bytes; `none` if the offset is refused.
abbrev pub resolve : TypeT → ℤ → Option ℤ
resolve t offset =
    if is_array (type_to_enum t)
    then (if ltb_ℤ offset (pos (array_len t))
        then some (scale_offset offset (type_size_bytes (member_type t)))
        else none)
    else (if ltb_ℤ (pos 0) offset then none else some offset)

-- The heap after a node has been locked and unlocked, and one after a locked node got new contents.
abbrev pub held : Node → Node
held n = record n { locked = true }

abbrev pub released : Ptr → Node → Heap → Heap
released p n h = put p (record n { locked = false }) (put p (held n) h)

abbrev pub rewritten : Ptr → Node → Bytes → Heap → Heap
rewritten p n d h =
    put p (record n { contents = d; locked = false })
      (put p (held (record n { contents = d })) (put p (held n) h))

module _ {T : Type 0} (s : State T) (p : Ptr) (n : Node) (at : get p s.heap ≡ some n)
    (free : n.locked ≡ false) where
  pub get_ok :
      (w : ℕ) (tag offset : ℤ) (off v : ℕ)
      → resolve n.type offset ≡ some (pos off)
      → load w off n.contents ≡ some v
      → get_locked w p tag offset s
        ≡ done (
          (status_ok, some v),
          record s {
            heap = released p n s.heap;
            events =
                notify n.cb true tag read_completed status_ok
                  (notify n.cb true tag read_started status_ok s.events);
          },
        )
  unfolding get_locked
  get_ok w tag offset off v r l = ground (arith, ==-refl p, get-put p p (held n) s.heap)

  pub set_ok :
      (w v : ℕ) (tag offset : ℤ) (off : ℕ) (d : Bytes)
      → resolve n.type offset ≡ some (pos off)
      → store w off v n.contents ≡ some d
      → set_locked w v p tag offset s
        ≡ done (
          status_ok,
          record s {
            heap = rewritten p n d s.heap;
            events =
                notify n.cb true tag write_completed status_ok
                  (notify n.cb true tag write_started status_ok s.events);
          },
        )
  unfolding set_locked
  set_ok w v tag offset off d r l = ground (
    arith,
    ==-refl p,
    get-put p p (held n) s.heap,
    get-put p p (held (record n { contents = d })) (put p (held n) s.heap),
  )

  -- What a refused offset notifies: a tag that is no array sends the abort, an array nothing.
  abbrev pub refusal : ℤ → ℤ → List Event
  refusal tag started =
      let es = notify n.cb true tag started status_ok s.events in
      if is_array (type_to_enum n.type) then es else notify n.cb true tag aborted err_bad_param es

  pub get_refused :
      (w : ℕ) (tag offset : ℤ)
      → resolve n.type offset ≡ none
      → get_locked w p tag offset s
        ≡ done (
          (err_bad_param, none),
          record s { heap = released p n s.heap; events = refusal tag read_started },
        )
  unfolding get_locked
  get_refused w tag offset r = ground (arith, ==-refl p, get-put p p (held n) s.heap)

  pub set_refused :
      (w v : ℕ) (tag offset : ℤ)
      → resolve n.type offset ≡ none
      → set_locked w v p tag offset s
        ≡ done (
          err_bad_param,
          record s { heap = released p n s.heap; events = refusal tag write_started },
        )
  unfolding set_locked
  set_refused w v tag offset r = ground (arith, ==-refl p, get-put p p (held n) s.heap)

  -- An accepted offset from which the access leaves the buffer.
  pub get_faults :
      (w : ℕ) (tag offset off : ℤ)
      → resolve n.type offset ≡ some off
      → getter_cb w off n.contents ≡ fault out_of_bounds
      → get_locked w p tag offset s ≡ fault out_of_bounds
  unfolding get_locked
  get_faults w tag offset off r l = ground (arith, ==-refl p, get-put p p (held n) s.heap)

  pub set_faults :
      (w v : ℕ) (tag offset off : ℤ)
      → resolve n.type offset ≡ some off
      → setter_cb w off v n.contents ≡ fault out_of_bounds
      → set_locked w v p tag offset s ≡ fault out_of_bounds
  unfolding set_locked
  set_faults w v tag offset off r l = ground (arith, ==-refl p, get-put p p (held n) s.heap)

-- Where the caller holds the mutex already, the accessors wait for ever.
module _ {T : Type 0} (s : State T) (p : Ptr) (n : Node) (at : get p s.heap ≡ some n)
    (taken : n.locked ≡ true) where
  pub get_blocked : (w : ℕ) (tag offset : ℤ) → get_locked w p tag offset s ≡ blocked
  unfolding get_locked
  get_blocked w tag offset = ground arith

  pub set_blocked : (w v : ℕ) (tag offset : ℤ) → set_locked w v p tag offset s ≡ blocked
  unfolding set_locked
  set_blocked w v tag offset = ground arith

-- What is at the addresses afterwards.
pub get-released :
    (p q : Ptr) (n : Node) (h : Heap)
    → get p h ≡ some n
    → n.locked ≡ false
    → get q (released p n h) ≡ get q h
get-released p q n h at free =
    ground
      (arith, get-put p q (record n { locked = false }) (put p (held n) h), get-put p q (held n) h)

pub get-rewritten :
    (p q : Ptr) (n : Node) (d : Bytes) (h : Heap)
    → get q (rewritten p n d h)
      ≡ (if q == p then some (record n { contents = d; locked = false }) else get q h)
get-rewritten p q n d h = ground (
  arith,
  get-put p q (record n { contents = d; locked = false })
      (put p (held (record n { contents = d })) (put p (held n) h)),
  get-put p q (held (record n { contents = d })) (put p (held n) h),
  get-put p q (held n) h,
)
