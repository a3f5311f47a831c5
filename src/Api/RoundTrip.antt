-- ===== src/Api/RoundTrip.antt =====
-- Values that are set and read back through the accessors of src/plcstub.c.
use plcstub.Base.{
  ℕ, ◌+◌, ◌^◌, ◌≤◌, ◌<◌, ◌≡◌, ◌≢◌, ◌⊎◌, inl, inr, refl, ◌∙◌, ap, true, false, some, arith, ℤ, pos,
  length, ==-refl,
}
use plcstub.Outcome.{done}
use plcstub.Bytes.{Bytes, encode, splice, load}
use plcstub.Bytes.Laws.{load-splice, load-splice_apart, store-in_bounds, load-in_bounds}
use plcstub.Env.Rb.{Entry, entry, RbTree}
use plcstub.Env.Heap.{Node, get}
use plcstub.Env.Libc.{Libc}
use plcstub.Status.{status_ok}
use plcstub.TagTree.State.{State}
use plcstub.TagTree.Lookup.{IsReady, lookup_found}
use plcstub.Api.Access.{
  Accessor, width, plcstub_get_impl, plcstub_set_impl, plc_tag_get, plc_tag_set, notify,
  write_started, write_completed, read_started, read_completed,
}
use plcstub.Api.Access.Locked.{resolve, released, rewritten, get_ok, set_ok, get-rewritten}

-- The tag `id` is in the tree, its node `n` is allocated and its mutex is free.
pub record IsTag {T : Type 0} (rb : RbTree T) (s : State T) (id : ℤ) (e : Entry) (n : Node)
    : Type 0 where
  pub ready : IsReady s
  pub found : rb.find s.tree (entry id 0) ≡ some e
  pub at : get e.node s.heap ≡ some n
  pub free : n.locked ≡ false

-- An access of `w` bytes at `offset` lies in the buffer, at the byte `off`.
pub record Fits (n : Node) (w : ℕ) (offset : ℤ) (off : ℕ) : Type 0 where
  pub resolved : resolve n.type offset ≡ some (pos off)
  pub inside : off + w ≤ length n.contents

module _ {T : Type 0} (rb : RbTree T) (libc : Libc) {s : State T} {id : ℤ} {e : Entry} {n : Node}
    (tag : IsTag rb s id e n) where
  -- The state after a successful write.
  abbrev pub after_set : Bytes → State T
  after_set d = record s {
    heap = rewritten e.node n d s.heap;
    events =
        notify n.cb true id write_completed status_ok
          (notify n.cb true id write_started status_ok s.events);
  }

  pub set_effect :
      (a : Accessor) (offset : ℤ) {off : ℕ} (v : ℕ)
      → Fits n (width a) offset off
      → plc_tag_set rb libc a id offset v s
        ≡ done (status_ok, after_set (splice off (encode (width a) v) n.contents))
  unfolding plc_tag_set plcstub_set_impl
  set_effect a offset {off} v fits = rw (lookup_found tag.ready rb libc id e tag.found) (
      set_ok s e.node n tag.at tag.free (width a) v id offset off _ fits.resolved
        (store-in_bounds (width a) off v n.contents fits.inside))

  IsTag-after_set :
      (d : Bytes) → IsTag rb (after_set d) id e (record n { contents = d; locked = false })
  IsTag-after_set d = record {
    ready = record { inited = tag.ready.inited; unlocked = tag.ready.unlocked };
    found = tag.found;
    at = get-rewritten e.node e.node n d s.heap ∙ ground (arith, ==-refl e.node);
    free = refl;
  }

  -- The state after a successful read.
  abbrev pub after_get : State T
  after_get = record s {
    heap = released e.node n s.heap;
    events =
        notify n.cb true id read_completed status_ok
          (notify n.cb true id read_started status_ok s.events);
  }

  pub get_effect :
      (fb : ℕ → ℤ → ℕ) (a : Accessor) (offset : ℤ) {off : ℕ} (v : ℕ)
      → resolve n.type offset ≡ some (pos off)
      → load (width a) off n.contents ≡ some v
      → plc_tag_get rb libc fb a id offset s ≡ done (v, after_get)
  unfolding plc_tag_get plcstub_get_impl
  get_effect fb a offset {off} v r l = rw (
    lookup_found tag.ready rb libc id e tag.found,
    get_ok s e.node n tag.at tag.free (width a) id offset off v r l,
  )

module _ {T : Type 0} (rb : RbTree T) (libc : Libc) {s : State T} {id id' : ℤ} {e e' : Entry}
    {n n' : Node} (tag : IsTag rb s id e n) (d : Bytes) (tag' : IsTag rb s id' e' n') where
  -- A tag with another node after the write.
  other-IsTag : e'.node ≢ e.node → IsTag rb (after_set rb libc tag d) id' e' n'
  other-IsTag apart = record {
    ready = record { inited = tag.ready.inited; unlocked = tag.ready.unlocked };
    found = tag'.found;
    at = get-rewritten e.node e'.node n d s.heap ∙ ground arith;
    free = tag'.free;
  }

  same_node : e'.node ≡ e.node → n ≡ n'
  same_node same = ground arith

  -- A tag with the same node.
  same-IsTag :
      e'.node ≡ e.node
      → IsTag rb (after_set rb libc tag d) id' e' (record n { contents = d; locked = false })
  same-IsTag same = record {
    ready = record { inited = tag.ready.inited; unlocked = tag.ready.unlocked };
    found = tag'.found;
    at = get-rewritten e.node e'.node n d s.heap ∙ ground arith;
    free = refl;
  }

module _ {T : Type 0} (rb : RbTree T) (libc : Libc) (fb : ℕ → ℤ → ℕ) {s : State T} {id : ℤ}
    {e : Entry} {n : Node} where
  -- A value that `plc_tag_set_<a>` writes to a tag is what `plc_tag_get_<b>` returns at the same
  -- offset, for any two rows of TYPEMAP of one size, where the offset is accepted, the access lies
  -- in the buffer and the tag's mutex is free. Both calls return.
  pub get-set :
      (a b : Accessor) (offset : ℤ) {off : ℕ} (v : ℕ)
      → IsTag rb s id e n
      → Fits n (width a) offset off
      → v < 256 ^ width a
      → width b ≡ width a
      → (s₁ : State T) × (s₂ : State T) × (plc_tag_set rb libc a id offset v s
          ≡ done (status_ok, s₁))
        × (plc_tag_get rb libc fb b id offset s₁ ≡ done (v, s₂))
  get-set a b offset {off} v tag fits small same =
      let d = splice off (encode (width a) v) n.contents in
      let tag' = IsTag-after_set rb libc tag d in
      (
        after_set rb libc tag d,
        after_get rb libc tag',
        set_effect rb libc tag a offset v fits,
        get_effect rb libc tag' fb b offset v fits.resolved
            (rw same (load-splice (width a) off v n.contents fits.inside small)),
      )

  -- A successful `plc_tag_set_<a>` leaves what `plc_tag_get_<b>` returns at another place: in the
  -- buffer of another node, or at bytes of the same buffer that the write does not touch.
  pub get-set_ne :
      (a b : Accessor) (offset offset' : ℤ) {off off' : ℕ} (v : ℕ) {id' : ℤ} {e' : Entry}
      {n' : Node}
      → IsTag rb s id e n
      → Fits n (width a) offset off
      → IsTag rb s id' e' n'
      → Fits n' (width b) offset' off'
      → (e'.node ≢ e.node)
        ⊎ ((e'.node ≡ e.node) × ((off' + width b ≤ off) ⊎ (off + width a ≤ off')))
      → (s₁ : State T) × (s₂ : State T) × (s₃ : State T) × (x : ℕ) × (plc_tag_set rb libc a id
            offset v s
          ≡ done (status_ok, s₁))
        × (plc_tag_get rb libc fb b id' offset' s ≡ done (x, s₂))
        × (plc_tag_get rb libc fb b id' offset' s₁ ≡ done (x, s₃))
  get-set_ne a b offset offset' v tag fits tag' fits' (inl apart) =
      let d = splice _ (encode (width a) v) n.contents in
      let l = load-in_bounds (width b) _ _ fits'.inside in
      (
        _,
        _,
        _,
        _,
        set_effect rb libc tag a offset v fits,
        get_effect rb libc tag' fb b offset' _ fits'.resolved l,
        get_effect rb libc (other-IsTag rb libc tag d tag' apart) fb b offset' _ fits'.resolved l,
      )
  get-set_ne a b offset offset' {off} {off'} v tag fits tag' fits' (inr (same, beside)) =
      let d = splice off (encode (width a) v) n.contents in
      let same_n = same_node rb libc tag d tag' same in
      let l = load-in_bounds (width b) off' _ fits'.inside in
      (
        _,
        _,
        _,
        _,
        set_effect rb libc tag a offset v fits,
        get_effect rb libc tag' fb b offset' _ fits'.resolved l,
        get_effect rb libc (same-IsTag rb libc tag d tag' same) fb b offset' _
            (ap (λ (m : Node). resolve m.type offset') same_n ∙ fits'.resolved)
            (load-splice_apart (width b) off' (width a) off v n.contents beside
              ∙ ap (λ (m : Node). load (width b) off' m.contents) same_n
              ∙ l),
      )
