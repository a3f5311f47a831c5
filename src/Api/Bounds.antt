-- ===== src/Api/Bounds.antt =====
-- Which accesses to arrays leave the buffer: src/plcstub.c tests the index of the element, not the
-- size of what is read or written there.
use plcstub.Base.{
  ℕ, ◌+◌, ◌*◌, ◌%◌, ◌^◌, ◌≤◌, ◌<◌, ◌≡◌, ◌⊎◌, true, some, inl, inr, arith, ℤ, pos, length, leb,
  Bool-cases, ltb_ℤ,
}
use plcstub.Outcome.{done, fault, out_of_bounds}
use plcstub.Types.{TypeT, array, size_mod, type_to_enum, type_size_bytes}
use plcstub.Bytes.{load, store}
use plcstub.Env.Rb.{Entry, RbTree}
use plcstub.Env.Heap.{Node}
use plcstub.Env.Libc.{Libc}
use plcstub.Status.{status_ok}
use plcstub.TagTree.State.{State}
use plcstub.TagTree.Lookup.{lookup_found}
use plcstub.Api.Access.{
  Accessor, width, scale_offset, plcstub_get_impl, plcstub_set_impl, plc_tag_get, plc_tag_set,
  getter_cb, setter_cb,
}
use plcstub.Api.Access.Locked.{resolve, get_faults, set_faults}
use plcstub.Api.RoundTrip.{IsTag, Fits, get_effect, set_effect}
use plcstub.Bytes.Laws.{load-in_bounds}

scale_offset-small :
    (k size : ℕ) → k < 2 ^ 31 → k * size < 2 ^ 31 → scale_offset (pos k) size ≡ pos (k * size)
unfolding scale_offset
scale_offset-small k size small fits =
    let e : k % 256 ^ 8 ≡ k = omega arith in
    let f : k * size % size_mod ≡ k * size = omega arith in rw (e, f) (ground arith)

resolve-array :
    (len k : ℕ) (m : TypeT)
    → k < len
    → k < 2 ^ 31
    → k * type_size_bytes m < 2 ^ 31
    → resolve (array len m) (pos k) ≡ some (pos (k * type_size_bytes m))
unfolding type_to_enum
resolve-array len k m inside small fits =
    let accepted : ltb_ℤ (pos k) (pos len) ≡ true = ground arith in
    rw (accepted, scale_offset-small k (type_size_bytes m) small fits)

module _ {T : Type 0} (rb : RbTree T) (libc : Libc) (fb : ℕ → ℤ → ℕ) {s : State T} {id : ℤ}
    {e : Entry} {n : Node} (len : ℕ) (m : TypeT) where
  -- On an array whose mutex is free, with the index of an element, whose place in bytes is an int:
  -- an access that ends inside the buffer returns, and any other is undefined behaviour. The index
  -- alone decides whether the access is refused, so that one that is wider than the elements may
  -- leave the buffer.
  pub array_access-cases :
      (a : Accessor) (k v : ℕ)
      → IsTag rb s id e n
      → n.type ≡ array len m
      → k < len
      → k < 2 ^ 31
      → k * type_size_bytes m < 2 ^ 31
      → ((k * type_size_bytes m + width a ≤ length n.contents)
          × ((x : ℕ) × (s₁ : State T) × (plc_tag_get rb libc fb a id (pos k) s ≡ done (x, s₁)))
          × ((s₁ : State T) × (plc_tag_set rb libc a id (pos k) v s ≡ done (status_ok, s₁))))
        ⊎ ((length n.contents < k * type_size_bytes m + width a)
            × (plc_tag_get rb libc fb a id (pos k) s ≡ fault out_of_bounds)
            × (plc_tag_set rb libc a id (pos k) v s ≡ fault out_of_bounds))
  unfolding plc_tag_get plcstub_get_impl plc_tag_set plcstub_set_impl getter_cb setter_cb load store
  array_access-cases a k v tag typed inside small fits =
      let off : ℕ = k * type_size_bytes m in
      let r : resolve n.type (pos k) ≡ some (pos off) =
        rw typed (resolve-array len k m inside small fits) in
      elim (Bool-cases (leb (off + width a) (length n.contents))) [
        | inl within ↦
            let le : off + width a ≤ length n.contents = ground arith in
            let fit : Fits n (width a) (pos k) off = record { resolved = r; inside = le } in
            inl (
              le,
              (
                _,
                _,
                get_effect rb libc tag fb a (pos k) _ r
                    (load-in_bounds (width a) off n.contents le),
              ),
              (_, set_effect rb libc tag a (pos k) v fit),
            )
        | inr beyond ↦
            let lt : length n.contents < off + width a = ground arith in
            let found = lookup_found tag.ready rb libc id e tag.found in
            inr (
              lt,
              rw (
                found,
                get_faults s e.node n tag.at tag.free (width a) id (pos k) (pos off) r (rw beyond),
              ),
              rw (
                found,
                set_faults s e.node n tag.at tag.free (width a) v id (pos k) (pos off) r
                    (rw beyond),
              ),
            )
      ]
