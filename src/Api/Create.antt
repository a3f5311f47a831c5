-- ===== src/Api/Create.antt =====
-- `plc_tag_create` of src/plcstub.c on attribute strings.
use plcstub.Base.{
  ◌+◌, ◌≡◌, refl, ◌∙◌, true, false, none, some, List, ◌∷◌, ◌++◌, arith, ℤ, is_some, length,
  replicate, codes, eq_bytes,
}
use plcstub.Bytes.{Bytes}
use plcstub.Types.{TypeT, word, type_new_simple, type_dup, type_size_bytes}
use plcstub.Outcome.{done, fault, null_pointer}
use plcstub.Env.Rb.{Ptr, RbTree}
use plcstub.Env.Heap.{Node}
use plcstub.Env.Libc.{Libc}
use plcstub.Status.{err_bad_param}
use plcstub.TagTree.State.{State}
use plcstub.TagTree.Ops.{meta_name, next_id, alloc_node, buffer_size}
use plcstub.TagTree.Lookup.{IsReady}
use plcstub.TagTree.Sound.{IsSound}
use plcstub.TagTree.Create.Drop.{MetatagFree}
use plcstub.TagTree.Create.Fresh.{IsWith}
use plcstub.TagTree.Create.Insert.{tag_tree_insert-IsWith}
use plcstub.Api.Attrib.Laws.{join, AreAttributes, last_name, scan-join, scan-protocol}
use plcstub.Api.Calls.{plc_tag_create}

-- The type of every tag that `plc_tag_create` makes.
abbrev pub lint : TypeT
lint = word 6

module _ {T : Type 0} (rb : RbTree T) (libc : Libc) (timeout : ℤ) where
  -- On a started library with a sound tree whose metatag is not locked, where the allocations succeed
  -- and an ID is left, `plc_tag_create` of a string of attributes whose last `name` is not "@tags"
  -- returns the ID after the highest one, and adds a tag of that name under it: of type LINT, with
  -- eight bytes 0x42, unlocked and without a callback. The metatag is gone, and every other tag is
  -- found with its node as before.
  pub plc_tag_create-join :
      (s : State T) (kvs : List (Bytes × Bytes)) (name : Bytes) (id : ℤ) (p : Ptr) (n : Node)
      → IsReady s
      → (sound : IsSound rb s) → MetatagFree rb s sound
      → AreAttributes kvs
      → last_name kvs none ≡ some name
      → eq_bytes name meta_name ≡ false
      → is_some (libc.malloc s.heap (length (join kvs) + 1)) ≡ true
      → next_id (rb.maximum s.tree) ≡ done id
      → alloc_node libc s.heap name lint id ≡ done (p, n)
      → (s' : State T) × (plc_tag_create rb libc (join kvs) timeout s ≡ done (id, s'))
        × IsWith rb id p n s s'
        × IsReady s'
        × (n.name ≡ name)
        × (n.type ≡ lint)
        × (n.contents ≡ replicate 8 0x42)
        × (n.locked ≡ false)
        × (n.cb ≡ none)
  unfolding plc_tag_create type_new_simple
  plc_tag_create-join s kvs name id p n ready sound metafree are last plain room next alloc =
      let (s', made, w, r, f) =
        tag_tree_insert-IsWith rb libc name lint id p n s ready sound plain metafree next alloc in
      (
        s',
        rw (room, scan-join kvs none are, last) made,
        w,
        r,
        f.name_kept,
        type_kept f.copied,
        f.filled ∙ (unfold buffer_size type_size_bytes in refl),
        f.unlocked,
        f.no_callback,
      )
    where
      type_kept : type_dup (λ k. is_some (libc.malloc s.heap k)) lint ≡ done n.type → n.type ≡ lint
      type_kept e = (unfold type_dup in ground arith)

  -- A string of attributes without a `name` is refused with PLCTAG_ERR_BAD_PARAM, and the state
  -- stays as it was.
  pub create_without_name :
      (s : State T) (kvs : List (Bytes × Bytes))
      → AreAttributes kvs
      → last_name kvs none ≡ none
      → is_some (libc.malloc s.heap (length (join kvs) + 1)) ≡ true
      → plc_tag_create rb libc (join kvs) timeout s ≡ done (err_bad_param, s)
  unfolding plc_tag_create
  create_without_name s kvs are last room = rw (room, scan-join kvs none are, last)

  -- A string that begins with the attribute "protocol" without '=' and goes on with others makes
  -- `plc_tag_create` write through NULL, in every state and also if it holds a name.
  pub create_protocol :
      (s : State T) (rest : Bytes)
      → plc_tag_create rb libc (codes "protocol" ++ b'&' ∷ rest) timeout s ≡ fault null_pointer
  unfolding plc_tag_create
  create_protocol s rest = rw (scan-protocol rest none) (ground arith)
