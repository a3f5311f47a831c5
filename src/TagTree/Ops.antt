-- ===== src/TagTree/Ops.antt =====
-- The operations of src/tagtree.c, with the tags of tags.inc.
use plcstub.Base.{
  ℕ, ◌+◌, ◌-◌, ◌%◌, ◌^◌, Bool, true, false, Option, none, some, List, [], ◌∷◌, ℤ, pos, ◌==ℤ◌, suc_ℤ,
  ltb, ◌==◌, if◌then◌else◌, is_some, length, replicate, codes, eq_bytes,
}
use plcstub.Types.{
  TypeT, word, size_mod, type_new_simple, type_new_array, type_dup, type_size_bytes,
}
use plcstub.Bytes.{Bytes, splice}
use plcstub.Outcome
use plcstub.Outcome.{Outcome, done, exit, fault, Fault, overflow, unless_exit, in_bounds}
use plcstub.Env.Rb.{Ptr, Entry, entry, RbTree}
use plcstub.Env.Heap.{Node, Heap, delete}
use plcstub.Env.Libc.{Libc}
use plcstub.Status.{status_ok, err_not_found}
use plcstub.TagTree.State.{
  M, pure, ◌>>=◌, ◌>>◌, lift, gets, modify, deref, write, mtx_lock, mtx_unlock, rw_rdlock,
  rw_wrlock, rw_unlock,
}
use plcstub.TagTree.Metatag.{total_size, write_entries}

-- METATAG_ID
abbrev pub metatag_id : ℤ
metatag_id = pos 1

-- INT_MAX
abbrev pub int_max : ℤ
int_max = pos (2 ^ 31 - 1)

abbrev pub tag_sint_code : ℕ
tag_sint_code = 2

abbrev pub tag_int_code : ℕ
tag_int_code = 3

-- sizeof(struct tag_tree_node) on an LP64 target
abbrev pub sizeof_node : ℕ
sizeof_node = 112

-- sizeof(uintptr_t)
abbrev pub sizeof_word : ℕ
sizeof_word = 8

-- `tree_size--` and `tree_size++` on a `size_t`
abbrev pub decr_size : ℕ → ℕ
decr_size n = (n + size_mod - 1) % size_mod

abbrev pub incr_size : ℕ → ℕ
incr_size n = (n + 1) % size_mod

-- "@tags"
abbrev pub meta_name : Bytes
meta_name = codes "@tags"

-- The size of a tag's buffer.
unfoldable pub buffer_size : TypeT → ℕ
buffer_size t = if ltb (type_size_bytes t) sizeof_word then sizeof_word else type_size_bytes t

-- The ID of a new tag, given the node with the highest one.
unfoldable pub next_id : Option Entry → Outcome ℤ
next_id none = done (suc_ℤ metatag_id)
next_id (some e) = if e.tag_id ==ℤ int_max then fault overflow else done (suc_ℤ e.tag_id)

-- `if (!tag->type) err(…)`: TAG_ERROR is the null pointer.
abbrev pub not_null : TypeT → Bool
not_null (word n) = if n == 0 then false else true
not_null _ = true

-- A fresh node, and its fields.
unfoldable pub alloc_node : Libc → Heap → Bytes → TypeT → ℤ → Outcome (Ptr × Node)
alloc_node libc h name type id =
    Outcome.◌>>=◌ (elim (libc.malloc h sizeof_node) [ none ↦ exit | some p ↦ done p ])
      λ p. Outcome.◌>>◌ (unless_exit (libc.mutex_init p)) (
        Outcome.◌>>◌ (unless_exit (is_some (libc.malloc h (length name + 1)))) (
          Outcome.◌>>=◌ (type_dup (λ n. is_some (libc.malloc h n)) type) λ t.
            Outcome.◌>>◌ (unless_exit (not_null t)) (
              Outcome.◌>>◌ (unless_exit (is_some (libc.malloc h (buffer_size type)))) (
                done (
                  p,
                  record {
                    tag_id = id;
                    name = name;
                    cb = none;
                    locked = false;
                    type = t;
                    contents = replicate (buffer_size type) 0x42;
                  },
                )))))

module _ {T : Type 0} where
  unfoldable pub tag_tree_node_destroy : Ptr → M T (Unit {0})
  tag_tree_node_destroy p =
      if p == 0 then pure tt else do mtx_lock p; modify (λ s. record s { heap = delete p s.heap })

  -- The nodes of a sequence of entries.
  unfoldable pub deref_all : List Entry → M T (List Node)
  deref_all [] = pure []
  deref_all (e ∷ es) = do n ← deref e.node; ns ← deref_all es; pure (n ∷ ns)

module _ {T : Type 0} (rb : RbTree T) where
  -- RB_INSERT
  unfoldable pub rb_insert : ℤ → Ptr → M T (Unit {0})
  rb_insert id p = modify (λ s. record s { tree = rb.insert s.tree (entry id p) })

  -- RB_FIND, with a node on the stack whose only field is the ID
  unfoldable pub rb_find : ℤ → M T (Option Entry)
  rb_find id s = done (rb.find s.tree (entry id 0), s)

  -- RB_REMOVE and `tree_size--`
  unfoldable pub rb_remove : Entry → M T (Unit {0})
  rb_remove e =
      modify (λ s. record s { tree = rb.remove s.tree e; tree_size = decr_size s.tree_size })

  -- Takes the metatag out of the tree and destroys it, if there is one.
  unfoldable pub drop_metatag : M T (Unit {0})
  unfolding rb_find rb_remove
  drop_metatag = do
    found ← rb_find metatag_id
    elim found [ none ↦ pure tt | some e ↦ do rb_remove e; tag_tree_node_destroy e.node ]

module _ {T : Type 0} (rb : RbTree T) (libc : Libc) where
  unfoldable pub tag_tree_node_create : Bytes → TypeT → M T Ptr
  unfolding alloc_node next_id rb_insert write
  tag_tree_node_create name type = do
    biggest ← gets (λ s. rb.maximum s.tree)
    id ← lift (next_id biggest)
    h ← gets (λ s. s.heap)
    (p, n) ← lift (alloc_node libc h name type id)
    write p n
    rb_insert rb id p
    modify (λ s. record s { tree_size = incr_size s.tree_size })
    drop_metatag rb
    mtx_lock p
    pure p

  -- DEFINE_SCALAR; `*tag->data = val` writes one byte
  unfoldable pub define_scalar : Bytes → ℕ → ℕ → M T (Unit {0})
  define_scalar name type val = do
    p ← tag_tree_node_create name (type_new_simple type)
    n ← deref p
    write p (record n { contents = splice 0 (val % 256 ∷ []) n.contents })
    mtx_unlock p

  unfoldable pub define_scalars : List (Bytes × ℕ × ℕ) → M T (Unit {0})
  define_scalars [] = pure tt
  define_scalars ((name, type, val) ∷ rest) = do define_scalar name type val; define_scalars rest

-- tags.inc
abbrev pub tags_inc : List (Bytes × ℕ × ℕ)
tags_inc =
    (codes "DUMMY_AQUA_DATA_0", tag_int_code, 0)
    ∷ (codes "DUMMY_AQUA_DATA_1", tag_int_code, 1)
    ∷ (codes "DUMMY_AQUA_DATA_2", tag_int_code, 2)
    ∷ (codes "DUMMY_AQUA_DATA_3", tag_int_code, 3)
    ∷ (codes "DUMMY_AQUA_DATA_4", tag_int_code, 4)
    ∷ (codes "DUMMY_AQUA_DATA_5", tag_int_code, 5)
    ∷ (codes "DUMMY_AQUA_DATA_6", tag_int_code, 6)
    ∷ (codes "DUMMY_AQUA_DATA_7", tag_int_code, 7)
    ∷ (codes "DUMMY_AQUA_DATA_8", tag_int_code, 8)
    ∷ (codes "DUMMY_AQUA_DATA_9", tag_int_code, 9)
    ∷ []

module _ {T : Type 0} (rb : RbTree T) (libc : Libc) where
  unfoldable pub tag_tree_init : M T (Unit {0})
  tag_tree_init = do
    rw_rdlock
    inited ← gets (λ s. s.tag_tree_inited)
    if inited then rw_unlock else do
      rw_unlock
      rw_wrlock
      inited' ← gets (λ s. s.tag_tree_inited)
      if inited' then rw_unlock else do
        modify (λ s. record s { tag_tree_inited = true })
        define_scalars rb libc tags_inc
        rw_unlock

  -- strdup of the name is taken to succeed: the code does not test its result.
  unfoldable pub tag_tree_metanode_create : M T Ptr
  unfolding rb_insert write
  tag_tree_metanode_create = do
    before ← gets (λ s. rb.elements s.tree)
    ns ← deref_all before
    let total = total_size 0 ns
    drop_metatag rb
    h ← gets (λ s. s.heap)
    p ← lift (elim (libc.malloc h sizeof_node) [ none ↦ exit | some p ↦ done p ])
    lift (unless_exit (libc.mutex_init p))
    t ← lift (type_new_array (λ n. is_some (libc.malloc h n)) total (type_new_simple tag_sint_code))
    lift (unless_exit (is_some (libc.malloc h total)))
    after ← gets (λ s. rb.elements s.tree)
    ns' ← deref_all after
    d ← lift (write_entries 0 ns' (libc.garbage h total))
    write p (record {
      tag_id = metatag_id;
      name = meta_name;
      cb = none;
      locked = false;
      type = t;
      contents = d;
    })
    rb_insert rb metatag_id p
    pure p

  unfoldable pub tag_tree_insert : Bytes → TypeT → M T ℤ
  tag_tree_insert name type = do
    tag_tree_init
    rw_wrlock
    ret ←
        if eq_bytes name meta_name
        then (do p ← tag_tree_metanode_create; n ← deref p; pure n.tag_id)
        else (do
          p ← tag_tree_node_create rb libc name type
          mtx_unlock p
          n ← deref p
          pure n.tag_id)
    rw_unlock
    pure ret

  unfoldable pub tag_tree_remove : ℤ → M T ℤ
  unfolding rb_find rb_remove
  tag_tree_remove id = if id ==ℤ metatag_id then pure status_ok else do
    tag_tree_init
    rw_wrlock
    found ← rb_find rb id
    elim found [
      | none ↦ do rw_unlock; pure err_not_found
      | some e ↦ do
        mtx_lock e.node
        rb_remove rb e
        rw_unlock
        mtx_unlock e.node
        tag_tree_node_destroy e.node
        pure status_ok
    ]

  -- The address of the tag's node, `none` for NULL.
  unfoldable pub tag_tree_lookup : ℤ → M T (Option Ptr)
  unfolding rb_find
  tag_tree_lookup id = do
    tag_tree_init
    if id ==ℤ metatag_id then rw_wrlock else rw_rdlock
    found ← rb_find rb id
    ret ← elim found [
      | some e ↦ pure (some e.node)
      | none ↦
          if id ==ℤ metatag_id then (do p ← tag_tree_metanode_create; pure (some p)) else pure none
    ]
    rw_unlock
    pure ret
