-- ===== src/Parallel/Waits.antt =====
-- What of src/types.c, src/tagtree.c and src/plcstub.c never waits: only operations on locks do.
use plcstub.Base.{
  String, ℕ, zero, suc, ◌+◌, Bool, true, false, Option, none, some, List, [], ◌∷◌, ℤ, pos, negsuc,
  is_some, if◌then◌else◌, eq_bytes, codes, ◌==ℤ◌,
}
use plcstub.Types.{
  TypeT, word, array, struct, Fields, end, field, new_array, fill_field, type_dup, dup_fields,
  type_new_array,
}
use plcstub.Bytes.{Bytes, splice}
use plcstub.Outcome.{
  Outcome, done, exit, blocked, fault, null_pointer, unless_exit, in_bounds, ◌>>=◌,
}
use plcstub.Env.Rb.{Ptr, Entry}
use plcstub.Env.Heap.{Node, Heap}
use plcstub.Env.Libc.{Libc}
use plcstub.TagTree.Metatag.{write_entries, meta_entry, sizeof_metatag, name_length}
use plcstub.TagTree.Ops.{alloc_node, next_id, not_null, buffer_size, sizeof_node, int_max}
use plcstub.Api.Access.{getter_cb, setter_cb, or_fault}
use plcstub.Api.Attrib.{Scan, bad_param, scan, cut}

-- The outcome is not that of waiting.
abbrev pub Ends {ℓ} : {A : Type ℓ} → Outcome A → Type 0
Ends blocked = ⊥
Ends _ = Unit

pub Ends->>= :
    {A B : Type 0} (o : Outcome A) (f : A → Outcome B)
    → Ends o
    → ((a : A) → Ends (f a))
    → Ends (o >>= f)
Ends->>= (done a) f e h = h a
Ends->>= exit f e h = tt
Ends->>= blocked f e h = absurd e
Ends->>= (fault x) f e h = tt

pub Ends-unless_exit : (b : Bool) → Ends (unless_exit b)
Ends-unless_exit true = tt
Ends-unless_exit false = tt

pub Ends-in_bounds : (b : Bool) → Ends (in_bounds b)
Ends-in_bounds true = tt
Ends-in_bounds false = tt

if_Ends : {A : Type 0} (b : Bool) (o r : Outcome A) → Ends o → Ends r → Ends (if b then o else r)
if_Ends true o r e h = e
if_Ends false o r e h = h

pub Ends-malloc : (o : Option Ptr) → Ends (elim o [ none ↦ exit | some p ↦ done p ])
Ends-malloc none = tt
Ends-malloc (some p) = tt

pub Ends-new_array :
    (mem : ℕ → Bool) (len : ℕ) (o : Outcome TypeT) → Ends o → Ends (new_array mem len o)
unfolding new_array
Ends-new_array mem len o e =
    Ends->>= (unless_exit (mem _)) _ (Ends-unless_exit (mem _)) λ _. Ends->>= o _ e λ m. tt

pub Ends-fill_field :
    (room i : ℕ) (name : String) (o : Outcome TypeT) (r : Outcome Fields)
    → Ends o
    → Ends r
    → Ends (fill_field room i name o r)
unfolding fill_field
Ends-fill_field room i name o r e h = Ends->>= (in_bounds _) _ (Ends-in_bounds _) λ _.
    Ends->>= o _ e λ t. Ends->>= (in_bounds _) _ (Ends-in_bounds _) λ _. Ends->>= r _ h λ fs. tt

mutual
  unfolding type_dup dup_fields

  pub Ends-type_dup : (mem : ℕ → Bool) (t : TypeT) → Ends (type_dup mem t)
  Ends-type_dup mem (word n) = tt
  Ends-type_dup mem (array len m) = Ends-new_array mem len (type_dup mem m) (Ends-type_dup mem m)
  Ends-type_dup mem (struct cnt fs) =
      Ends->>= (unless_exit (mem _)) _ (Ends-unless_exit (mem _))
        λ _. Ends->>= (dup_fields mem _ cnt 0 fs) _ (Ends-dup_fields mem _ cnt 0 fs) λ _. tt

  pub Ends-dup_fields :
      (mem : ℕ → Bool) (room k i : ℕ) (fs : Fields) → Ends (dup_fields mem room k i fs)
  Ends-dup_fields mem room zero i fs = tt
  Ends-dup_fields mem room (suc k) i end = tt
  Ends-dup_fields mem room (suc k) i (field name t fs) =
      Ends-fill_field room i name (type_dup mem t) (dup_fields mem room k (i + 1) fs)
        (Ends-type_dup mem t) (Ends-dup_fields mem room k (i + 1) fs)

pub Ends-type_new_array : (mem : ℕ → Bool) (cnt : ℕ) (t : TypeT) → Ends (type_new_array mem cnt t)
unfolding type_new_array
Ends-type_new_array mem cnt t = Ends-new_array mem cnt (type_dup mem t) (Ends-type_dup mem t)

pub Ends-next_id : (o : Option Entry) → Ends (next_id o)
unfolding next_id
Ends-next_id none = tt
Ends-next_id (some e) = if_Ends (e.tag_id ==ℤ int_max) _ _ tt tt

pub Ends-alloc_node :
    (libc : Libc) (h : Heap) (name : Bytes) (type : TypeT) (id : ℤ)
    → Ends (alloc_node libc h name type id)
unfolding alloc_node
Ends-alloc_node libc h name type id = Ends->>= _ _ (Ends-malloc (libc.malloc h sizeof_node)) λ p.
    Ends->>= _ _ (Ends-unless_exit (libc.mutex_init p)) λ _. Ends->>= _ _ (Ends-unless_exit _) λ _.
      Ends->>= _ _ (Ends-type_dup _ type) λ t.
        Ends->>= (unless_exit (not_null t)) _ (Ends-unless_exit _) λ _.
          Ends->>= (unless_exit (is_some (libc.malloc h (buffer_size type)))) _ (Ends-unless_exit _)
            λ _. tt

pub Ends-write_entries : (ns : List Node) (p : ℕ) (d : Bytes) → Ends (write_entries p ns d)
unfolding write_entries
Ends-write_entries [] p d = tt
Ends-write_entries (n ∷ ns) p d =
    Ends->>= (in_bounds _) _ (Ends-in_bounds _)
      λ _. Ends-write_entries ns (p + (sizeof_metatag + name_length n)) (splice p (meta_entry n) d)

Ends-or_fault : {A : Type 0} (o : Option A) → Ends (or_fault o)
Ends-or_fault none = tt
Ends-or_fault (some a) = tt

pub Ends-getter_cb : (w : ℕ) (off : ℤ) (d : Bytes) → Ends (getter_cb w off d)
unfolding getter_cb
Ends-getter_cb w (pos off) d = Ends-or_fault _
Ends-getter_cb w (negsuc off) d = tt

pub Ends-setter_cb : (w : ℕ) (off : ℤ) (v : ℕ) (d : Bytes) → Ends (setter_cb w off v d)
unfolding setter_cb
Ends-setter_cb w (pos off) v d = Ends-or_fault _
Ends-setter_cb w (negsuc off) v d = tt

pub Ends-scan : (pieces : List Bytes) (name : Option Bytes) → Ends (scan pieces name)
unfolding scan
Ends-scan [] name = tt
Ends-scan (kv ∷ rest) name =
    piece _ (cut kv)
      λ val. Ends-scan rest (if eq_bytes val.0 (codes "name") then some val.1 else name)
  where
    piece :
        (next : Bytes × Bytes → Outcome Scan) (o : Option (Bytes × Bytes))
        → ((val : Bytes × Bytes) → Ends (next val))
        → Ends (elim o [
          | none ↦ if eq_bytes kv (codes "protocol") then fault null_pointer else done bad_param
          | some val ↦ next val
        ])
    piece next none h = if_Ends (eq_bytes kv (codes "protocol")) _ _ tt tt
    piece next (some val) h = h val
