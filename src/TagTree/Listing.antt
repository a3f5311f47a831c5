-- ===== src/TagTree/Listing.antt =====
-- The contents of the metatag: what the second loop of `tag_tree_metanode_create` in src/tagtree.c
-- writes, and how it is read back.
use plcstub.Base.{
  ℕ, zero, suc, ◌+◌, ◌%◌, ◌≤◌, ◌<◌, ◌≡◌, refl, sym, ap, ◌∙◌, List, [], ◌∷◌, ◌++◌, true, arith,
  length, length-append, drop, length-take, leb,
}
use plcstub.Types.{size_mod, u16}
use plcstub.Bytes.{Bytes, overwrite, splice}
use plcstub.Bytes.Laws.{length-encode, length-overwrite, length-splice}
use plcstub.Outcome.{done}
use plcstub.Env.Heap.{Node}
use plcstub.TagTree.Metatag.{sizeof_metatag, name_length, meta_entry, total_size, write_entries}

-- The entries of the nodes, one behind the other.
unfoldable pub listing : List Node → Bytes
listing [] = []
listing (n ∷ ns) = meta_entry n ++ listing ns

-- The names fit in the 16 bits of `mt->length`.
abbrev pub AreShort : List Node → Type 0
AreShort [] = Unit
AreShort (n ∷ ns) = (length n.name < u16) × AreShort ns

pub length-meta_entry : (n : Node) → length (meta_entry n) ≡ sizeof_metatag + name_length n
unfolding meta_entry
length-meta_entry n = simp (length-append, length-encode, length-take) (omega arith)

pub total_size-listing :
    (k : ℕ) (ns : List Node)
    → AreShort ns
    → k + length (listing ns) < size_mod
    → total_size k ns ≡ k + length (listing ns)
unfolding total_size listing
total_size-listing k [] short small = omega arith
total_size-listing k (n ∷ ns) short small =
    let e = length-append (meta_entry n) (listing ns) in
    let l = length-meta_entry n in
    let next : (k + (sizeof_metatag + length n.name)) % size_mod ≡ k + (22 + length n.name) =
      omega (arith, short.0) in
    rw next (
      total_size-listing (k + (22 + length n.name)) ns short.1 (omega (arith, short.0))
      ∙ omega (arith, short.0))

overwrite-append : (a b d : Bytes) → splice (length a) b (overwrite a d) ≡ overwrite (a ++ b) d
unfolding splice overwrite
overwrite-append [] b d = refl
overwrite-append (x ∷ a) b [] = refl
overwrite-append (x ∷ a) b (y ∷ d) = ap (λ l. x ∷ l) (overwrite-append a b d)

splice-append :
    (p : ℕ) (a b d : Bytes) → splice (p + length a) b (splice p a d) ≡ splice p (a ++ b) d
unfolding splice
splice-append zero a b d =
    ap (λ m. splice m b (overwrite a d)) (omega arith) ∙ overwrite-append a b d
splice-append (suc p) a b [] = ap (λ m. splice m b []) {y = suc (p + length a)} (omega arith)
splice-append (suc p) a b (y ∷ d) =
    ap (λ m. splice m b (y ∷ splice p a d)) {y = suc (p + length a)} (omega arith)
    ∙ ap (λ l. y ∷ l) (splice-append p a b d)

splice-nothing : (p : ℕ) (d : Bytes) → splice p [] d ≡ d
unfolding splice overwrite
splice-nothing zero d = refl
splice-nothing (suc p) [] = refl
splice-nothing (suc p) (y ∷ d) = ap (λ l. y ∷ l) (splice-nothing p d)

overwrite_all : (bs d : Bytes) → length bs ≡ length d → overwrite bs d ≡ bs
unfolding overwrite
overwrite_all [] [] h = refl
overwrite_all [] (x ∷ d) h = absurd (omega arith)
overwrite_all (b ∷ bs) [] h = absurd (omega arith)
overwrite_all (b ∷ bs) (x ∷ d) h = ap (λ l. b ∷ l) (overwrite_all bs d (omega arith))

write_entries-splice :
    (p : ℕ) (ns : List Node) (d : Bytes)
    → p + length (listing ns) ≤ length d
    → write_entries p ns d ≡ done (splice p (listing ns) d)
unfolding write_entries listing
write_entries-splice p [] d fits = ap done (sym (splice-nothing p d))
write_entries-splice p (n ∷ ns) d fits =
    let l = length-meta_entry n in
    let e = length-append (meta_entry n) (listing ns) in
    let s = length-splice p (meta_entry n) d in
    let room : leb (p + (sizeof_metatag + name_length n)) (length d) ≡ true = ground arith in
    rw room (
      write_entries-splice (p + (sizeof_metatag + name_length n)) ns (splice p (meta_entry n) d)
        (omega arith)
      ∙ ap done (
          ap (λ m. splice (p + m) (listing ns) (splice p (meta_entry n) d)) (sym l)
          ∙ splice-append p (meta_entry n) (listing ns) d))

-- A buffer of the size of the listing is filled with it.
pub write_entries-listing :
    (ns : List Node) (d : Bytes)
    → length d ≡ length (listing ns)
    → write_entries 0 ns d ≡ done (listing ns)
unfolding splice
write_entries-listing ns d same =
    write_entries-splice 0 ns d (omega arith) ∙ ap done (overwrite_all (listing ns) d (sym same))

overwrite-short : (bs d : Bytes) → length bs ≤ length d → overwrite bs d ≡ bs ++ drop (length bs) d
unfolding overwrite
overwrite-short [] d le = refl
overwrite-short (b ∷ bs) [] le = absurd (omega arith)
overwrite-short (b ∷ bs) (x ∷ d) le = ap (λ l. b ∷ l) (overwrite-short bs d (omega arith))

pub length-overwritten :
    (bs d : Bytes) → length bs ≤ length d → length (bs ++ drop (length bs) d) ≡ length d
length-overwritten bs d le = ap length (sym (overwrite-short bs d le)) ∙ length-overwrite bs d

-- A longer buffer keeps its end.
pub write_entries-prefix :
    (ns : List Node) (d : Bytes)
    → length (listing ns) ≤ length d
    → write_entries 0 ns d ≡ done (listing ns ++ drop (length (listing ns)) d)
unfolding splice
write_entries-prefix ns d le =
    write_entries-splice 0 ns d (omega arith) ∙ ap done (overwrite-short (listing ns) d le)
