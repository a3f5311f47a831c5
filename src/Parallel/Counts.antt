-- ===== src/Parallel/Counts.antt =====
-- Who holds which lock, counted over the threads, and what an operation on a lock does to the counts.
use plcstub.Base.{
  some, ℕ, ◌+◌, ◌≤◌, ◌≡◌, refl, sym, ap, ◌∙◌, false, List, [], ◌∷◌, arith, ◌==◌, if◌then◌else◌,
}
use mathlib.Core.Path.{subst}
use plcstub.Env.Rb.{Ptr}
use plcstub.Env.Heap.{Node, Heap, put, delete, get-put, get-delete}
use plcstub.TagTree.State.{State, RwLock, free, writer}
use plcstub.Threads.Weights.{readers_of, writers_of, IsCounted, reader_added, reader_dropped}
use plcstub.Threads.{is_writer, add_reader, drop_reader}
use plcstub.Parallel.Discipline.{
  holds, Held, nothing, reading, writing, holding, both, lock_bit, lock_count, Spared, after_lock,
  after_unlock,
}

-- Who holds the tree's lock to read, and who to write.
abbrev pub reads : Held → ℕ
reads reading = 1
reads _ = 0

abbrev pub writes : Held → ℕ
writes writing = 1
writes (both p) = 1
writes _ = 0

unfoldable pub total : (Held → ℕ) → List Held → ℕ
total w [] = 0
total w (h ∷ hs) = w h + total w hs

-- The locks say who holds them, where `t` sums over the threads.
pub record AreCounted {T : Type 0} (s : State T) (t : (Held → ℕ) → ℕ) : Type 0 where
  pub nodes : (q : Ptr) → t (holds q) ≡ lock_count s.heap q
  pub read_held : t reads ≡ readers_of s.tag_tree_mtx
  pub write_held : t writes ≡ writers_of s.tag_tree_mtx
  pub counted : IsCounted s.tag_tree_mtx

-- One thread holds `h`, and the others add up to `t`.
abbrev pub with_one : Held → ((Held → ℕ) → ℕ) → (Held → ℕ) → ℕ
with_one h t w = w h + t w

pub lock_count-le : (h : Heap) (q : Ptr) → lock_count h q ≤ 1
unfolding lock_count
lock_count-le h q = ground arith

pub lock_count-set :
    (h : Heap) (p q : Ptr) (n : Node)
    → lock_count (put p n h) q ≡ (if q == p then lock_bit n.locked else lock_count h q)
unfolding lock_count
lock_count-set h p q n = ground (arith, get-put p q n h)

pub lock_count-delete :
    (h : Heap) (p q : Ptr) → lock_count (delete p h) q ≡ (if q == p then 0 else lock_count h q)
unfolding lock_count
lock_count-delete h p q = ground (arith, get-delete p q h)

module _ {T : Type 0} (s : State T) (t : (Held → ℕ) → ℕ) where
  pub count_rdlock :
      AreCounted s (with_one nothing t)
      → is_writer s.tag_tree_mtx ≡ false
      → AreCounted (record s { tag_tree_mtx = add_reader s.tag_tree_mtx }) (with_one reading t)
  count_rdlock c h =
      let (r, w, k) = reader_added s.tag_tree_mtx h in
      record {
        nodes = c.nodes;
        read_held = omega (arith, c.read_held, r);
        write_held = omega (arith, c.write_held, w);
        counted = k;
      }

  pub count_runlock :
      AreCounted s (with_one reading t)
      → AreCounted (record s { tag_tree_mtx = drop_reader s.tag_tree_mtx }) (with_one nothing t)
  count_runlock c =
      let (r, w, k) = reader_dropped s.tag_tree_mtx (omega (arith, c.read_held)) in
      record {
        nodes = c.nodes;
        read_held = omega (arith, c.read_held, r);
        write_held = omega (arith, c.write_held, w);
        counted = k;
      }

  pub count_wrlock :
      AreCounted s (with_one nothing t)
      → s.tag_tree_mtx ≡ free
      → AreCounted (record s { tag_tree_mtx = writer }) (with_one writing t)
  count_wrlock c h =
      let r : readers_of s.tag_tree_mtx ≡ 0 = rw h refl in
      let w : writers_of s.tag_tree_mtx ≡ 0 = rw h refl in
      record {
        nodes = c.nodes;
        read_held = omega (arith, c.read_held, r);
        write_held = omega (arith, c.write_held, w);
        counted = tt;
      }

  -- A writer that leaves may still hold a node's mutex.
  pub count_wunlock :
      (h h' : Held)
      → writes h ≡ 1
      → reads h ≡ 0
      → writes h' ≡ 0
      → reads h' ≡ 0
      → ((q : Ptr) → holds q h' ≡ holds q h)
      → AreCounted s (with_one h t)
      → AreCounted (record s { tag_tree_mtx = free }) (with_one h' t)
  count_wunlock h h' a b a' b' same c = record {
    nodes = λ q. omega (arith, c.nodes q, same q);
    read_held = no_readers s.tag_tree_mtx c.read_held c.write_held;
    write_held = no_writers s.tag_tree_mtx c.write_held;
    counted = tt;
  }
    where
      no_readers :
          (l : RwLock)
          → with_one h t reads ≡ readers_of l
          → with_one h t writes ≡ writers_of l
          → with_one h' t reads ≡ 0
      no_readers l e f = ground (arith, a, b, a', b', e, f)

      no_writers : (l : RwLock) → with_one h t writes ≡ writers_of l → with_one h' t writes ≡ 0
      no_writers l f = ground (arith, a, a', f)

module _ {T : Type 0} (s s' : State T) (t : (Held → ℕ) → ℕ) where
  pub count_Spared : {h : Held} → Spared h s s' → AreCounted s t → AreCounted s' t
  count_Spared same c = record {
    nodes = λ q. c.nodes q ∙ sym (same.nodes q);
    read_held = c.read_held ∙ sym (ap readers_of same.tree);
    write_held = c.write_held ∙ sym (ap writers_of same.tree);
    counted = subst IsCounted (sym same.tree) c.counted;
  }

  -- The thread that holds `h` takes or releases the mutex of the node at `p`.
  pub count_node :
      (p : Ptr) (before after : ℕ) (h h' : Held)
      → (s'.tag_tree_mtx ≡ s.tag_tree_mtx)
      → ((q : Ptr) → lock_count s'.heap q ≡ (if q == p then after else lock_count s.heap q))
      → lock_count s.heap p ≡ before
      → reads h' ≡ reads h
      → writes h' ≡ writes h
      → ((q : Ptr)
          → holds q h' + (if q == p then before else 0) ≡ holds q h + (if q == p then after else 0))
      → AreCounted s (with_one h t)
      → AreCounted s' (with_one h' t)
  count_node p before after h h' tree nodes at r w moved c = record {
    nodes = λ q. ground (arith, nodes q, moved q, c.nodes q, at);
    read_held = omega (arith, c.read_held, r, ap readers_of tree);
    write_held = omega (arith, c.write_held, w, ap writers_of tree);
    counted = subst IsCounted (sym tree) c.counted;
  }

-- A mutex that is taken or released counts one more or less, and the tree's lock is as it was.
pub after_lock_lem :
    (p : Ptr) (h h' : Held)
    → after_lock p h ≡ some h'
    → (reads h' ≡ reads h)
      × (writes h' ≡ writes h)
      × ((q : Ptr) → holds q h' ≡ holds q h + (if q == p then 1 else 0))
after_lock_lem p nothing h' e =
    let g : holding p ≡ h' = ground arith in rw (sym g) (refl, refl, λ q. ground arith)
after_lock_lem p writing h' e =
    let g : both p ≡ h' = ground arith in rw (sym g) (refl, refl, λ q. ground arith)
after_lock_lem p reading h' e = absurd (ground arith)
after_lock_lem p (holding r) h' e = absurd (ground arith)
after_lock_lem p (both r) h' e = absurd (ground arith)

pub after_unlock_lem :
    (p : Ptr) (h h' : Held)
    → after_unlock p h ≡ some h'
    → (reads h' ≡ reads h)
      × (writes h' ≡ writes h)
      × ((q : Ptr) → holds q h' + (if q == p then 1 else 0) ≡ holds q h)
after_unlock_lem p nothing h' e = absurd (ground arith)
after_unlock_lem p reading h' e = absurd (ground arith)
after_unlock_lem p writing h' e = absurd (ground arith)
after_unlock_lem p (holding r) h' e =
    let (same, g) : (p ≡ r) × (nothing ≡ h') = (ground arith, ground arith) in
    rw (sym g) (refl, refl, λ q. ground arith)
after_unlock_lem p (both r) h' e =
    let (same, g) : (p ≡ r) × (writing ≡ h') = (ground arith, ground arith) in
    rw (sym g) (refl, refl, λ q. ground arith)
