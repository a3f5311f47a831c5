-- ===== src/Env/Libc.antt =====
-- The C library's part: allocation, and the making of mutexes. A parameter of the model.
use plcstub.Base.{
  ℕ, ◌+◌, ◌<◌, ◌≡◌, ◌≢◌, refl, Bool, true, Option, none, some, [], ◌∷◌, arith, length, replicate,
  length-replicate, max,
}
use plcstub.Bytes.{Bytes}
use plcstub.Env.Rb.{Ptr}
use plcstub.Env.Heap.{Heap, get}

-- `malloc h n` is what `malloc(n)` returns while the nodes of `h` are allocated, `none` for NULL;
-- `mutex_init p` tells whether a mutex at `p` can be made; `garbage` is what a block holds before it
-- is written.
pub record Libc : Type 0 where
  pub malloc : Heap → ℕ → Option Ptr
  pub mutex_init : Ptr → Bool
  pub garbage : Heap → ℕ → Bytes
  pub malloc-fresh : (h : Heap) (n : ℕ) (p : Ptr) → malloc h n ≡ some p → (p ≢ 0) × (get p h ≡ none)
  pub length-garbage : (h : Heap) (n : ℕ) → length (garbage h n) ≡ n

-- An allocator that never fails: the address above all others.
unfoldable pub top : Heap → ℕ
top [] = 0
top ((p, n) ∷ h) = max p (top h)

above : (h : Heap) (p : Ptr) → top h < p → get p h ≡ none
unfolding top get
above [] p lt = refl
above ((q, n) ∷ h) p lt = ground (arith, above h p)

pub bump-fresh :
    (h : Heap) (n : ℕ) (p : Ptr) → some (top h + 1) ≡ some p → (p ≢ 0) × (get p h ≡ none)
bump-fresh h n p e = ground (arith, above h p)

pub zeros_length : (h : Heap) (n : ℕ) → length {A = ℕ} (replicate n 0) ≡ n
zeros_length h n = length-replicate n 0

abbrev pub bump : Libc
bump = record {
  malloc = λ h n. some (top h + 1);
  mutex_init = λ p. true;
  garbage = λ h n. replicate n 0;
  malloc-fresh = bump-fresh;
  length-garbage = zeros_length;
}
