-- ===== src/Session/Calm.antt =====
-- Clients whose calls all return: they hold no tag's mutex, use no negative offset, read and write
-- the metatag byte by byte, and do not use up the IDs.
use plcstub.Base.{
  ℕ, zero, suc, ◌+◌, ◌*◌, ◌%◌, ◌^◌, ◌≤◌, ◌<◌, ◌≡◌, ◌⊎◌, ap, false, none, some, Bool-cases, inl, inr,
  arith, ℤ, pos, negsuc, ◌≤ℤ◌, ◌==ℤ◌, ltb_ℤ, length,
}
use plcstub.Types.{word, array, u16, size_mod, type_to_enum, type_size_bytes}
use plcstub.Env.Heap.{Node}
use plcstub.TagTree.Ops.{metatag_id}
use plcstub.Api.Access.{Accessor, width, is_array, scale_offset}
use plcstub.Api.Access.Locked.{resolve}
use plcstub.Api.Lifetime.{width-bound}

-- A tag that is no array has a buffer of at least eight bytes; the metatag is an array of SINTs that
-- is not longer than its buffer.
pub data HasRoom (n : Node) : Type 0 where
  scalar : is_array (type_to_enum n.type) ≡ false → 8 ≤ length n.contents → HasRoom n
  byte_array :
      (len : ℕ)
      → n.type ≡ array len (word 2)
      → len < u16
      → len ≤ length n.contents
      → n.tag_id ≡ metatag_id
      → HasRoom n

-- An accessor that may be used on a tag: of one byte on the metatag, any on the others.
abbrev pub Suits : Accessor → ℤ → Type 0
Suits a id = ((id ==ℤ metatag_id) ≡ false) ⊎ (width a ≡ 1)

scalar-resolve :
    (n : Node) (k : ℕ)
    → is_array (type_to_enum n.type) ≡ false
    → (resolve n.type (pos k) ≡ none) ⊎ (resolve n.type (pos k) ≡ some (pos 0))
scalar-resolve n zero h = inr (rw h)
scalar-resolve n (suc k) h = inl (rw h (ground arith))

scale_one : (k : ℕ) → k < u16 → scale_offset (pos k) 1 ≡ pos k
unfolding scale_offset
scale_one k small = let e : k % 256 ^ 8 * 1 % size_mod ≡ k = omega arith in rw e (ground arith)

byte-resolve :
    (len k : ℕ)
    → len < u16
    → (resolve (array len (word 2)) (pos k) ≡ none)
      ⊎ ((resolve (array len (word 2)) (pos k) ≡ some (pos k)) × (k < len))
unfolding type_to_enum scale_offset type_size_bytes
byte-resolve len k small = elim (Bool-cases (ltb_ℤ (pos k) (pos len))) [
  | inr out ↦ inl (rw out)
  | inl inside ↦ inr (rw inside (ap some (scale_one k (ground arith))), ground arith)
]

-- An offset that is not negative is refused, or the access lies in the buffer.
pub accepted_in_bounds :
    (a : Accessor) (n : Node) (offset : ℤ)
    → HasRoom n
    → pos 0 ≤ℤ offset
    → Suits a n.tag_id
    → (resolve n.type offset ≡ none)
      ⊎ ((off : ℕ) × (resolve n.type offset ≡ some (pos off)) × (off + width a ≤ length n.contents))
accepted_in_bounds a n (negsuc k) room nonneg suits = absurd (ground arith)
accepted_in_bounds a n (pos k) (scalar s le) nonneg suits = elim (scalar-resolve n k s) [
  | inl r ↦ inl r
  | inr r ↦ inr (0, r, omega (arith, width-bound a))
]
accepted_in_bounds a n (pos k) (byte_array len typed small le meta) nonneg suits =
    elim (byte-resolve len k small) [
      | inl r ↦ inl (rw typed r)
      | inr (r, inside) ↦ inr (k, rw typed r, one_byte k inside suits)
    ]
  where
    one_byte : (k : ℕ) → k < len → Suits a n.tag_id → k + width a ≤ length n.contents
    one_byte k inside (inl other) = absurd (ground arith)
    one_byte k inside (inr one) = omega arith
