-- ===== src/Bytes.antt =====
-- Memory as bytes: how the accessors of src/plcstub.c and the packed entries of src/tagtree.c lie
-- in a tag's buffer. Numbers are little-endian, as on the targets of the library.
pub mod Laws
use plcstub.Base.{
  ℕ, zero, suc, ◌+◌, ◌*◌, ◌/◌, ◌%◌, List, [], ◌∷◌, Option, none, some, leb, length, take, drop,
  if◌then◌else◌,
}

abbrev pub Bytes : Type 0
Bytes = List ℕ

-- The `w` bytes of a number, the lowest first.
unfoldable pub encode : ℕ → ℕ → Bytes
encode zero v = []
encode (suc w) v = v % 256 ∷ encode w (v / 256)

unfoldable pub decode : Bytes → ℕ
decode [] = 0
decode (b ∷ bs) = b + 256 * decode bs

-- Puts bytes over the front of a buffer, as far as it reaches.
unfoldable pub overwrite : Bytes → Bytes → Bytes
overwrite [] d = d
overwrite (b ∷ bs) [] = []
overwrite (b ∷ bs) (x ∷ d) = b ∷ overwrite bs d

unfoldable pub splice : ℕ → Bytes → Bytes → Bytes
unfolding overwrite
splice zero bs d = overwrite bs d
splice (suc n) bs [] = []
splice (suc n) bs (x ∷ d) = x ∷ splice n bs d

-- `*(type*)(buf + off)` of `w` bytes; `none` if they do not lie in the buffer.
unfoldable pub load : ℕ → ℕ → Bytes → Option ℕ
unfolding decode
load w off d = if leb (off + w) (length d) then some (decode (take w (drop off d))) else none

-- `*(type*)(buf + off) = v`; `none` if the bytes do not lie in the buffer.
unfoldable pub store : ℕ → ℕ → ℕ → Bytes → Option Bytes
unfolding encode splice
store w off v d = if leb (off + w) (length d) then some (splice off (encode w v) d) else none
