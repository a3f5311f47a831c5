-- ===== src/Types/Size.antt =====
-- Sizes of types: `type_size_bytes` of src/types.c.
use plcstub.Base.{ℕ, zero, suc, ◌+◌, ◌*◌, ◌/◌, ◌%◌, ◌<◌, ◌≡◌, arith, ap, ◌∙◌}
use plcstub.Types.{
  TypeT, Fields, word, array, struct, end, field, count, TagType, u16, size_mod, simple_size,
  type_to_enum, type_size_bytes, sum_fields,
}

-- A type is well-formed if every `len` and `field_cnt` is a 16-bit number and a struct has as many
-- fields as its `field_cnt` says.
abbrev mutual
  pub IsWellFormed : TypeT → Type 0
  IsWellFormed (word n) = Unit
  IsWellFormed (array len m) = (len < u16) × IsWellFormed m
  IsWellFormed (struct cnt fs) = (cnt < u16) × (cnt ≡ count fs) × AreWellFormed fs

  pub AreWellFormed : Fields → Type 0
  AreWellFormed end = Unit
  AreWellFormed (field _ t fs) = IsWellFormed t × AreWellFormed fs

-- The bytes that a value of the type takes, as a number without a bound.
unfoldable mutual
  unfolding type_to_enum

  pub extent : TypeT → ℕ
  extent (word n) = simple_size (type_to_enum (word n))
  extent (array len m) = extent m * len
  extent (struct cnt fs) = extents fs

  pub extents : Fields → ℕ
  extents end = 0
  extents (field _ t fs) = extent t + extents fs

simple_size_bound : (t : TagType) → simple_size t < size_mod
simple_size_bound t = ground arith

mul-mod_left : (a b : ℕ) → a % size_mod * b % size_mod ≡ a * b % size_mod
mul-mod_left a b =
    let e : a ≡ size_mod * (a / size_mod) + a % size_mod = omega arith in
    omega (arith, ap (λ (t : ℕ). t * b) e)

mutual
  unfolding type_size_bytes extent

  size-eq-mod : (t : TypeT) → IsWellFormed t → type_size_bytes t ≡ extent t % size_mod
  size-eq-mod (word n) h = omega (arith, simple_size_bound (type_to_enum (word n)))
  size-eq-mod (array len m) h = rw (size-eq-mod m h.1) (mul-mod_left (extent m) len)
  size-eq-mod (struct cnt fs) h = sum_fields-eq-mod fs cnt 0 h.1 h.2 (omega arith) ∙ omega arith

  sum_fields-eq-mod :
      (fs : Fields) (k sz : ℕ)
      → k ≡ count fs
      → AreWellFormed fs
      → sz < size_mod
      → sum_fields k sz fs ≡ (sz + extents fs) % size_mod
  sum_fields-eq-mod end zero sz e h lt = omega arith
  sum_fields-eq-mod end (suc k) sz e h lt = absurd (omega arith)
  sum_fields-eq-mod (field n t fs) zero sz e h lt = absurd (omega arith)
  sum_fields-eq-mod (field n t fs) (suc k) sz e h lt = rw (size-eq-mod t h.0) (
      sum_fields-eq-mod fs k ((sz + extent t % size_mod) % size_mod) (omega arith) h.1 (omega arith)
      ∙ omega arith)

-- On a well-formed type `type_size_bytes` computes the number of bytes that a value takes, modulo
-- the range of `size_t`.
pub type_size_bytes-extent : (t : TypeT) → IsWellFormed t → type_size_bytes t ≡ extent t % size_mod
type_size_bytes-extent t h = size-eq-mod t h
