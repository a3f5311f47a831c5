-- ===== src/Bytes/Laws.antt =====
-- Round trips and bounds of the memory accesses.
use native.Mathlib.Nat.{pow-suc}
use plcstub.Base.{
  ℕ, zero, suc, ◌+◌, ◌*◌, ◌/◌, ◌^◌, ◌≤◌, ◌<◌, ◌≡◌, refl, sym, ap, ◌∙◌, ◌⊎◌, inl, inr, [], ◌∷◌, some,
  arith, length, take, drop,
}
use plcstub.Bytes.{Bytes, encode, decode, overwrite, splice, load, store}

pub length-encode : (w v : ℕ) → length (encode w v) ≡ w
unfolding encode
length-encode zero v = refl
length-encode (suc w) v = ap suc (length-encode w (v / 256))

pub decode-encode : (w v : ℕ) → v < 256 ^ w → decode (encode w v) ≡ v
unfolding decode encode
decode-encode zero v h = omega arith
decode-encode (suc w) v h =
    let e : 256 ^ suc w ≡ 256 ^ w * 256 = pow-suc 256 w in
    omega (arith, decode-encode w (v / 256) (omega arith))

pub length-overwrite : (bs d : Bytes) → length (overwrite bs d) ≡ length d
unfolding overwrite
length-overwrite [] d = refl
length-overwrite (b ∷ bs) [] = refl
length-overwrite (b ∷ bs) (x ∷ d) = ap suc (length-overwrite bs d)

pub length-splice : (off : ℕ) (bs d : Bytes) → length (splice off bs d) ≡ length d
unfolding splice
length-splice zero bs d = length-overwrite bs d
length-splice (suc n) bs [] = refl
length-splice (suc n) bs (x ∷ d) = ap suc (length-splice n bs d)

take-overwrite : (bs d : Bytes) → length bs ≤ length d → take (length bs) (overwrite bs d) ≡ bs
unfolding overwrite
take-overwrite [] d h = refl
take-overwrite (b ∷ bs) [] h = absurd (omega arith)
take-overwrite (b ∷ bs) (x ∷ d) h = ap (λ l. b ∷ l) (take-overwrite bs d (omega arith))

pub take-drop-splice :
    (off : ℕ) (bs d : Bytes)
    → off + length bs ≤ length d
    → take (length bs) (drop off (splice off bs d)) ≡ bs
unfolding splice
take-drop-splice zero bs d h = take-overwrite bs d (omega arith)
take-drop-splice (suc n) bs [] h = absurd (omega arith)
take-drop-splice (suc n) bs (x ∷ d) h = take-drop-splice n bs d (omega arith)

-- Bytes in front of what is written stay.
before-splice :
    (w off at : ℕ) (bs d : Bytes)
    → off + w ≤ at
    → take w (drop off (splice at bs d)) ≡ take w (drop off d)
unfolding splice
before-splice zero off at bs d h = refl
before-splice (suc w) off zero bs d h = absurd (omega arith)
before-splice (suc w) off (suc at) bs [] h = refl
before-splice (suc w) zero (suc at) bs (x ∷ d) h =
    ap (λ l. x ∷ l) (before-splice w zero at bs d (omega arith))
before-splice (suc w) (suc off) (suc at) bs (x ∷ d) h =
    before-splice (suc w) off at bs d (omega arith)

drop-overwrite : (off : ℕ) (bs d : Bytes) → length bs ≤ off → drop off (overwrite bs d) ≡ drop off d
unfolding overwrite
drop-overwrite off [] d h = refl
drop-overwrite zero (b ∷ bs) d h = absurd (omega arith)
drop-overwrite (suc off) (b ∷ bs) [] h = refl
drop-overwrite (suc off) (b ∷ bs) (x ∷ d) h = drop-overwrite off bs d (omega arith)

-- So do bytes behind it.
behind-splice :
    (off at : ℕ) (bs d : Bytes) → at + length bs ≤ off → drop off (splice at bs d) ≡ drop off d
unfolding splice
behind-splice off zero bs d h = drop-overwrite off bs d (omega arith)
behind-splice zero (suc at) bs d h = absurd (omega arith)
behind-splice (suc off) (suc at) bs [] h = refl
behind-splice (suc off) (suc at) bs (x ∷ d) h = behind-splice off at bs d (omega arith)

-- Inversion of a store.
pub store-some :
    (w off v : ℕ) (d : Bytes) {d' : Bytes}
    → store w off v d ≡ some d'
    → (off + w ≤ length d) × (d' ≡ splice off (encode w v) d)
unfolding store
store-some w off v d h = ground arith

pub store-in_bounds :
    (w off v : ℕ) (d : Bytes)
    → off + w ≤ length d
    → store w off v d ≡ some (splice off (encode w v) d)
unfolding store
store-in_bounds w off v d h = ground arith

pub load-in_bounds :
    (w off : ℕ) (d : Bytes)
    → off + w ≤ length d
    → load w off d ≡ some (decode (take w (drop off d)))
unfolding load
load-in_bounds w off d h = ground arith

pub load-splice :
    (w off v : ℕ) (d : Bytes)
    → off + w ≤ length d
    → v < 256 ^ w
    → load w off (splice off (encode w v) d) ≡ some v
load-splice w off v d fits small =
    rw
      (load-in_bounds w off (splice off (encode w v) d)
        (omega (arith, length-splice off (encode w v) d)))
      (ap some (
        ap (λ n. decode (take n (drop off (splice off (encode w v) d)))) (sym (length-encode w v))
        ∙ ap decode (take-drop-splice off (encode w v) d (omega (arith, length-encode w v)))
        ∙ decode-encode w v small))

-- Loads beside what is written stay.
pub load-splice_apart :
    (w off u at v : ℕ) (d : Bytes)
    → (off + w ≤ at) ⊎ (at + u ≤ off)
    → load w off (splice at (encode u v) d) ≡ load w off d
unfolding load
load-splice_apart w off u at v d (inl h) =
    rw (length-splice at (encode u v) d, before-splice w off at (encode u v) d h)
load-splice_apart w off u at v d (inr h) = rw (
  length-splice at (encode u v) d,
  behind-splice off at (encode u v) d (omega (arith, length-encode u v)),
)
